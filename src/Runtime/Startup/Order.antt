-- ===== src/Runtime/Startup/Order.antt =====
-- What the loop that starts the components leaves behind.
use imip.Base.{
  ℕ, ◌+◌, ◌≡◌, refl, sym, ◌∙◌, subst, true, false, not, String, List, [], ◌∷◌, ◌++◌, Option, none,
  some, filter, includes, length, ltb, count, count-append, All, Bool-cases, Option-cases, inl, inr,
  arith, Result, ok, err,
}
use mathlib.Core.List.{append_assoc, append-nil}
use imip.Base.Dict.{Dict, get, has}
use imip.Runtime.Types.{ComponentDefinition, ComponentFailure, Message, thrown, blocked_by}
use imip.Runtime.Board.{Board, update_dependency_status}
use imip.Runtime.Startup.{
  begin, Startup, failed, after_initialize, after_create, missing_deps, start_known, start_one,
  start_all,
}

abbrev pub failed_names : List ComponentFailure → List String
failed_names [] = []
failed_names (f ∷ fs) = f.component ∷ failed_names fs

count-failed :
    (n : String) (fs : List ComponentFailure) (f : ComponentFailure)
    → count n (failed_names (fs ++ f ∷ [])) ≡ count n (failed_names fs) + count n (f.component ∷ [])
count-failed n [] f = ground arith
count-failed n (g ∷ fs) f = ground (arith, count-failed n fs f)

module _ {W I : Type 0} (graph : Dict (ComponentDefinition W I)) where
  -- Every component of the list stands behind all of its dependencies.
  abbrev pub IsInOrder : List String → List String → Type 0
  IsInOrder before [] = Unit
  IsInOrder before (n ∷ ns) =
      ((d : ComponentDefinition W I)
        → get n graph ≡ some d
        → All (λ dep. includes before dep ≡ true) d.dependencies)
      × IsInOrder (before ++ n ∷ []) ns

  IsInOrder-push :
      (before ns : List String) (n : String)
      → IsInOrder before ns
      → ((d : ComponentDefinition W I)
          → get n graph ≡ some d
          → All (λ dep. includes (before ++ ns) dep ≡ true) d.dependencies)
      → IsInOrder before (ns ++ n ∷ [])
  IsInOrder-push before [] n h k = (
    subst
        (λ b.
          (d : ComponentDefinition W I)
          → get n graph ≡ some d
          → All (λ dep. includes b dep ≡ true) d.dependencies)
        (append-nil before) k,
    tt,
  )
  IsInOrder-push before (m ∷ ns) n h k = (
    h.0,
    IsInOrder-push (before ++ m ∷ []) ns n h.1 (
        subst
          (λ b.
            (d : ComponentDefinition W I)
            → get n graph ≡ some d
            → All (λ dep. includes b dep ≡ true) d.dependencies)
          (sym (append_assoc before (m ∷ []) ns)) k),
  )

  -- Of the names done so far: which were started, and which have failed.
  pub record StartInv (done initialized : List String) (failures : List ComponentFailure)
      : Type 0 where
    pub in_order : IsInOrder [] initialized
    pub counted :
        (n : String) → count n initialized + count n (failed_names failures) ≡ count n done

  module _ (now : W → ℕ) where
    abbrev Holds : List String → Startup W I → Type 0
    Holds done s = StartInv done s.initialized s.failures

    failed-Holds :
        (name : String) (message : Message) (s : Startup W I) (done : List String)
        → Holds done s
        → Holds (done ++ name ∷ []) (failed now name message s)
    unfolding failed
    failed-Holds name message s done v = record {
      in_order = v.in_order;
      counted = λ n. ground (
        arith,
        v.counted n,
        count-append n done (name ∷ []),
        count-failed n s.failures (record { component = name; message = message }),
      );
    }

    after_initialize-Holds :
        (d : ComponentDefinition W I) (name : String) (r : W × Option String) (s : Startup W I)
        (done : List String)
        → get name graph ≡ some d
        → All (λ dep. includes s.initialized dep ≡ true) d.dependencies
        → Holds done s
        → Holds (done ++ name ∷ []) (after_initialize now name r s)
    unfolding after_initialize
    after_initialize-Holds d name (w, some m) s done e h v =
        failed-Holds name (thrown m) (record s { world = w }) done
          (record { in_order = v.in_order; counted = v.counted })
    after_initialize-Holds d name (w, none) s done e h v = record {
      in_order = IsInOrder-push [] s.initialized name v.in_order (λ d' e'.
          subst (λ x. All (λ dep. includes s.initialized dep ≡ true) x.dependencies)
            (some-inj (sym e ∙ e')) h);
      counted = λ n. ground (
        arith,
        v.counted n,
        count-append n done (name ∷ []),
        count-append n s.initialized (name ∷ []),
      );
    }
      where
        some-inj : {a b : ComponentDefinition W I} → some a ≡ some b → a ≡ b
        some-inj p = cc

    after_create-Holds :
        (d : ComponentDefinition W I) (name : String) (deps : Dict (Option I))
        (r : W × Result String I) (s : Startup W I) (done : List String)
        → get name graph ≡ some d
        → All (λ dep. includes s.initialized dep ≡ true) d.dependencies
        → Holds done s
        → Holds (done ++ name ∷ []) (after_create now d name deps r s)
    unfolding after_create
    after_create-Holds d name deps (w, err m) s done e h v =
        failed-Holds name (thrown m) (record s { world = w }) done v
    after_create-Holds d name deps (w, ok i) s done e h v =
        after_initialize-Holds d name (d.initialize i deps w) _ done e h v

    none_missing :
        (initialized deps : List String)
        → ltb 0 (length (filter (λ dep. not (includes initialized dep)) deps)) ≡ false
        → All (λ dep. includes initialized dep ≡ true) deps
    none_missing initialized [] h = tt
    none_missing initialized (dep ∷ deps) h = ground (arith, h, none_missing initialized deps)

    start_known-Holds :
        (d : ComponentDefinition W I) (name : String) (s : Startup W I) (done : List String)
        → get name graph ≡ some d
        → Holds done s
        → Holds (done ++ name ∷ []) (start_known now d name s)
    unfolding start_known
    start_known-Holds d name s done e v =
        elim (Bool-cases (ltb 0 (length (missing_deps now d s)))) [
          | inl t ↦ rw t (
              failed-Holds name (blocked_by (missing_deps now d s))
                (record s {
                  board = update_dependency_status name false (missing_deps now d s) s.board;
                })
                done v)
          | inr t ↦ rw t (
              after_create-Holds d name _ _ _ done e (none_missing s.initialized d.dependencies t)
                v)
        ]

    start_one-known :
        (d : ComponentDefinition W I) (name : String) (s : Startup W I)
        → get name graph ≡ some d
        → start_one now graph name s ≡ start_known now d name s
    unfolding start_one
    start_one-known d name s e = rw (e, start_one) refl

    unknown : (name : String) → get name graph ≡ none → has name graph ≡ true → ⊥
    unfolding has
    unknown name e k = cc (rw (e, has) at k)

    start_all-Holds :
        (names : List String) (s : Startup W I) (done : List String)
        → All (λ n. has n graph ≡ true) names
        → Holds done s
        → Holds (done ++ names) (start_all now graph names s)
    unfolding start_all
    start_all-Holds [] s done k v = subst (λ x. Holds x s) (sym (append-nil done)) v
    start_all-Holds (name ∷ names) s done k v = elim (Option-cases (get name graph)) [
      | inl e ↦ absurd (unknown name e k.0)
      | inr (d, e) ↦
          subst (λ x. Holds x (start_all now graph (name ∷ names) s))
            (append_assoc done (name ∷ []) names)
            (start_all-Holds names (start_one now graph name s) (done ++ name ∷ []) k.1 (
              subst (Holds (done ++ name ∷ [])) (sym (start_one-known d name s e))
                (start_known-Holds d name s done e v)))
    ]

-- If all the names are registered, the start loop accounts for each of them, as often as it is
-- named, as started or as failed; and each component that it starts stands behind all of its
-- dependencies, whatever has failed before.
pub start_all-IsInOrder :
    {W I : Type 0} (now : W → ℕ) (graph : Dict (ComponentDefinition W I)) (names : List String)
    (board : Board) (instances : Dict I) (w : W)
    → All (λ n. has n graph ≡ true) names
    → let s = start_all now graph names (begin board instances w) in
      IsInOrder graph [] s.initialized
      × ((n : String) → count n s.initialized + count n (failed_names s.failures) ≡ count n names)
start_all-IsInOrder now graph names board instances w known =
    let v =
      start_all-Holds graph now names (begin board instances w) [] known
        (record { in_order = tt; counted = λ n. refl }) in
    (v.in_order, v.counted)
