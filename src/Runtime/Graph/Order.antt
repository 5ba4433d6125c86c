-- ===== src/Runtime/Graph/Order.antt =====
-- The startup order: when there is one, and what it is.
use imip.Base.{
  ℕ, zero, suc, ◌+◌, ◌≤◌, ◌<◌, ◌≡◌, refl, sym, ap, ◌∙◌, subst, true, not, String, List, [], ◌∷◌,
  ◌++◌, Option, none, some, includes, length, ◌==◌, if◌then◌else◌, ◌===◌, count, count-append,
  includes-count, count-includes, arith, filter, All, Bool-cases, inl, inr, length-append, All-map,
  count-filter, length-le_of_counts, counts-eq_of_length, ok, Option-cases,
}
use imip.Base.Dict
use imip.Base.Dict.{Dict, get, put, has, keys, values}
use imip.Runtime.Types.{ComponentDefinition}
use imip.Runtime.Graph.{
  degree, list_of, relax, take_ready, kahn, startup_order, count_degrees, zero_degrees, link,
  no_dependents, assert_dependencies_satisfied, check_each, register,
}
use imip.Runtime.Graph.Degrees.{
  names_of, deps_of, degree-count_degrees, count-link, deps_of-unknown, no_dependents-empty,
}
use imip.Runtime.Graph.Loop.{LoopInv, IsStartable, pending_start, none_pending, round-LoopInv}

module _ {W I : Type 0} where
  -- Every entry stands under the name of its definition, and no name stands twice.
  pub record GraphInv (graph : Dict (ComponentDefinition W I)) : Type 0 where
    pub named : names_of (values graph) ≡ keys graph
    pub unique : (n : String) → count n (keys graph) ≤ 1

  LoopInv-bounded :
      (ds : List (ComponentDefinition W I)) (ready order : List String) (degrees : Dict ℕ)
      → LoopInv ds ready order degrees
      → (n : String) → count n order ≤ count n (names_of ds)
  LoopInv-bounded ds ready order degrees v n =
      ground (arith, v.once n, includes-count (names_of ds) n)

  module _ (ds : List (ComponentDefinition W I)) (dependents : Dict (List String))
      (linked : (x n : String)
        → count n (list_of x dependents)
          ≡ (if includes (names_of ds) n then count x (deps_of n ds) else 0)) where
    abbrev Ended : Option (List String) → Type 0
    Ended r =
        (order : List String) × (degrees : Dict ℕ) × (r ≡ some order) × LoopInv ds [] order degrees

    -- The loop ends before its fuel does, with nothing ready.
    take_ready-Ended :
        (fuel : ℕ) (ready order : List String) (degrees : Dict ℕ)
        → length (names_of ds) < fuel + length order
        → LoopInv ds ready order degrees
        → Ended (take_ready fuel dependents ready order degrees)
    unfolding take_ready
    take_ready-Ended zero ready order degrees f v = absurd (
        omega (
          arith,
          length-le_of_counts order (names_of ds) (LoopInv-bounded ds ready order degrees v),
        ))
    take_ready-Ended (suc fuel) [] order degrees f v = (order, degrees, refl, v)
    take_ready-Ended (suc fuel) (x ∷ ready) order degrees f v =
        let relaxed = relax (list_of x dependents) ready degrees in
        take_ready-Ended fuel relaxed.0 (order ++ x ∷ []) relaxed.1
          (omega (arith, length-append order (x ∷ [])))
          (round-LoopInv ds dependents linked x ready order degrees v)

  module _ (graph : Dict (ComponentDefinition W I)) (v : GraphInv graph) where
    abbrev all_of : List (ComponentDefinition W I)
    all_of = values graph

    unique_names : (n : String) → count n (names_of all_of) ≤ 1
    unique_names n = rw v.named (v.unique n)

    abbrev first_degrees : Dict ℕ
    first_degrees = count_degrees all_of (zero_degrees (keys graph) [])

    linked_all :
        (x n : String)
        → count n (list_of x (link all_of (no_dependents (keys graph) [])))
          ≡ (if includes (names_of all_of) n then count x (deps_of n all_of) else 0)
    unfolding list_of get
    linked_all x n = ground (
      arith,
      count-link all_of (no_dependents (keys graph) []) x n (unique_names n),
      ap (count n) (no_dependents-empty (keys graph) [] x refl),
      deps_of-unknown n all_of,
      count-includes (names_of all_of) n,
    )

    start-LoopInv :
        LoopInv all_of (filter (λ n. degree n first_degrees == 0) (keys graph)) [] first_degrees
    start-LoopInv = record {
      once = λ n. ground (
        arith,
        count-filter (λ n. degree n first_degrees == 0) n (keys graph),
        ap (count n) v.named,
        unique_names n,
        includes-count (names_of all_of) n,
        count-includes (names_of all_of) n,
      );
      counted = λ n h. ground (
        arith,
        h,
        degree-count_degrees all_of (zero_degrees (keys graph) []) n (unique_names n),
        pending_start (deps_of n all_of),
      );
      startable = tt;
    }

    kahn-Ended :
        (order : List String) × (degrees : Dict ℕ) × (kahn graph ≡ some order)
        × LoopInv all_of [] order degrees
    unfolding kahn
    kahn-Ended =
        take_ready-Ended all_of (link all_of (no_dependents (keys graph) [])) linked_all
          (suc (length (keys graph))) _ [] first_degrees (omega (arith, ap length v.named))
          start-LoopInv

    LoopInv-counts :
        (order : List String) (degrees : Dict ℕ)
        → LoopInv all_of [] order degrees
        → (n : String) → count n order ≤ count n (keys graph)
    LoopInv-counts order degrees w n =
        ground (arith, LoopInv-bounded all_of [] order degrees w n, ap (count n) v.named)

    order_eq :
        (order found : List String)
        → kahn graph ≡ some found
        → startup_order graph ≡ ok order
        → (found ≡ order) × (length order ≡ length (keys graph))
    unfolding startup_order
    order_eq order found e h = ground (arith, e)

    -- If a graph with unique names has a startup order, the order names each registered component
    -- once, as often as it is registered, and each behind all of its dependencies.
    pub startup_order-IsStartable :
        (order : List String)
        → startup_order graph ≡ ok order
        → ((n : String) → count n order ≡ count n (keys graph)) × IsStartable all_of [] order
    startup_order-IsStartable order h =
        let (found, degrees, e, w) = kahn-Ended in
        let (same, len) = order_eq order found e h in
        let w' : LoopInv all_of [] order degrees =
          subst (λ o. LoopInv all_of [] o degrees) same w in
        (
          counts-eq_of_length order (keys graph) (LoopInv-counts order degrees w')
              (omega (arith, len)),
          w'.startable,
        )

    -- Every dependency is registered.
    abbrev pub AllKnown : Type 0
    AllKnown = All (λ d. All (λ dep. has dep graph ≡ true) d.dependencies) all_of

    -- `rank` puts every component above its dependencies: there is no cycle.
    abbrev pub IsAcyclic : (String → ℕ) → Type 0
    IsAcyclic rank =
        (n : String)
        → includes (keys graph) n ≡ true
        → All (λ d. rank d < rank n) (deps_of n all_of)

    deps_of-All :
        (n : String) (ds : List (ComponentDefinition W I))
        → All (λ d. All (λ dep. has dep graph ≡ true) d.dependencies) ds
        → All (λ dep. has dep graph ≡ true) (deps_of n ds)
    deps_of-All n [] h = tt
    deps_of-All n (d ∷ ds) h = elim (Bool-cases (d.name === n)) [
      | inl e ↦ rw e h.0
      | inr e ↦ rw e (deps_of-All n ds h.1)
    ]

    includes-has :
        (n : String) (g : Dict (ComponentDefinition W I))
        → has n g ≡ true
        → includes (keys g) n ≡ true
    unfolding has get
    includes-has n [] h = cc
    includes-has n ((k, d) ∷ g) h = ground (arith, includes-has n g)

    both_All :
        (rank : String → ℕ) (k : ℕ) (deps : List String)
        → All (λ dep. has dep graph ≡ true) deps
        → All (λ d. rank d < k) deps
        → All (λ d. (includes (keys graph) d ≡ true) × (rank d < k)) deps
    both_All rank k [] h r = tt
    both_All rank k (d ∷ ds) h r = ((includes-has d graph h.0, r.0), both_All rank k ds h.1 r.1)

    module _ (known : AllKnown) (rank : String → ℕ) (acyclic : IsAcyclic rank) (order : List String)
        (degrees : Dict ℕ) (w : LoopInv all_of [] order degrees) where
      all_ordered :
          (k : ℕ) (n : String)
          → rank n < k
          → includes (keys graph) n ≡ true
          → includes order n ≡ true
      all_ordered zero n r h = absurd (omega arith)
      all_ordered (suc k) n r h =
          let settled : All (λ d. includes order d ≡ true) (deps_of n all_of) =
            All-map (λ d p. all_ordered k d (omega (arith, p.1)) p.0) (deps_of n all_of)
              (both_All rank (rank n) (deps_of n all_of) (deps_of-All n all_of known)
                (acyclic n h)) in
          let named : includes (names_of all_of) n ≡ true = rw v.named h in
          count-includes order n (
            ground (
              arith,
              w.once n,
              w.counted n named,
              none_pending order (deps_of n all_of) settled,
              named,
            ))

      all_counted : (n : String) → count n (keys graph) ≤ count n order
      all_counted n = ground (
        arith,
        v.unique n,
        count-includes (keys graph) n,
        all_ordered (suc (rank n)) n,
        includes-count order n,
      )

    check_each-ok :
        (ds : List (ComponentDefinition W I))
        → All (λ d. All (λ dep. has dep graph ≡ true) d.dependencies) ds
        → check_each ds graph ≡ ok tt
    unfolding check_each
    check_each-ok [] h = refl
    check_each-ok (d ∷ ds) h = rw (none_missing d.dependencies h.0) (check_each-ok ds h.1)
      where
        none_missing :
            (deps : List String)
            → All (λ dep. has dep graph ≡ true) deps
            → filter (λ dep. not (has dep graph)) deps ≡ []
        none_missing [] k = refl
        none_missing (dep ∷ deps) k = rw k.0 (none_missing deps k.1)

    -- If, in a graph with unique names, every dependency is registered, and a rank that falls from
    -- each component to its dependencies shows that there is no cycle, then there is a startup
    -- order.
    pub startup_order_total :
        AllKnown
        → (rank : String → ℕ) → IsAcyclic rank
        → (order : List String) × (startup_order graph ≡ ok order)
    unfolding startup_order assert_dependencies_satisfied
    startup_order_total known rank acyclic =
        let (order, degrees, e, w) = kahn-Ended in
        let short = length-le_of_counts order (keys graph) (LoopInv-counts order degrees w) in
        let long =
          length-le_of_counts (keys graph) order (all_counted known rank acyclic order degrees w) in
        (order, ground (arith, e, short, long, check_each-ok all_of known))

  empty-GraphInv : GraphInv []
  empty-GraphInv = record { named = refl; unique = λ n. omega arith }

  names_of-push :
      (ds : List (ComponentDefinition W I)) (d : ComponentDefinition W I)
      → names_of (ds ++ d ∷ []) ≡ names_of ds ++ d.name ∷ []
  names_of-push [] d = refl
  names_of-push (x ∷ ds) d = ap (◌∷◌ x.name) (names_of-push ds d)

  count-unknown :
      (n : String) (g : Dict (ComponentDefinition W I)) → get n g ≡ none → count n (keys g) ≡ 0
  unfolding get
  count-unknown n [] h = refl
  count-unknown n ((k, d) ∷ g) h = ground (arith, count-unknown n g)

  -- A registration that is accepted keeps the names of the graph unique, and each definition under
  -- its own name; it adds the definition behind those that there were, which all stay as they are.
  pub register-GraphInv :
      (d : ComponentDefinition W I) (graph : Dict (ComponentDefinition W I))
      {more : Dict (ComponentDefinition W I)}
      → register d graph ≡ ok more
      → GraphInv graph
      → GraphInv more × (values more ≡ values graph ++ d ∷ [])
  unfolding register has
  register-GraphInv d graph {more} h v = elim (Option-cases (get d.name graph)) [
    | inr (old, e) ↦ cc (rw (e, has) at h)
    | inl e ↦
        let same : put d.name d graph ≡ more = ground (arith, e, h) in
        subst (λ m. GraphInv m × (values m ≡ values graph ++ d ∷ [])) same
          ((
            record {
              named =
                  ap names_of (Dict.values-put_new d.name d graph e)
                  ∙ names_of-push (values graph) d
                  ∙ ap (λ ns. ns ++ d.name ∷ []) v.named
                  ∙ sym (new_keys e);
              unique = λ n. ground (
                arith,
                ap (count n) (new_keys e),
                count-append n (keys graph) (d.name ∷ []),
                v.unique n,
                count-unknown d.name graph e,
              );
            },
            Dict.values-put_new d.name d graph e,
          ))
  ]
    where
      new_keys : get d.name graph ≡ none → keys (put d.name d graph) ≡ keys graph ++ d.name ∷ []
      new_keys e = ground (arith, e, Dict.keys-put d.name d graph)
