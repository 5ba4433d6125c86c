-- ===== src/Scheduling/DependencyGraph/Cycles.antt =====
-- The search of the dependency graph finds a cycle, or an order in which every schedule stands behind
-- what it depends on; the fuel always lasts.
use imip.Base.{
  ℕ, zero, suc, ◌+◌, ◌≤◌, ◌<◌, ◌≡◌, refl, ◌⊎◌, inl, inr, true, false, String, List, [], ◌∷◌, ◌++◌,
  some, length, includes, All, count, count-append, count-includes, length-append,
  length-le_of_counts, Bool-cases, Option-cases, ===-refl, ok, err, arith,
}
use imip.Base.Dict.{get, put, delete, keys}
use imip.Scheduling.Types.{circular_dependency}
use imip.Scheduling.DependencyGraph.{
  Dependencies, Search, visited, cycle, exhausted, dependencies_of, Visit, visit_each, proceed,
  leave, visit, search, find_cycle, register,
}

-- The last first: what a node depends on stands behind it.
abbrev pub IsOrdered : Dependencies → List String → Type 0
IsOrdered graph [] = Unit
IsOrdered graph (node ∷ seen) =
    All (λ d. includes seen d ≡ true) (dependencies_of node graph) × IsOrdered graph seen

-- Every node depends on the next.
abbrev pub IsWalk : Dependencies → List String → Type 0
IsWalk graph [] = Unit
IsWalk graph (a ∷ []) = Unit
IsWalk graph (a ∷ b ∷ nodes) =
    (includes (dependencies_of a graph) b ≡ true) × IsWalk graph (b ∷ nodes)

-- A walk whose last node stands in it before.
pub record IsClosed (graph : Dependencies) (nodes : List String) : Type 0 where
  pub path : List String
  pub last : String
  pub ends : nodes ≡ path ++ last ∷ []
  pub again : includes path last ≡ true
  pub walk : IsWalk graph nodes

abbrev Within : List String → List String → Type 0
Within seen more = (n : String) → includes seen n ≡ true → includes more n ≡ true

-- What a search may end with that is to reach `P`.
abbrev Fine : Dependencies → List String → (List String → Type 0) → Search → Type 0
Fine graph seen P (visited more) = IsOrdered graph more × Within seen more × P more
Fine graph seen P (cycle nodes) = IsClosed graph nodes
Fine graph seen P exhausted = ⊥

All-includes :
    {P : String → Type 0} (xs : List String)
    → ((d : String) → includes xs d ≡ true → P d)
    → All P xs
All-includes [] h = tt
All-includes (x ∷ xs) h =
    (h x (ground (arith, ===-refl x)), All-includes xs (λ d e. h d (ground (arith, e))))

All-Within :
    (xs seen more : List String)
    → Within seen more
    → All (λ d. includes seen d ≡ true) xs
    → All (λ d. includes more d ≡ true) xs
All-Within [] seen more w h = tt
All-Within (x ∷ xs) seen more w h = (w x h.0, All-Within xs seen more w h.1)

count-get :
    (k : String) (graph : Dependencies) (v : List String)
    → get k graph ≡ some v
    → 0 < count k (keys graph)
unfolding get
count-get k [] v e = cc
count-get k ((j, w) ∷ graph) v e = ground (arith, count-get k graph v)

count-key :
    (graph : Dependencies) (node d : String)
    → includes (dependencies_of node graph) d ≡ true
    → 0 < count node (keys graph)
unfolding dependencies_of
count-key graph node d h = elim (Option-cases (get node graph)) [
  | inl e ↦ absurd (ground (arith, h, e))
  | inr (v, e) ↦ count-get node graph v e
]

IsWalk-append :
    (graph : Dependencies) (path : List String) (a b : String)
    → IsWalk graph (path ++ a ∷ [])
    → includes (dependencies_of a graph) b ≡ true
    → IsWalk graph ((path ++ a ∷ []) ++ b ∷ [])
IsWalk-append graph [] a b w e = (e, tt)
IsWalk-append graph (p ∷ []) a b w e = (w.0, (e, tt))
IsWalk-append graph (p ∷ q ∷ path) a b w e = (w.0, IsWalk-append graph (q ∷ path) a b w.1 e)

module _ (graph : Dependencies) where
  abbrev Good : (String → List String → Search) → String → Type 0
  Good go d =
      (seen : List String)
      → IsOrdered graph seen
      → Fine graph seen (λ more. includes more d ≡ true) (go d seen)

  visit_each-Fine :
      (go : Visit) (nodes seen : List String)
      → All (Good go) nodes
      → IsOrdered graph seen
      → Fine graph seen (λ more. All (λ d. includes more d ≡ true) nodes) (visit_each go nodes seen)
  unfolding visit_each
  visit_each-Fine go [] seen good ordered = (ordered, (λ n h. h), tt)
  visit_each-Fine go (node ∷ nodes) seen good ordered =
      split (go node seen) (good.0 seen ordered) (λ more o. visit_each-Fine go nodes more good.1 o)
    where
      later :
          (more : List String) (r : Search)
          → Fine graph more (λ most. All (λ d. includes most d ≡ true) nodes) r
          → Within seen more
          → includes more node ≡ true
          → Fine graph seen (λ most. All (λ d. includes most d ≡ true) (node ∷ nodes)) r
      later more (visited most) (o, w', a) w i = (o, (λ n h. w' n (w n h)), (w' node i, a))
      later more (cycle c) h w i = h
      later more exhausted h w i = elim h [ ]

      split :
          (r : Search)
          → Fine graph seen (λ more. includes more node ≡ true) r
          → ((more : List String)
              → IsOrdered graph more
              → Fine graph more
                  (λ most. All (λ d. includes most d ≡ true) nodes)
                  (visit_each go nodes more))
          → Fine graph seen
              (λ more. All (λ d. includes more d ≡ true) (node ∷ nodes))
              (proceed (visit_each go nodes) r)
      split (visited more) (o, w, i) rest = later more (visit_each go nodes more) (rest more o) w i
      split (cycle c) h rest = h
      split exhausted h rest = elim h [ ]

  abbrev Unfinished : ℕ → List String → Type 0
  Unfinished fuel path =
      (length path + fuel ≡ suc (length (keys graph)))
      × ((n : String) → count n path ≤ count n (keys graph))

  -- From a path of nodes that depend each on the next, a visit ends well: the fuel lasts, since the
  -- path is no longer than there are nodes that depend on others.
  visit-Fine :
      (fuel : ℕ) (path : List String) (node : String)
      → Unfinished fuel path
      → IsWalk graph (path ++ node ∷ [])
      → Good (visit graph fuel path) node
  unfolding visit
  visit-Fine zero path node u w seen ordered =
      absurd (omega (arith, u.0, length-le_of_counts path (keys graph) u.1))
  visit-Fine (suc fuel) path node u w seen ordered = elim (Bool-cases (includes seen node)) [
    | inl e ↦ rw e (ordered, (λ n h. h), e)
    | inr e ↦ elim (Bool-cases (includes path node)) [
      | inl c ↦ rw (e, c) (record { path = path; last = node; ends = refl; again = c; walk = w })
      | inr c ↦
          rw (e, c)
            (left _ (
              visit_each-Fine (visit graph fuel (path ++ node ∷ [])) (dependencies_of node graph)
                seen
                (All-includes _ (λ d i.
                  visit-Fine fuel (path ++ node ∷ []) d (deeper d i c)
                    (IsWalk-append graph path node d w i)))
                ordered))
    ]
  ]
    where
      deeper :
          (d : String)
          → includes (dependencies_of node graph) d ≡ true
          → includes path node ≡ false
          → Unfinished fuel (path ++ node ∷ [])
      deeper d i c = (
        omega (arith, u.0, length-append path (node ∷ [])),
        λ n. ground (
          arith,
          u.1 n,
          count-append n path (node ∷ []),
          count-key graph node d i,
          count-includes path node,
          c,
        ),
      )

      left :
          (r : Search)
          → Fine graph seen
              (λ more. All (λ d. includes more d ≡ true) (dependencies_of node graph))
              r
          → Fine graph seen (λ more. includes more node ≡ true) (leave node r)
      left (visited more) (o, w', a) =
          ((a, o), (λ n h. ground (arith, w' n h)), ground (arith, ===-refl node))
      left (cycle c) h = h
      left exhausted h = elim h [ ]

  search-Fine :
      Fine graph [] (λ more. All (λ d. includes more d ≡ true) (keys graph)) (search graph)
  unfolding search
  search-Fine =
      visit_each-Fine (visit graph (suc (length (keys graph))) []) (keys graph) []
        (All-includes _
          (λ d i. visit-Fine (suc (length (keys graph))) [] d (omega arith, (λ n. omega arith)) tt))
        tt

-- A schedule is registered exactly if no cycle is found; then there is an order of all schedules in
-- which each stands behind those it depends on. What is reported else is a closed walk of the graph with
-- the new schedule, each depending on the next, and the schedule is taken out again.
pub register_lem :
    (schedule_id : String) (depends_on : List String) (graph : Dependencies)
    → let more = put schedule_id depends_on graph in
      ((register schedule_id depends_on graph ≡ (more, ok tt))
        × (seen : List String) × IsOrdered more seen
        × All (λ d. includes seen d ≡ true) (keys more))
      ⊎ ((nodes : List String) × (register schedule_id depends_on graph
            ≡ (delete schedule_id more, err (circular_dependency nodes)))
          × IsClosed more nodes)
unfolding register find_cycle
register_lem schedule_id depends_on graph = split (search more) refl (search-Fine more)
  where
    more : Dependencies
    more = put schedule_id depends_on graph

    Claim : Type 0
    Claim =
        ((register schedule_id depends_on graph ≡ (more, ok tt))
          × (seen : List String) × IsOrdered more seen
          × All (λ d. includes seen d ≡ true) (keys more))
        ⊎ ((nodes : List String) × (register schedule_id depends_on graph
              ≡ (delete schedule_id more, err (circular_dependency nodes)))
            × IsClosed more nodes)

    split :
        (r : Search)
        → search more ≡ r
        → Fine more [] (λ seen. All (λ d. includes seen d ≡ true) (keys more)) r
        → Claim
    split (visited seen) e (o, w, a) = inl (rw e refl, seen, o, a)
    split (cycle nodes) e h = inr (nodes, rw e refl, h)
    split exhausted e h = elim h [ ]
