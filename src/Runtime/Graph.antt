-- ===== src/Runtime/Graph.antt =====
-- core/runtime_bootstrap/src/dependencyGraph.ts: Kahn's algorithm. Its loop has fuel, one round
-- more than there are components, of which each round takes one out. A map of lists or of numbers
-- is read with `[]` or 0 for a missing key; the code reads only keys that are there.
pub mod Degrees
pub mod Loop
pub mod Order
use imip.Base.{
  ℕ, zero, suc, ◌+◌, ◌-◌, Bool, true, false, not, ◌&&◌, String, List, [], ◌∷◌, ◌++◌, map, reverse,
  Option, none, some, filter, includes, length, ◌==◌, if◌then◌else◌, Result, ok, err, throw_if,
  ◌>>=◌, ◌>>◌, ltb,
}
use imip.Base.Dict
use imip.Base.Dict.{Dict, get, has, put, keys, values}
use imip.Runtime.Types.{
  ComponentDefinition, RuntimeError, duplicate_component, missing_dependency, circular_dependency,
}

unfoldable pub degree : String → Dict ℕ → ℕ
degree name degrees = elim (get name degrees) [ none ↦ 0 | some n ↦ n ]

unfoldable pub list_of : String → Dict (List String) → List String
list_of name dependents = elim (get name dependents) [ none ↦ [] | some names ↦ names ]

-- `inDegree.set(name, 0)` for every name.
unfoldable pub zero_degrees : List String → Dict ℕ → Dict ℕ
zero_degrees [] degrees = degrees
zero_degrees (name ∷ names) degrees = zero_degrees names (put name 0 degrees)

-- `dependents.set(name, [])` for every name.
unfoldable pub no_dependents : List String → Dict (List String) → Dict (List String)
no_dependents [] dependents = dependents
no_dependents (name ∷ names) dependents = no_dependents names (put name [] dependents)

-- `dependents.get(dep)!.push(name)` for every dependency of one component.
unfoldable pub push_dependent : String → List String → Dict (List String) → Dict (List String)
push_dependent name [] dependents = dependents
push_dependent name (dep ∷ deps) dependents =
    push_dependent name deps (put dep (list_of dep dependents ++ name ∷ []) dependents)

-- The loop over the dependents of a component that was taken out.
unfoldable pub relax : List String → List String → Dict ℕ → List String × Dict ℕ
relax [] ready degrees = (ready, degrees)
relax (dependent ∷ rest) ready degrees =
    let remaining = degree dependent degrees - 1 in
    relax rest (if remaining == 0 then ready ++ dependent ∷ [] else ready)
      (put dependent remaining degrees)

-- The `while` loop.
unfoldable pub take_ready :
    ℕ → Dict (List String) → List String → List String → Dict ℕ → Option (List String)
take_ready zero dependents ready order degrees = none
take_ready (suc fuel) dependents [] order degrees = some order
take_ready (suc fuel) dependents (name ∷ ready) order degrees =
    let relaxed = relax (list_of name dependents) ready degrees in
    take_ready fuel dependents relaxed.0 (order ++ name ∷ []) relaxed.1

abbrev pub order_of : Option (List String) → List String
order_of none = []
order_of (some order) = order

module _ {W I : Type 0} where
  unfoldable pub register :
      ComponentDefinition W I
      → Dict (ComponentDefinition W I)
      → Result RuntimeError (Dict (ComponentDefinition W I))
  register d graph = do
    throw_if (has d.name graph) (duplicate_component d.name)
    ok (put d.name d graph)

  abbrev pub missing_of : ComponentDefinition W I → Dict (ComponentDefinition W I) → List String
  missing_of d graph = filter (λ dep. not (has dep graph)) d.dependencies

  unfoldable pub check_each :
      List (ComponentDefinition W I)
      → Dict (ComponentDefinition W I)
      → Result RuntimeError (Unit {0})
  check_each [] graph = ok tt
  check_each (d ∷ ds) graph =
      throw_if (ltb 0 (length (missing_of d graph)))
        (missing_dependency d.name (missing_of d graph))
      >> check_each ds graph

  unfoldable pub assert_dependencies_satisfied :
      Dict (ComponentDefinition W I) → Result RuntimeError (Unit {0})
  unfolding check_each
  assert_dependencies_satisfied graph = check_each (values graph) graph

  unfoldable pub count_degrees : List (ComponentDefinition W I) → Dict ℕ → Dict ℕ
  count_degrees [] degrees = degrees
  count_degrees (d ∷ ds) degrees = count_degrees ds (put d.name (length d.dependencies) degrees)

  unfoldable pub link : List (ComponentDefinition W I) → Dict (List String) → Dict (List String)
  link [] dependents = dependents
  link (d ∷ ds) dependents = link ds (push_dependent d.name d.dependencies dependents)

  unfoldable pub kahn : Dict (ComponentDefinition W I) → Option (List String)
  kahn graph =
      let names = keys graph in
      let degrees = count_degrees (values graph) (zero_degrees names []) in
      let dependents = link (values graph) (no_dependents names []) in
      take_ready (suc (length names)) dependents (filter (λ n. degree n degrees == 0) names) []
        degrees

  unfoldable pub startup_order : Dict (ComponentDefinition W I) → Result RuntimeError (List String)
  startup_order graph = do
    assert_dependencies_satisfied graph
    let order = order_of (kahn graph)
    throw_if (not (length order == length (keys graph)))
        (circular_dependency (filter (λ n. not (includes order n)) (keys graph)))
    ok order

  unfoldable pub shutdown_order : Dict (ComponentDefinition W I) → Result RuntimeError (List String)
  shutdown_order graph = do order ← startup_order graph; ok (reverse order)
