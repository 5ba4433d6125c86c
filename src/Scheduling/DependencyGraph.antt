-- ===== src/Scheduling/DependencyGraph.antt =====
-- core/scheduling_authority/src/dependencyGraph.ts. The sets `visiting` and the path of the source hold
-- the same nodes, so the path serves as both.
pub mod Cycles
use imip.Base.{
  ℕ, zero, suc, String, List, [], ◌∷◌, ◌++◌, Option, none, some, length, includes, Result, ok, err,
  if◌then◌else◌,
}
use imip.Base.Dict.{Dict, get, put, delete, keys}
use imip.Scheduling.Types.{SchedulingError, circular_dependency}

abbrev pub Dependencies : Type 0
Dependencies = Dict (List String)

-- A search ends with the nodes that have been visited, the last first, or with a cycle. `exhausted` is
-- the end of the fuel.
pub data Search : Type 0 where
  visited : List String → Search
  cycle : List String → Search
  exhausted : Search

abbrev or_empty : Option (List String) → List String
or_empty none = []
or_empty (some names) = names

unfoldable pub dependencies_of : String → Dependencies → List String
dependencies_of schedule_id graph = or_empty (get schedule_id graph)

abbrev pub Visit : Type 0
Visit = String → List String → Search

abbrev pub proceed : (List String → Search) → Search → Search
proceed rest (visited seen) = rest seen
proceed rest (cycle nodes) = cycle nodes
proceed rest exhausted = exhausted

-- `for (const node of nodes) { visit(node, path); if (cycle) break; }`
unfoldable pub visit_each : Visit → List String → List String → Search
visit_each visit [] seen = visited seen
visit_each visit (node ∷ nodes) seen = proceed (visit_each visit nodes) (visit node seen)

abbrev pub leave : String → Search → Search
leave node (visited seen) = visited (node ∷ seen)
leave node (cycle nodes) = cycle nodes
leave node exhausted = exhausted

unfoldable pub visit : Dependencies → ℕ → List String → Visit
unfolding visit_each dependencies_of
visit graph zero path node seen = exhausted
visit graph (suc fuel) path node seen =
    let down =
      leave node
        (visit_each (visit graph fuel (path ++ node ∷ [])) (dependencies_of node graph) seen) in
    if includes seen node
    then visited seen
    else if includes path node
    then cycle (path ++ node ∷ [])
    else down

abbrev found : Search → Option (List String)
found (visited seen) = none
found (cycle nodes) = some nodes
found exhausted = none

-- No path is longer than there are schedules with dependencies.
unfoldable pub search : Dependencies → Search
unfolding visit_each visit
search graph = visit_each (visit graph (suc (length (keys graph))) []) (keys graph) []

unfoldable pub find_cycle : Dependencies → Option (List String)
unfolding search
find_cycle graph = found (search graph)

-- What the graph is after `register`, and the error it throws.
abbrev checked :
    Option (List String) → String → Dependencies → Dependencies × Result SchedulingError (Unit {0})
checked none schedule_id graph = (graph, ok tt)
checked (some nodes) schedule_id graph = (delete schedule_id graph, err (circular_dependency nodes))

unfoldable pub register :
    String → List String → Dependencies → Dependencies × Result SchedulingError (Unit {0})
unfolding find_cycle
register schedule_id depends_on graph =
    let more = put schedule_id depends_on graph in checked (find_cycle more) schedule_id more
