-- ===== src/Runtime/Examples.antt =====
-- Runs of the runtime: an event bus, and a registry that needs it.
use imip.Base.{
  Bool-cases, inl, inr, ===_iff, ℕ, suc, ◌+◌, ◌≤◌, ◌<◌, ◌≡◌, refl, sym, ◌↔◌, true, false, String,
  List, [], ◌∷◌, map, none, some, ok, err, arith, All, count, str_discrete, ◌===◌, if◌then◌else◌,
}
use imip.Base.Dict.{put, Dict, get, has, keys, values}
use imip.Runtime.Types.{
  ComponentDefinition, RuntimeState, HealthStatus, GovernanceRecord, BootOptions,
  missing_dependency, stopped, initializing, by_runtime,
}
use imip.Runtime.Lifecycle.{assert_runtime_transition, may_move}
use imip.Runtime.Graph.{
  assert_dependencies_satisfied, check_each, kahn, count_degrees, zero_degrees, degree, link,
  no_dependents, push_dependent, list_of, take_ready, relax, register, startup_order,
}
use imip.Runtime.Graph.Loop.{IsStartable}
use imip.Runtime.Graph.Order.{
  GraphInv, AllKnown, IsAcyclic, startup_order-IsStartable, startup_order_total, register-GraphInv,
}
use imip.Runtime.Board.{update, Board, record_of, why_unavailable, fresh_record}
use imip.Runtime.Board.Eligible.{why_unavailable_iff}
use imip.Runtime.Certification.{certify_all, certify_one, blocks, certify_runtime}
use imip.Runtime.Certification.Certified.{Agrees, result_for, certify_runtime_lem}
use imip.Runtime.Startup.{
  dep_map, start_one, start_known, after_create, after_initialize, verify_all, verify_one, begin,
  start_all,
}
use imip.Runtime.Startup.Order.{IsInOrder, failed_names, start_all-IsInOrder}
use imip.Runtime.Orchestrator.{
  register_component, continue, transition, assert_transition, lift, publish_runtime_event,
  record_operation, empty_orchestrator, Orchestrator, new_orchestrator,
}
use imip.Runtime.Orchestrator.Ends.{Ends}
use imip.Runtime.Booting.{
  run_boot_sequence, find_order, start_components, verify_boot, verify_components, certify_boot,
  eligible_names, certify, go_operational, record_done, boot,
}
use imip.Runtime.Requests.{perform, pause, Request, perform_all, registering, booting_with, pausing}
use imip.Runtime.Requests.Licensing.{is_live, IsGranted}
use imip.Runtime.Requests.Licence.{live-certified}
use imip.Runtime.Requests.Outcomes.{IsUp, IsDown, boot-Ends}
use imip.Runtime.Requests.Stuck.{boot-stuck}

-- The world counts the calls.
abbrev component : String → List String → ComponentDefinition ℕ String
component name dependencies = record {
  name = name;
  dependencies = dependencies;
  create = λ deps w. (suc w, ok name);
  initialize = λ i deps w. (suc w, none);
  check_readiness = λ i w. record { ready = true; reasons = [] };
  check_health = λ i w. record { status = HealthStatus.healthy; reasons = [] };
  shutdown = λ i w. (suc w, none);
}

abbrev now : ℕ → ℕ
now w = w

abbrev event_bus : ComponentDefinition ℕ String
event_bus = component "bus" []

abbrev registry : ComponentDefinition ℕ String
registry = component "registry" ("bus" ∷ [])

abbrev graph : Dict (ComponentDefinition ℕ String)
graph = ("registry", registry) ∷ ("bus", event_bus) ∷ []

graph_unique : (n : String) → count n ("registry" ∷ "bus" ∷ []) ≤ 1
unfolding str_discrete
graph_unique n = elim (Bool-cases ("registry" === n)) [
  | inl e ↦ rw (sym ((===_iff "registry" n).0 e)) (omega arith)
  | inr e ↦ rw e (one n)
]
  where
    one : (n : String) → count n ("bus" ∷ []) ≤ 1
    one n = ground arith

graph-GraphInv : GraphInv graph
graph-GraphInv = record { named = refl; unique = graph_unique }

graph-order : startup_order graph ≡ ok ("bus" ∷ "registry" ∷ [])
unfolding startup_order assert_dependencies_satisfied check_each has get str_discrete kahn
    count_degrees zero_degrees put degree link no_dependents push_dependent list_of take_ready relax
graph-order = refl

startup_order-IsStartable_example :
    ((n : String) → count n ("bus" ∷ "registry" ∷ []) ≡ count n (keys graph))
    × IsStartable (values graph) [] ("bus" ∷ "registry" ∷ [])
startup_order-IsStartable_example =
    startup_order-IsStartable graph graph-GraphInv ("bus" ∷ "registry" ∷ []) graph-order

abbrev rank : String → ℕ
rank name = if name === "bus" then 0 else 1

graph-AllKnown : AllKnown graph graph-GraphInv
unfolding has get str_discrete
graph-AllKnown = ((refl, tt), (tt, tt))

graph-IsAcyclic : IsAcyclic graph graph-GraphInv rank
unfolding str_discrete
graph-IsAcyclic n h = elim (Bool-cases ("registry" === n)) [
  | inl e ↦ rw (sym ((===_iff "registry" n).0 e)) (omega arith, tt)
  | inr e ↦ rw e (rest n)
]
  where
    rest : (n : String) → All (λ d. rank d < rank n) (if "bus" === n then [] else [])
    rest n = elim (Bool-cases ("bus" === n)) [ inl e ↦ rw e tt | inr e ↦ rw e tt ]

startup_order_total_example : (order : List String) × (startup_order graph ≡ ok order)
startup_order_total_example =
    startup_order_total graph graph-GraphInv graph-AllKnown rank graph-IsAcyclic

half-GraphInv : GraphInv (("registry", registry) ∷ [])
half-GraphInv = record { named = refl; unique = λ n. ground arith }

half-registered : register event_bus (("registry", registry) ∷ []) ≡ ok graph
unfolding register has get put str_discrete
half-registered = refl

register-GraphInv_example : GraphInv graph × (values graph ≡ registry ∷ event_bus ∷ [])
register-GraphInv_example =
    register-GraphInv event_bus (("registry", registry) ∷ []) half-registered half-GraphInv

abbrev board : Board
board = ("bus", fresh_record "bus") ∷ []

why_unavailable_iff_example :
    (why_unavailable "bus" board ≡ []
      → (r : GovernanceRecord) × (get "bus" board ≡ some r) × (r.operational_eligible ≡ true))
    × ((r : GovernanceRecord)
        → get "bus" board ≡ some r
        → r.operational_eligible ≡ true
        → why_unavailable "bus" board ≡ [])
why_unavailable_iff_example = why_unavailable_iff "bus" board

certify_runtime_lem_example :
    ((certify_runtime ("bus" ∷ []) 4 board).1.component_results
      ≡ map (result_for board) ("bus" ∷ []))
    × (((certify_runtime ("bus" ∷ []) 4 board).1.certified ≡ true)
        ↔ All (λ n. blocks (record_of n board) ≡ false) ("bus" ∷ []))
    × Agrees (certify_runtime ("bus" ∷ []) 4 board).0 board
certify_runtime_lem_example = certify_runtime_lem ("bus" ∷ []) 4 board

graph-known : All (λ n. has n graph ≡ true) ("bus" ∷ "registry" ∷ [])
unfolding has get str_discrete
graph-known = (refl, (refl, tt))

start_all-IsInOrder_example :
    let s = start_all now graph ("bus" ∷ "registry" ∷ []) (begin board [] 0) in
    IsInOrder graph [] s.initialized
    × ((n : String)
        → count n s.initialized + count n (failed_names s.failures)
          ≡ count n ("bus" ∷ "registry" ∷ []))
start_all-IsInOrder_example =
    start_all-IsInOrder now graph ("bus" ∷ "registry" ∷ []) board [] 0 graph-known

abbrev strictly : BootOptions
strictly = record { allow_partial_startup = false }

abbrev stopped_with : Dict (ComponentDefinition ℕ String) → Orchestrator ℕ String
stopped_with g = record {
  graph = g;
  board = board;
  instances = [];
  operation_history = [];
  state = stopped;
  last_certification = none;
  recovery_count = 0;
  booted_at = none;
  events = [];
  world = 0;
}

may_boot : may_move stopped RuntimeState.booting ≡ true
unfolding may_move
may_boot = refl

boot-Ends_example :
    Ends (IsUp now graph) (IsDown now graph) (boot now strictly (stopped_with graph))
boot-Ends_example = boot-Ends now strictly (stopped_with graph) may_boot

half-fails :
    startup_order (("registry", registry) ∷ []) ≡ err (missing_dependency "registry" ("bus" ∷ []))
unfolding startup_order assert_dependencies_satisfied check_each has get str_discrete
half-fails = refl

boot-stuck_example :
    let o = stopped_with (("registry", registry) ∷ []) in
    ((boot now strictly o).1 ≡ err (by_runtime (missing_dependency "registry" ("bus" ∷ []))))
    × ((rs : List (Request ℕ String))
        → (perform_all now rs (boot now strictly o).0).state ≡ initializing)
boot-stuck_example =
    boot-stuck now strictly (stopped_with (("registry", registry) ∷ []))
      (missing_dependency "registry" ("bus" ∷ [])) may_boot half-fails

abbrev session : List (Request ℕ String)
session = registering registry ∷ booting_with strictly ∷ pausing ∷ []

session-live : is_live (perform_all now session (new_orchestrator event_bus 0)).state ≡ true
unfolding perform_all perform register_component register boot run_boot_sequence pause continue
    transition assert_transition lift assert_runtime_transition may_move publish_runtime_event
    find_order startup_order assert_dependencies_satisfied check_each kahn count_degrees
    zero_degrees degree link no_dependents push_dependent list_of take_ready relax start_components
    start_all start_one start_known after_create after_initialize verify_boot verify_components
    verify_all verify_one certify_boot eligible_names certify certify_runtime certify_all
    certify_one blocks record_of update go_operational record_done record_operation new_orchestrator
    empty_orchestrator dep_map has get put str_discrete
session-live = refl

live-certified_example :
    IsGranted (perform_all now session (new_orchestrator event_bus 0)).last_certification
live-certified_example = live-certified now event_bus 0 session session-live
