-- ===== src/Runtime/Board.antt =====
-- core/runtime_bootstrap/src/governanceBoard.ts. The reasons of `whyUnavailable` are values in place
-- of texts.
pub mod Eligible
use imip.Base.{
  ℕ, ◌+◌, Bool, true, false, not, ◌&&◌, String, List, [], ◌∷◌, ◌++◌, map, Option, none, some,
  filter, if◌then◌else◌, length, ltb,
}
use imip.Base.Dict
use imip.Base.Dict.{Dict, get, put, values}
use imip.Runtime.Types.{
  GovernanceRecord, ReadinessCheckResult, HealthCheckResult, HealthStatus, LifecycleState,
  CertificationStatus, Message,
}

abbrev pub fresh_record : String → GovernanceRecord
fresh_record name = record {
  name = name;
  lifecycle_state = LifecycleState.unregistered;
  readiness_status = record { ready = false; reasons = "not yet initialized" ∷ [] };
  health_status = record { status = HealthStatus.unknown; reasons = "not yet checked" ∷ [] };
  dependency_status = record { satisfied = true; missing = [] };
  certification_status = CertificationStatus.pending;
  last_successful_initialization = none;
  last_failure = none;
  restart_count = 0;
  operational_eligible = false;
}

abbrev pub Board : Type 0
Board = Dict GovernanceRecord

abbrev pub known_or_fresh : String → Option GovernanceRecord → GovernanceRecord
known_or_fresh name none = fresh_record name
known_or_fresh name (some r) = r

-- What `ensure` hands back, and the board after it.
unfoldable pub record_of : String → Board → GovernanceRecord
record_of name board = known_or_fresh name (get name board)

-- A write to the record that `ensure` hands back.
unfoldable pub update : String → (GovernanceRecord → GovernanceRecord) → Board → Board
update name f board = put name (f (record_of name board)) board

abbrev pub ensure : String → Board → Board
ensure name = update name (λ r. r)

abbrev pub mark_created : String → Board → Board
mark_created name = update name (λ r. record r { lifecycle_state = LifecycleState.created })

abbrev pub mark_initializing : String → Board → Board
mark_initializing name =
    update name (λ r. record r { lifecycle_state = LifecycleState.initializing })

abbrev pub mark_initialized : String → ℕ → Board → Board
mark_initialized name timestamp = update name (λ r. record r {
  lifecycle_state = LifecycleState.initialized;
  last_successful_initialization = some timestamp;
})

abbrev pub mark_failed : String → Message → ℕ → Board → Board
mark_failed name message timestamp = update name (λ r. record r {
  lifecycle_state = LifecycleState.failed;
  last_failure = some (record { timestamp = timestamp; message = message });
  operational_eligible = false;
})

abbrev pub mark_shutdown : String → Board → Board
mark_shutdown name = update name (λ r. record r { lifecycle_state = LifecycleState.shutdown })

abbrev pub record_restart : String → Board → Board
record_restart name = update name (λ r. record r { restart_count = r.restart_count + 1 })

abbrev pub update_readiness : String → ReadinessCheckResult → Board → Board
update_readiness name readiness = update name (λ r. record r { readiness_status = readiness })

abbrev pub update_health : String → HealthCheckResult → Board → Board
update_health name health = update name (λ r. record r { health_status = health })

abbrev pub update_dependency_status : String → Bool → List String → Board → Board
update_dependency_status name satisfied missing =
    update name
      (λ r. record r { dependency_status = record { satisfied = satisfied; missing = missing } })

abbrev pub is_certified : CertificationStatus → Bool
is_certified CertificationStatus.certified = true
is_certified _ = false

abbrev pub faulted_status : HealthStatus → Bool
faulted_status HealthStatus.faulted = true
faulted_status _ = false

abbrev degraded_status : HealthStatus → Bool
degraded_status HealthStatus.degraded = true
degraded_status _ = false

abbrev shut_down : LifecycleState → Bool
shut_down LifecycleState.shutdown = true
shut_down _ = false

abbrev pub certify_record : CertificationStatus → GovernanceRecord → GovernanceRecord
certify_record status r = record r {
  certification_status = status;
  operational_eligible =
      is_certified status
      && (r.readiness_status.ready && not (faulted_status r.health_status.status));
}

abbrev pub update_certification : String → CertificationStatus → Board → Board
update_certification name status = update name (certify_record status)

pub data Reason : Type 0 where
  not_registered : String → Reason
  missing_dependencies : List String → Reason
  check : String → Reason
  last_failure_was : Message → Reason
  certification_is : CertificationStatus → Reason
  not_yet_eligible : Reason

abbrev failure_reason : GovernanceRecord → List Reason
failure_reason r = elim r.last_failure [ none ↦ [] | some f ↦ last_failure_was f.message ∷ [] ]

abbrev pub reasons_of : GovernanceRecord → List Reason
reasons_of r =
    (if r.dependency_status.satisfied
      then []
      else missing_dependencies r.dependency_status.missing ∷ [])
    ++ (if r.readiness_status.ready then [] else map check r.readiness_status.reasons)
    ++ (if faulted_status r.health_status.status then map check r.health_status.reasons else [])
    ++ failure_reason r
    ++ (if is_certified r.certification_status
        then []
        else certification_is r.certification_status ∷ [])

abbrev pub or_default : List Reason → List Reason
or_default [] = not_yet_eligible ∷ []
or_default (r ∷ rs) = r ∷ rs

unfoldable pub why_unavailable : String → Board → List Reason
why_unavailable name board = elim (get name board) [
  | none ↦ not_registered name ∷ []
  | some r ↦ if r.operational_eligible then [] else or_default (reasons_of r)
]

unfoldable pub blocking_components : Board → List String
blocking_components board =
    map (λ r. r.name)
      (filter (λ r. not r.operational_eligible && not (shut_down r.lifecycle_state))
        (Dict.values board))

unfoldable pub degraded_components : Board → List String
degraded_components board =
    map (λ r. r.name)
      (filter (λ r. degraded_status r.health_status.status && r.operational_eligible)
        (Dict.values board))
