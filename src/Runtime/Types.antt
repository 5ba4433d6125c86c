-- ===== src/Runtime/Types.antt =====
-- core/runtime_bootstrap/src/types.ts and errors.ts. An instance of a component has the type `I`, and
-- what the components' own functions read and change is a world of the type `W`. A function of a
-- component that throws gives the message.
use imip.Base.{ℕ, Bool, String, Option, List, Result}
use imip.Base.Dict.{Dict}

pub data RuntimeState : Type 0 where
  stopped booting initializing validating ready operational paused : RuntimeState
  maintenance restarting shutting_down recovering faulted : RuntimeState

pub record ReadinessCheckResult : Type 0 where
  pub ready : Bool
  pub reasons : List String

pub data HealthStatus : Type 0 where
  healthy degraded faulted unknown : HealthStatus

pub record HealthCheckResult : Type 0 where
  pub status : HealthStatus
  pub reasons : List String

pub record ComponentDefinition (W I : Type 0) : Type 0 where
  pub name : String
  pub dependencies : List String
  pub create : Dict (Option I) → W → W × Result String I
  pub initialize : I → Dict (Option I) → W → W × Option String
  pub check_readiness : I → W → ReadinessCheckResult
  pub check_health : I → W → HealthCheckResult
  pub shutdown : I → W → W × Option String

pub data LifecycleState : Type 0 where
  unregistered created initializing initialized failed shutdown : LifecycleState

pub data CertificationStatus : Type 0 where
  pending certified blocked : CertificationStatus

pub record DependencyStatus : Type 0 where
  pub satisfied : Bool
  pub missing : List String

-- The message of a failure: what a component threw, the dependencies that blocked it, or the reasons
-- of a readiness check.
pub data Message : Type 0 where
  thrown : String → Message
  blocked_by unready : List String → Message

pub record Failure : Type 0 where
  pub timestamp : ℕ
  pub message : Message

pub record GovernanceRecord : Type 0 where
  pub name : String
  pub lifecycle_state : LifecycleState
  pub readiness_status : ReadinessCheckResult
  pub health_status : HealthCheckResult
  pub dependency_status : DependencyStatus
  pub certification_status : CertificationStatus
  pub last_successful_initialization : Option ℕ
  pub last_failure : Option Failure
  pub restart_count : ℕ
  pub operational_eligible : Bool

pub record ComponentResult : Type 0 where
  pub name : String
  pub ready : Bool
  pub health : HealthStatus
  pub blocking : Bool

-- A reason of a certificate: which component, and what its check gave as reasons.
pub data CertificationReason : Type 0 where
  not_ready : String → List String → CertificationReason
  is_faulted : String → List String → CertificationReason

pub record CertificationResult : Type 0 where
  pub certified : Bool
  pub checked_at : ℕ
  pub component_results : List ComponentResult
  pub reasons : List CertificationReason

-- `allow_partial_startup` is the option of `boot`, and is off where the source leaves it out.
pub record BootOptions : Type 0 where
  pub allow_partial_startup : Bool

pub record ComponentFailure : Type 0 where
  pub component : String
  pub message : Message

pub data RuntimeEventName : Type 0 where
  bootstrap_started bootstrap_completed initialization_started : RuntimeEventName
  initialization_completed readiness_verified runtime_certified : RuntimeEventName
  runtime_operational runtime_paused runtime_resumed shutdown_requested : RuntimeEventName
  shutdown_completed restart_requested runtime_recovered runtime_faulted : RuntimeEventName

pub data RuntimeError : Type 0 where
  duplicate_component : String → RuntimeError
  missing_dependency : String → List String → RuntimeError
  circular_dependency : List String → RuntimeError
  bootstrap_failed : List ComponentFailure → RuntimeError
  certification_failed : List CertificationReason → RuntimeError
  illegal_transition : RuntimeState → RuntimeState → RuntimeError
  component_not_found : String → RuntimeError

-- What an operation throws: an error of the runtime, or what a component's function threw.
pub data Thrown : Type 0 where
  by_runtime : RuntimeError → Thrown
  by_component : String → Thrown

pub data OperationCertification : Type 0 where
  was_certified was_blocked not_applicable : OperationCertification

pub record RuntimeOperationRecord : Type 0 where
  pub operation : String
  pub timestamp : ℕ
  pub dependencies_validated : List String
  pub components_initialized : List String
  pub components_skipped : List String
  pub failures : List ComponentFailure
  pub certification_status : OperationCertification
  pub final_state : RuntimeState
