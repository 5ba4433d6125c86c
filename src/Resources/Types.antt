-- ===== src/Resources/Types.antt =====
-- core/resource_authority/src/types.ts and errors.ts. Capacities are whole units, and timestamps
-- milliseconds. An error carries its arguments in place of the text made of them.
use imip.Base.{ℕ, String, Option, List}

pub data ResourceType : Type 0 where
  cpu cpu_core cpu_pool gpu gpu_memory gpu_queue asic asic_hashboard : ResourceType
  memory storage cloud remote_worker cluster_node fleet : ResourceType

pub data ResourceState : Type 0 where
  discovered registered available reserved allocated active released : ResourceState
  unavailable retired : ResourceState

pub data HealthStatus : Type 0 where
  healthy degraded faulted unknown : HealthStatus

pub data AllocationMode : Type 0 where
  exclusive shared partial priority temporary : AllocationMode

pub data ReservationStatus : Type 0 where
  pending active expired released cancelled : ReservationStatus

pub data AllocationState : Type 0 where
  pending active released expired : AllocationState

pub record ResourceProfile : Type 0 where
  pub resource_id : String
  pub resource_type : ResourceType
  pub hardware_id : String
  pub current_owner : Option String
  pub requesting_authority : Option String
  pub state : ResourceState
  pub available_capacity : ℕ
  pub reserved_capacity : ℕ
  pub utilized_capacity : ℕ
  pub maximum_capacity : ℕ
  pub capability_refs : List String
  pub health_status : HealthStatus
  pub power_profile_ref : Option String
  pub thermal_profile_ref : Option String
  pub last_updated : ℕ

pub record Reservation : Type 0 where
  pub id : String
  pub resource_id : String
  pub owner : String
  pub requesting_authority : String
  pub capacity : ℕ
  pub starts_at : ℕ
  pub expires_at : Option ℕ
  pub priority : ℕ
  pub status : ReservationStatus

pub record Allocation : Type 0 where
  pub id : String
  pub resource_id : String
  pub owner : String
  pub requesting_authority : String
  pub mode : AllocationMode
  pub capacity : ℕ
  pub lease_start : ℕ
  pub lease_expiration : Option ℕ
  pub state : AllocationState

pub record AllocationRequest : Type 0 where
  pub resource_id : Option String
  pub resource_type : Option ResourceType
  pub owner : String
  pub requesting_authority : String
  pub mode : AllocationMode
  pub capacity : ℕ
  pub lease_expiration : Option ℕ
  pub capability_refs : List String

pub record ReservationRequest : Type 0 where
  pub resource_id : Option String
  pub resource_type : Option ResourceType
  pub owner : String
  pub requesting_authority : String
  pub capacity : ℕ
  pub starts_at : Option ℕ
  pub expires_at : Option ℕ
  pub priority : Option ℕ
  pub capability_refs : List String

pub data Conflict : Type 0 where
  higher_priority equal_priority : String → Conflict

pub data ReservationRefusal : Type 0 where
  by_conflict : Conflict → ReservationRefusal
  resource_unknown none_viable : ReservationRefusal

-- The available capacity of an overcommit, which may be negative, is the third argument less the fourth.
pub data ResourceError : Type 0 where
  double_allocation : String → ResourceError
  has_allocations : String → ResourceError
  reservation_conflict : String → ReservationRefusal → ResourceError
  capacity_overcommit : String → ℕ → ℕ → ℕ → ResourceError
  invalid_ownership : String → ResourceError
  resource_not_found : String → ResourceError
  no_viable_resource : ResourceError
  illegal_state_transition : ResourceState → ResourceState → ResourceError

pub record HardwareInventoryUnit : Type 0 where
  pub hardware_id : String
  pub resource_type : ResourceType
  pub maximum_capacity : ℕ
  pub capability_refs : List String
  pub health_status : HealthStatus

-- A percentage is kept as the quotient it is: the part, times a hundred, and the whole.
pub record UtilizationMetrics : Type 0 where
  pub resource_id : String
  pub utilized_capacity : ℕ
  pub available_capacity : ℕ
  pub reserved_capacity : ℕ
  pub maximum_capacity : ℕ
  pub utilization_percent : ℕ × ℕ
  pub recorded_at : ℕ

pub data AuditKind : Type 0 where
  state_transition : ResourceState → ResourceState → AuditKind
  reservation_created reservation_expired reservation_released : String → AuditKind
  allocation_created allocation_activated allocation_released : String → AuditKind
  capacity_updated : ℕ → AuditKind
  sync_from_inventory : String → ResourceType → AuditKind

pub record ResourceAuditRecord : Type 0 where
  pub timestamp : ℕ
  pub resource_id : String
  pub kind : AuditKind
  pub reason : Option String
  pub initiating_authority : Option String

pub data HistoryAction : Type 0 where
  created released expired : HistoryAction

-- The kind says whether the id is one of a reservation or of an allocation.
pub data HistoryKind : Type 0 where
  reservation allocation : String → HistoryKind

pub record ResourceHistoryEntry : Type 0 where
  pub timestamp : ℕ
  pub resource_id : String
  pub kind : HistoryKind
  pub action : HistoryAction

pub data ForecastConflict : Type 0 where
  over_maximum several_exclusive : ForecastConflict
  reserved_against : String → String → ForecastConflict

pub data IdleOpportunity : Type 0 where
  underutilized spare_capacity : IdleOpportunity

pub record CapacityForecast : Type 0 where
  pub resource_id : String
  pub projected_exhaustion_at : Option ℕ
  pub available_capacity : ℕ
  pub reserved_capacity : ℕ
  pub utilized_capacity : ℕ
  pub maximum_capacity : ℕ
  pub conflicts : List ForecastConflict
  pub idle_opportunities : List IdleOpportunity
  pub forecasted_at : ℕ

pub data ResourceEvent : Type 0 where
  resource_registered resource_available resource_unavailable : String → ResourceEvent
  resource_reserved resource_reservation_expired : String → String → ResourceEvent
  resource_allocated resource_released : String → String → ResourceEvent
  resource_ownership_changed : String → Option String → ResourceEvent
  resource_utilization_updated : String → UtilizationMetrics → ResourceEvent
  resource_forecast_updated : String → CapacityForecast → ResourceEvent
