-- ===== src/EventBus/Types.antt =====
-- core/event_bus/src/types.ts and errors.ts. A payload (`unknown` in the source) has the type `P`.
-- Timestamps are milliseconds. An error carries its arguments in place of the text made of them.
use imip.Base.{ℕ, Bool, String, Option, List}

pub data EventCategory : Type 0 where
  configuration capability plugin hardware runtime mining mining_adapter : EventCategory
  miner_process mining_statistics mining_plugin_runtime : EventCategory
  mining_plugin_certification cpu_mining gpu_mining asic_mining scheduler : EventCategory
  workload benchmark arbitration certification power thermal health database : EventCategory
  storage security profitability decision ai dashboard notification : EventCategory
  diagnostics resilience version_governance : EventCategory

pub data EventPriority : Type 0 where
  critical high normal low background : EventPriority

pub data EventSeverity : Type 0 where
  info warning error critical : EventSeverity

pub data DeliveryMode : Type 0 where
  sync async : DeliveryMode

pub data DeliveryTargeting : Type 0 where
  broadcast directed : DeliveryTargeting

pub data ProcessingStatus : Type 0 where
  pending dispatched completed failed : ProcessingStatus

pub data SelectorKind : Type 0 where
  event category : SelectorKind

pub data Outcome : Type 0 where
  completed failed partial no_subscribers : Outcome

-- The texts of the categories, as a category selector is compared with them.
unfoldable pub category_name : EventCategory → String
category_name EventCategory.configuration = "configuration"
category_name EventCategory.capability = "capability"
category_name EventCategory.plugin = "plugin"
category_name EventCategory.hardware = "hardware"
category_name EventCategory.runtime = "runtime"
category_name EventCategory.mining = "mining"
category_name EventCategory.mining_adapter = "mining-adapter"
category_name EventCategory.miner_process = "miner-process"
category_name EventCategory.mining_statistics = "mining-statistics"
category_name EventCategory.mining_plugin_runtime = "mining-plugin-runtime"
category_name EventCategory.mining_plugin_certification = "mining-plugin-certification"
category_name EventCategory.cpu_mining = "cpu-mining"
category_name EventCategory.gpu_mining = "gpu-mining"
category_name EventCategory.asic_mining = "asic-mining"
category_name EventCategory.scheduler = "scheduler"
category_name EventCategory.workload = "workload"
category_name EventCategory.benchmark = "benchmark"
category_name EventCategory.arbitration = "arbitration"
category_name EventCategory.certification = "certification"
category_name EventCategory.power = "power"
category_name EventCategory.thermal = "thermal"
category_name EventCategory.health = "health"
category_name EventCategory.database = "database"
category_name EventCategory.storage = "storage"
category_name EventCategory.security = "security"
category_name EventCategory.profitability = "profitability"
category_name EventCategory.decision = "decision"
category_name EventCategory.ai = "ai"
category_name EventCategory.dashboard = "dashboard"
category_name EventCategory.notification = "notification"
category_name EventCategory.diagnostics = "diagnostics"
category_name EventCategory.resilience = "resilience"
category_name EventCategory.version_governance = "version-governance"

pub record EventDefinition (P : Type 0) : Type 0 where
  pub id : String
  pub name : String
  pub category : EventCategory
  pub description : String
  pub publisher_authority : String
  pub allowed_subscribers : Option (List String)
  pub priority : EventPriority
  pub delivery_mode : DeliveryMode
  pub targeting : DeliveryTargeting
  pub payload_validator : Option (P → Option (List String))
  pub version : String
  pub deprecated : Option Bool
  pub version_deprecated : Option String

pub record EventEnvelope (P : Type 0) : Type 0 where
  pub event_id : String
  pub event_type : String
  pub event_version : String
  pub timestamp : ℕ
  pub publisher : String
  pub correlation_id : String
  pub causation_id : Option String
  pub severity : EventSeverity
  pub priority : EventPriority
  pub payload : P
  pub processing_status : ProcessingStatus
  pub trace_id : Option String
  pub parent_event_id : Option String
  pub retry_count : Option ℕ
  pub processing_duration_ms : Option ℕ
  pub target_authorities : Option (List String)

pub record PublishOptions : Type 0 where
  pub correlation_id : Option String
  pub causation_id : Option String
  pub severity : Option EventSeverity
  pub trace_id : Option String
  pub parent_event_id : Option String
  pub target_authorities : Option (List String)

pub record SubscribeOptions (P : Type 0) : Type 0 where
  pub subscriber_authority : String
  pub filter : Option (EventEnvelope P → Bool)

-- `handler` is the number of the handler: what the handlers do is a parameter of the bus.
pub record Subscription (P : Type 0) : Type 0 where
  pub subscription_id : String
  pub selector : String
  pub selector_kind : SelectorKind
  pub subscriber_authority : String
  pub handler : ℕ
  pub filter : Option (EventEnvelope P → Bool)
  pub consecutive_failures : ℕ
  pub dead : Bool
  pub registered_at : ℕ
  pub sequence : ℕ

pub record SubscriberDeliveryResult : Type 0 where
  pub subscription_id : String
  pub subscriber_authority : String
  pub success : Bool
  pub duration_ms : ℕ
  pub error : Option String

pub record EventAuditRecord : Type 0 where
  pub event_id : String
  pub event_type : String
  pub publisher : String
  pub timestamp : ℕ
  pub correlation_id : String
  pub causation_id : Option String
  pub subscriber_results : List SubscriberDeliveryResult
  pub overall_duration_ms : ℕ
  pub outcome : Outcome

pub record EventHistoryFilter : Type 0 where
  pub event_type : Option String
  pub publisher : Option String
  pub correlation_id : Option String
  pub since : Option ℕ
  pub limit : Option ℕ

pub data EventBusError : Type 0 where
  unregistered_event : String → EventBusError
  publisher_ownership_violation : String → String → String → EventBusError
  subscriber_not_allowed : String → String → EventBusError
  payload_validation : String → List String → EventBusError
  circular_publication : String → List String → EventBusError
  queue_overflow : ℕ → EventBusError
  duplicate_event_definition : String → EventBusError
  missing_target_authorities : String → EventBusError
