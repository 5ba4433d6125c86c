-- ===== src/Scheduling/Types.antt =====
-- core/scheduling_authority/src/types.ts and errors.ts. A moment is a number of milliseconds since the
-- epoch, also where the source writes it as a text. An error or a reason carries its arguments in place
-- of the text made of them. `W` is the world that a handler may change.
use imip.Base.{ℕ, Bool, String, List, Option, Result}
use imip.EventBus.Types.{EventPriority}

pub data ScheduleType : Type 0 where
  time event policy conditional manual ai_recommendation : ScheduleType

pub record TimeOfDay : Type 0 where
  pub hour : ℕ
  pub minute : ℕ

pub record TimeOfWeek : Type 0 where
  pub day_of_week : ℕ
  pub hour : ℕ
  pub minute : ℕ

pub record TimeTrigger : Type 0 where
  pub interval_ms : Option ℕ
  pub daily_at : Option TimeOfDay
  pub weekly_at : Option TimeOfWeek
  pub at : Option ℕ

-- The test of a conditional trigger is a function of the moment; a confidence is in percent.
pub data ScheduleTrigger : Type 0 where
  time : TimeTrigger → ScheduleTrigger
  event : String → ScheduleTrigger
  policy : String → ScheduleTrigger
  conditional : String → (ℕ → Bool) → ScheduleTrigger
  manual : ScheduleTrigger
  ai_recommendation : Option ℕ → ScheduleTrigger

pub data RetryStrategy : Type 0 where
  immediate fixed_interval exponential_backoff manual : RetryStrategy

pub record RetryPolicy : Type 0 where
  pub strategy : RetryStrategy
  pub max_attempts : Option ℕ
  pub interval_ms : Option ℕ
  pub backoff_multiplier : Option ℕ

pub data ScheduleStatus : Type 0 where
  created validated registered eligible scheduled executing : ScheduleStatus
  completed failed rescheduled paused cancelled retired : ScheduleStatus

pub record ScheduleDefinition : Type 0 where
  pub schedule_id : String
  pub name : String
  pub description : String
  pub owner_authority : String
  pub schedule_type : ScheduleType
  pub trigger : ScheduleTrigger
  pub dependencies : List String
  pub required_runtime_state : Option (List String)
  pub required_devices : Option (List String)
  pub required_policies : Option (List String)
  pub priority : EventPriority
  pub retry_policy : Option RetryPolicy
  pub timeout_ms : Option ℕ
  pub status : ScheduleStatus
  pub created_at : ℕ
  pub last_execution_at : Option ℕ
  pub next_execution_at : Option ℕ

pub record ScheduleInput : Type 0 where
  pub name : String
  pub description : Option String
  pub owner_authority : String
  pub schedule_type : ScheduleType
  pub trigger : ScheduleTrigger
  pub dependencies : Option (List String)
  pub required_runtime_state : Option (List String)
  pub required_devices : Option (List String)
  pub required_policies : Option (List String)
  pub priority : Option EventPriority
  pub retry_policy : Option RetryPolicy
  pub timeout_ms : Option ℕ

-- Why a schedule is not executed.
pub data DelayReason : Type 0 where
  waiting_on : List String → DelayReason
  runtime_state : List String → String → DelayReason
  window : String → String → DelayReason
  refused : String → DelayReason
  device : String → DelayReason

pub data ExecutionResult : Type 0 where
  success failure skipped : ExecutionResult

-- The random id of an execution is left out.
pub record ExecutionRecord : Type 0 where
  pub schedule_id : String
  pub attempt : ℕ
  pub started_at : ℕ
  pub completed_at : ℕ
  pub result : ExecutionResult
  pub delay_reasons : List DelayReason
  pub error : Option String

pub record ExecutionContext : Type 0 where
  pub schedule : ScheduleDefinition
  pub attempt : ℕ
  pub triggered_by : ScheduleType

pub record ExecutionOutcome : Type 0 where
  pub success : Bool
  pub message : Option String

-- A handler changes the world and returns an outcome, or throws a text; a handler that takes longer than
-- the timeout of its schedule throws as well.
abbrev pub ScheduleExecutionHandler : Type 0 → Type 0
ScheduleExecutionHandler W = ExecutionContext → W → W × Result String ExecutionOutcome

pub record TickResult : Type 0 where
  pub evaluated_at : ℕ
  pub executed : List String
  pub skipped : List (String × List DelayReason)
  pub failed : List (String × String)

pub record TimeWindow : Type 0 where
  pub window_id : String
  pub kind : String
  pub label : String
  pub starts_at : ℕ
  pub ends_at : ℕ
  pub source : String
  pub blocks_execution : Bool

pub data ScheduleEvent : Type 0 where
  schedule_created schedule_validated schedule_registered : String → ScheduleEvent
  schedule_triggered schedule_delayed schedule_skipped schedule_started : String → ScheduleEvent
  schedule_completed schedule_failed schedule_cancelled : String → ScheduleEvent
  schedule_retried : String → ℕ → ℕ → ScheduleEvent

pub data SchedulingError : Type 0 where
  name_and_owner_required : SchedulingError
  not_triggerable : String → ScheduleStatus → SchedulingError
  no_recommendation_trigger : String → SchedulingError
  duplicate_schedule : String → SchedulingError
  schedule_not_found : String → SchedulingError
  circular_dependency : List String → SchedulingError
  invalid_time : SchedulingError
  invalid_transition : ScheduleStatus → ScheduleStatus → SchedulingError
