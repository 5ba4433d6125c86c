-- ===== src/Scheduling/Authority.antt =====
-- core/scheduling_authority/src/SchedulingAuthority.ts: the state of the authority, the options it is
-- made with, and the small steps of its methods. A published event is added to `events`; that the bus
-- takes it is assumed. The clock is read from the world. Durations and the diagnostic log are left out.
use imip.Base.{
  ℕ, String, List, [], ◌∷◌, ◌++◌, Option, none, some, length, ltb, drop, if◌then◌else◌, or_throw,
}
use imip.Base.Dict.{Dict, get, put, delete}
use imip.Base.Actions.{Action, ◌>>=◌, lift, change}
use imip.Scheduling.Types.{
  ScheduleDefinition, ScheduleStatus, ScheduleExecutionHandler, ExecutionRecord, ScheduleEvent,
  SchedulingError, schedule_not_found,
}
use imip.Scheduling.Lifecycle.{assert_schedule_transition}
use imip.Scheduling.DependencyGraph.{Dependencies}
use imip.Scheduling.TimeGraph.{Windows}
use imip.Scheduling.Evaluators.{Evaluator}
use imip.Scheduling.Registry
use imip.Scheduling.Registry.{Schedules}

pub record SchedulingAuthorityOptions (W : Type 0) : Type 0 where
  pub policy_evaluator : Evaluator
  pub resource_evaluator : Evaluator
  -- the state of the runtime orchestrator, if there is one
  pub runtime_state : Option (W → String)
  pub clock : W → ℕ

pub record Scheduler (W : Type 0) : Type 0 where
  pub registry : Schedules
  pub dependencies : Dependencies
  pub windows : Windows
  pub handlers : Dict (ScheduleExecutionHandler W)
  pub history : Dict (List ExecutionRecord)
  pub attempt_counts : Dict ℕ
  pub scheduled_jobs : ℕ
  pub successful_executions : ℕ
  pub failed_executions : ℕ
  pub delayed_executions : ℕ
  pub retry_count : ℕ
  pub events : List ScheduleEvent
  pub world : W

abbrev pub history_limit_per_schedule : ℕ
history_limit_per_schedule = 200

abbrev pub pushed : ExecutionRecord → List ExecutionRecord → List ExecutionRecord
pushed r records =
    let more = records ++ r ∷ [] in
    if ltb history_limit_per_schedule (length more) then drop 1 more else more

abbrev pub or_none : {A : Type 0} → Option (List A) → List A
or_none none = []
or_none (some xs) = xs

abbrev pub Method : Type 0 → Type 0 → Type 0
Method W = Action (Scheduler W) SchedulingError

module _ {W : Type 0} where
  unfoldable pub new_scheduler : W → Scheduler W
  new_scheduler w = record {
    registry = [];
    dependencies = [];
    windows = [];
    handlers = [];
    history = [];
    attempt_counts = [];
    scheduled_jobs = 0;
    successful_executions = 0;
    failed_executions = 0;
    delayed_executions = 0;
    retry_count = 0;
    events = [];
    world = w;
  }

  unfoldable pub require_schedule : String → Method W ScheduleDefinition
  require_schedule schedule_id = λ s. lift (Registry.require schedule_id s.registry) s

  unfoldable pub update_schedule : ScheduleDefinition → Method W (Unit {0})
  update_schedule schedule = λ s.
      (lift (Registry.update schedule s.registry) >>= λ more.
      change (λ s'. record s' { registry = more }))
        s

  unfoldable pub assert_transition : ScheduleStatus → ScheduleStatus → Method W (Unit {0})
  assert_transition from to = lift (assert_schedule_transition from to)

  unfoldable pub publish : ScheduleEvent → Method W (Unit {0})
  publish event = change (λ s. record s { events = s.events ++ event ∷ [] })

  unfoldable pub require_handler : String → Method W (ScheduleExecutionHandler W)
  require_handler schedule_id =
      λ s. lift (or_throw (get schedule_id s.handlers) (schedule_not_found schedule_id)) s

  unfoldable pub push_history : String → ExecutionRecord → Method W (Unit {0})
  push_history schedule_id r = change (λ s. record s {
    history = put schedule_id (pushed r (or_none (get schedule_id s.history))) s.history;
  })

  unfoldable pub forget_attempts : String → Method W (Unit {0})
  forget_attempts schedule_id =
      change (λ s. record s { attempt_counts = delete schedule_id s.attempt_counts })
