-- ===== src/Scheduling/Execution.antt =====
-- core/scheduling_authority/src/SchedulingAuthority.ts: executing one schedule, and what becomes of it
-- then.
use imip.Base.{
  ℕ, ◌+◌, Bool, true, false, ◌||◌, String, [], Option, none, some, Result, ok, err, if◌then◌else◌,
}
use imip.Base.Dict.{get, put}
use imip.Base.Actions.{◌>>=◌, ◌>>◌, return, change, gets, lift}
use imip.Scheduling.Types.{
  ScheduleDefinition, ScheduleStatus, ScheduleType, ScheduleTrigger, ScheduleExecutionHandler,
  ExecutionContext, ExecutionOutcome, ExecutionResult, RetryPolicy, SchedulingError,
  schedule_triggered, schedule_started, schedule_completed, schedule_failed, schedule_retried,
}
use imip.Scheduling.Retry.{or_else, compute_retry_delay_ms}
use imip.Scheduling.TimeEvaluator.{compute_next_execution, to_iso_string}
use imip.Scheduling.Authority.{
  SchedulingAuthorityOptions, Method, require_handler, update_schedule, assert_transition, publish,
  push_history, forget_attempts,
}

abbrev pub is_some : {A : Type 0} → Option A → Bool
is_some none = false
is_some (some a) = true

-- Only the trigger of a one-shot schedule is a time trigger that does not recur.
abbrev pub comes_again : ScheduleTrigger → Bool
comes_again (ScheduleTrigger.time t) =
    is_some t.interval_ms || is_some t.daily_at || is_some t.weekly_at
comes_again _ = true

abbrev pub after_end : ScheduleTrigger → ScheduleStatus
after_end trigger =
    if comes_again trigger then ScheduleStatus.rescheduled else ScheduleStatus.retired

abbrev pub as_some : Result SchedulingError ℕ → Result SchedulingError (Option ℕ)
as_some (ok iso) = ok (some iso)
as_some (err e) = err e

-- `next?.toISOString()`
abbrev pub iso_of_next : Option ℕ → Result SchedulingError (Option ℕ)
iso_of_next none = ok none
iso_of_next (some at) = as_some (to_iso_string at)

abbrev pub next_for : ScheduleTrigger → Option ℕ → ℕ → Result SchedulingError (Option ℕ)
next_for (ScheduleTrigger.time t) old now = iso_of_next (compute_next_execution t now)
next_for _ old now = ok old

abbrev pub with_next :
    ScheduleDefinition
    → Result SchedulingError (Option ℕ)
    → Result SchedulingError ScheduleDefinition
with_next schedule (ok next) = ok (record schedule { next_execution_at = next })
with_next schedule (err e) = err e

unfoldable pub compute_next_execution_and_transition :
    ScheduleDefinition → ℕ → Result SchedulingError ScheduleDefinition
unfolding compute_next_execution to_iso_string
compute_next_execution_and_transition schedule now =
    with_next schedule (next_for schedule.trigger schedule.next_execution_at now)

-- What `catch` makes of an outcome.
abbrev pub caught : Result String ExecutionOutcome → ExecutionOutcome
caught (ok outcome) = outcome
caught (err message) = record { success = false; message = some message }

abbrev result_of : Bool → ExecutionResult
result_of true = ExecutionResult.success
result_of false = ExecutionResult.failure

abbrev error_of : ExecutionOutcome → Option String
error_of outcome = if outcome.success then none else outcome.message

module _ {W : Type 0} (options : SchedulingAuthorityOptions W) where
  unfoldable pub run_handler :
      ScheduleExecutionHandler W → ExecutionContext → Method W ExecutionOutcome
  run_handler handler context = λ s.
      let (world, result) = handler context s.world in
      (record s { world = world }, ok (caught result))

  unfoldable pub now : Method W ℕ
  now = gets (λ s. options.clock s.world)

  unfoldable pub back_to_eligible : ScheduleDefinition → Method W (Unit {0})
  back_to_eligible schedule = do
    update_schedule (record schedule { status = ScheduleStatus.rescheduled })
    assert_transition ScheduleStatus.rescheduled ScheduleStatus.eligible
    at ← now
    next ← lift (
        compute_next_execution_and_transition (record schedule { status = ScheduleStatus.eligible })
          at)
    update_schedule next

  unfoldable pub reschedule_or_retire : ScheduleDefinition → Method W (Unit {0})
  reschedule_or_retire schedule = do
    assert_transition schedule.status (after_end schedule.trigger)
    if comes_again schedule.trigger
        then back_to_eligible schedule
        else update_schedule (record schedule { status = ScheduleStatus.retired })

  unfoldable pub retry_in : ScheduleDefinition → ℕ → ℕ → Method W (Unit {0})
  retry_in schedule attempt delay_ms = do
    change (λ s. record s {
      attempt_counts = put schedule.schedule_id (attempt + 1) s.attempt_counts;
      retry_count = s.retry_count + 1;
    })
    publish (schedule_retried schedule.schedule_id (attempt + 1) delay_ms)
    assert_transition ScheduleStatus.failed ScheduleStatus.rescheduled
    update_schedule (record schedule { status = ScheduleStatus.rescheduled })
    assert_transition ScheduleStatus.rescheduled ScheduleStatus.eligible
    at ← now
    iso ← lift (to_iso_string (at + delay_ms))
    update_schedule
        (record schedule { status = ScheduleStatus.eligible; next_execution_at = some iso })

  -- Without a delay the attempts are exhausted, or the operator is to act: the schedule stays failed.
  unfoldable pub retry_after : ScheduleDefinition → ℕ → Option ℕ → Method W (Unit {0})
  retry_after schedule attempt none = forget_attempts schedule.schedule_id
  retry_after schedule attempt (some delay_ms) = retry_in schedule attempt delay_ms

  unfoldable pub handle_retry : ScheduleDefinition → ℕ → Option RetryPolicy → Method W (Unit {0})
  handle_retry schedule attempt none = do
    forget_attempts schedule.schedule_id
    reschedule_or_retire schedule
  handle_retry schedule attempt (some policy) =
      retry_after schedule attempt (compute_retry_delay_ms policy attempt)

  unfoldable pub succeeded : ScheduleDefinition → ℕ → Method W (Unit {0})
  succeeded schedule completed_at = do
    let current = record schedule {
      status = ScheduleStatus.completed;
      last_execution_at = some completed_at;
    }
    forget_attempts schedule.schedule_id
    change (λ s. record s { successful_executions = s.successful_executions + 1 })
    update_schedule current
    publish (schedule_completed schedule.schedule_id)
    reschedule_or_retire current

  unfoldable pub failed : ScheduleDefinition → ℕ → ℕ → Method W (Unit {0})
  failed schedule attempt completed_at = do
    let current = record schedule {
      status = ScheduleStatus.failed;
      last_execution_at = some completed_at;
    }
    change (λ s. record s { failed_executions = s.failed_executions + 1 })
    update_schedule current
    publish (schedule_failed schedule.schedule_id)
    handle_retry current attempt schedule.retry_policy

  unfoldable pub attempt_of : String → Method W ℕ
  attempt_of schedule_id = gets (λ s. or_else (get schedule_id s.attempt_counts) 1)

  unfoldable pub execute_one : ScheduleDefinition → ScheduleType → ℕ → Method W ExecutionOutcome
  execute_one schedule triggered_by started_at = do
    handler ← require_handler schedule.schedule_id
    attempt ← attempt_of schedule.schedule_id
    assert_transition schedule.status ScheduleStatus.scheduled
    update_schedule (record schedule { status = ScheduleStatus.scheduled })
    publish (schedule_triggered schedule.schedule_id)
    assert_transition ScheduleStatus.scheduled ScheduleStatus.executing
    update_schedule (record schedule { status = ScheduleStatus.executing })
    publish (schedule_started schedule.schedule_id)
    outcome ←
        run_handler handler
          (record { schedule = schedule; attempt = attempt; triggered_by = triggered_by })
    completed_at ← now
    push_history schedule.schedule_id (record {
      schedule_id = schedule.schedule_id;
      attempt = attempt;
      started_at = started_at;
      completed_at = completed_at;
      result = result_of outcome.success;
      delay_reasons = [];
      error = error_of outcome;
    })
    if outcome.success
        then succeeded schedule completed_at
        else failed schedule attempt completed_at
    return outcome
