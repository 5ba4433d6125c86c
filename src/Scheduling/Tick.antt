-- ===== src/Scheduling/Tick.antt =====
-- core/scheduling_authority/src/SchedulingAuthority.ts: `tick`, and all calls as one type.
use imip.Base.{
  ℕ, Bool, true, false, not, ◌&&◌, String, List, [], ◌∷◌, ◌++◌, Option, none, some, length, ltb,
  leb, if◌then◌else◌,
}
use imip.Base.Dict.{values}
use imip.Base.Actions.{◌>>=◌, ◌>>◌, return, gets}
use imip.Scheduling.Types.{
  ScheduleDefinition, ScheduleInput, ScheduleStatus, ScheduleType, ScheduleTrigger,
  ScheduleExecutionHandler, ExecutionOutcome, DelayReason, TickResult, TimeWindow, schedule_skipped,
  schedule_delayed,
}
use imip.Scheduling.TimeGraph.{register_window, remove_window}
use imip.Scheduling.Authority.{
  Scheduler, SchedulingAuthorityOptions, Method, update_schedule, assert_transition, publish,
}
use imip.Scheduling.Execution.{is_some, execute_one}
use imip.Scheduling.Calls.{
  is_eligible, record_skipped_attempt, delay, check_eligibility, register_schedule, pause, resume,
  cancel, trigger_manually, notify_event, notify_recommendation,
}

abbrev is_past : Option ℕ → ℕ → Bool
is_past none at = false
is_past (some next) at = leb next at

-- The triggers of the other kinds wait for a call.
abbrev pub is_due : ScheduleTrigger → Option ℕ → ℕ → Bool
is_due (ScheduleTrigger.time t) next at = is_past next at
is_due (ScheduleTrigger.conditional _ evaluate) next at = evaluate at
is_due (ScheduleTrigger.policy _) next at = true
is_due _ next at = false

abbrev pub is_unrecoverable : ScheduleTrigger → Bool
is_unrecoverable (ScheduleTrigger.time t) = is_some t.at
is_unrecoverable _ = false

-- Also a conditional trigger is told to the handler as `time`.
abbrev pub triggered_by : ScheduleTrigger → ScheduleType
triggered_by (ScheduleTrigger.policy _) = ScheduleType.policy
triggered_by _ = ScheduleType.time

abbrev message_of : Option String → String
message_of none = "unknown error"
message_of (some text) = text

abbrev pub told : String → ExecutionOutcome → TickResult → TickResult
told schedule_id outcome result =
    if outcome.success
    then record result { executed = result.executed ++ schedule_id ∷ [] }
    else record result { failed = result.failed ++ (schedule_id, message_of outcome.message) ∷ [] }

module _ {W : Type 0} (options : SchedulingAuthorityOptions W) (at : ℕ) where
  unfoldable pub skip : ScheduleDefinition → List DelayReason → Method W (Unit {0})
  skip schedule reasons = do
    delay
    record_skipped_attempt schedule.schedule_id reasons at
    if is_unrecoverable schedule.trigger
        then (do
          publish (schedule_skipped schedule.schedule_id)
          assert_transition schedule.status ScheduleStatus.retired
          update_schedule (record schedule { status = ScheduleStatus.retired }))
        else publish (schedule_delayed schedule.schedule_id)

  -- The body of the loop of `tick` on one schedule.
  unfoldable pub tick_one : ScheduleDefinition → TickResult → Method W TickResult
  tick_one schedule result =
      if not (is_eligible schedule.status && is_due schedule.trigger schedule.next_execution_at at)
      then return result
      else (do
        reasons ← gets (check_eligibility options schedule at)
        if ltb 0 (length reasons)
            then (do
              skip schedule reasons
              return (record result {
                skipped = result.skipped ++ (schedule.schedule_id, reasons) ∷ [];
              }))
            else (do
              outcome ← execute_one options schedule (triggered_by schedule.trigger) at
              return (told schedule.schedule_id outcome result)))

  unfoldable pub tick_each : List ScheduleDefinition → TickResult → Method W TickResult
  tick_each [] result = return result
  tick_each (schedule ∷ schedules) result =
      let rest = tick_each schedules in tick_one schedule result >>= rest

  unfoldable pub tick : Method W TickResult
  tick = do
    schedules ← gets (λ s. values s.registry)
    tick_each schedules (record { evaluated_at = at; executed = []; skipped = []; failed = [] })

-- A call of the authority, or of its time graph.
pub data Call (W : Type 0) : Type 0 where
  registering : String → ScheduleInput → ScheduleExecutionHandler W → Call W
  pausing resuming cancelling triggering : String → Call W
  notifying : String → Call W
  recommending : String → ℕ → Call W
  ticking : ℕ → Call W
  opening : TimeWindow → Call W
  closing : String → Call W

module _ {W : Type 0} (options : SchedulingAuthorityOptions W) where
  -- What the call leaves behind, whether it returns or throws.
  unfoldable pub after_call : Call W → Scheduler W → Scheduler W
  after_call (registering fresh input handler) s =
      (register_schedule options fresh input handler s).0
  after_call (pausing id) s = (pause id s).0
  after_call (resuming id) s = (resume id s).0
  after_call (cancelling id) s = (cancel id s).0
  after_call (triggering id) s = (trigger_manually options id s).0
  after_call (notifying name) s = (notify_event options name s).0
  after_call (recommending id confidence) s = (notify_recommendation options id confidence s).0
  after_call (ticking at) s = (tick options at s).0
  after_call (opening w) s = record s { windows = register_window w s.windows }
  after_call (closing id) s = record s { windows = remove_window id s.windows }

  unfoldable pub after_calls : List (Call W) → Scheduler W → Scheduler W
  after_calls [] s = s
  after_calls (c ∷ cs) s = after_calls cs (after_call c s)
