-- ===== src/Scheduling/Resting/Methods.antt =====
-- Every method leaves all schedules at rest, whether it returns or throws.
use imip.Base.{
  ℕ, ◌≡◌, refl, true, not, ◌&&◌, ◌||◌, String, List, [], ◌∷◌, ◌===◌, length, ltb, All, arith,
}
use imip.Base.Dict.{get}
use imip.Base.Actions.{
  Keeps, continue-Keeps, continue-Leads, given-Leads, return-Keeps, throw-Keeps, if-Keeps,
  for_each-Keeps, return-Leads,
}
use imip.Scheduling.Types.{
  ScheduleDefinition, ScheduleInput, ScheduleStatus, ScheduleType, ScheduleTrigger, TickResult,
  DelayReason, ScheduleExecutionHandler,
}
use imip.Scheduling.Lifecycle.{may_become}
use imip.Scheduling.Retry.{or_else}
use imip.Scheduling.Authority.{Scheduler, SchedulingAuthorityOptions, new_scheduler}
use imip.Scheduling.Execution.{now}
use imip.Scheduling.Calls.{
  is_eligible, is_registered, of_input, register_dependencies, record_skipped_attempt, delay,
  register_schedule, trigger_manually, attempt_or_delay, hears, notified, notify_event, recommended,
  notify_recommendation,
}
use imip.Scheduling.Tick.{
  is_unrecoverable, is_due, skip, tick_one, tick_each, tick, Call, after_call, after_calls,
  registering, pausing, resuming, cancelling, triggering, notifying, recommending, ticking, opening,
  closing,
}
use imip.Scheduling.Resting.{IsResting, assert-Leads, sure}
use imip.Scheduling.Resting.Executing.{execute-Keeps, next-Leads, found-Leads, clock-Leads}
use imip.Scheduling.Resting.Steps.{
  aside, publish-Keeps, assert-Keeps, forget-Keeps, require-Keeps, push-Keeps, update-Keeps,
  pause-Keeps, resume-Keeps, cancel-Keeps, enter-Leads, handle-Leads, keeping, kept,
}

module _ {W : Type 0} where
  module _ (options : SchedulingAuthorityOptions W) where
    now-Keeps : Keeps (IsResting options) (now options)
    unfolding now
    now-Keeps = aside _ (λ s. (refl, refl, refl))

    register-Keeps :
        (fresh : String) (input : ScheduleInput) (handler : ScheduleExecutionHandler W)
        → Keeps (IsResting options) (register_schedule options fresh input handler)
    unfolding register_schedule register_dependencies may_become
    register-Keeps fresh input handler =
        continue-Keeps
          (if-Keeps (input.name === "" || input.owner_authority === "") (λ _. throw-Keeps _)
            (λ _. return-Keeps _))
          λ _. continue-Keeps now-Keeps λ created_at. continue-Keeps (publish-Keeps _) λ _.
            continue-Keeps (assert-Keeps _ _) λ _. continue-Keeps (publish-Keeps _) λ _.
              continue-Keeps (aside _ (λ s. (refl, refl, refl))) λ _.
                continue-Keeps (assert-Keeps _ _) λ _.
                  let entered = record (of_input fresh input created_at) {
                    status = ScheduleStatus.registered;
                  } in
                  kept (
                    continue-Leads (enter-Leads entered) λ _.
                      continue-Leads (handle-Leads entered handler fresh refl) λ _.
                        continue-Leads (sure (assert-Leads entered _ _ refl)) λ _.
                          continue-Leads (sure (clock-Leads entered)) λ at.
                            given-Leads λ (v, clock).
                              continue-Leads
                                (next-Leads entered
                                  (record (of_input fresh input created_at) {
                                    status = ScheduleStatus.eligible;
                                  })
                                  at v clock refl refl refl refl)
                                λ e. continue-Leads (found-Leads entered e) λ _.
                                  continue-Leads (keeping (publish-Keeps _))
                                    λ _. return-Leads _ (λ s h. h))

    eligible_lem : (s : ScheduleStatus) → is_eligible s ≡ true → s ≡ ScheduleStatus.eligible
    eligible_lem ScheduleStatus.eligible h = refl
    eligible_lem _ h = cc

    trigger-Keeps : (id : String) → Keeps (IsResting options) (trigger_manually options id)
    unfolding trigger_manually
    trigger-Keeps id = continue-Keeps (require-Keeps id) λ a.
        continue-Keeps
          (if-Keeps (not (is_eligible a.status) && not (is_registered a.status))
            (λ _. throw-Keeps _) (λ _. return-Keeps _))
          λ _.
            continue-Keeps
              (if-Keeps (is_eligible a.status) (λ _. return-Keeps _)
                (λ _. continue-Keeps (assert-Keeps _ _) λ _. update-Keeps _ refl))
              λ _.
                continue-Keeps (forget-Keeps _)
                  λ _. continue-Keeps now-Keeps λ at. execute-Keeps options _ _ _ refl

    attempt-Keeps :
        (a : ScheduleDefinition) (by : ScheduleType) (at : ℕ)
        → is_eligible a.status ≡ true
        → Keeps (IsResting options) (attempt_or_delay options a by at)
    unfolding attempt_or_delay record_skipped_attempt delay
    attempt-Keeps a by at e = continue-Keeps (aside _ (λ s. (refl, refl, refl))) λ reasons.
        if-Keeps (ltb 0 (length reasons))
          (λ _. continue-Keeps (aside _ (λ s. (refl, refl, refl))) λ _.
            continue-Keeps (publish-Keeps _)
              λ _. continue-Keeps (push-Keeps _ _) λ _. return-Keeps _)
          (λ _.
            continue-Keeps (execute-Keeps options a by at (eligible_lem a.status e))
              λ _. return-Keeps _)

    notified-Keeps :
        (event_name : String) (at : ℕ) (a : ScheduleDefinition)
        → Keeps (IsResting options) (notified options event_name at a)
    unfolding notified
    notified-Keeps event_name at a =
        if-Keeps (hears options event_name a)
          (λ may. continue-Keeps (attempt-Keeps a _ _ (ground (arith, may))) λ _. return-Keeps _)
          (λ _. return-Keeps _)

    notify-Keeps :
        (event_name : String) → Keeps (IsResting options) (notify_event options event_name)
    unfolding notify_event
    notify-Keeps event_name = continue-Keeps now-Keeps λ at.
        continue-Keeps (aside _ (λ s. (refl, refl, refl)))
          λ as'. for_each-Keeps as' _ (every as' at)
      where
        every :
            (as' : List ScheduleDefinition) (at : ℕ)
            → All (λ a. Keeps (IsResting options) (notified options event_name at a)) as'
        every [] at = tt
        every (a ∷ as') at = (notified-Keeps event_name at a, every as' at)

    recommended-Keeps :
        (a : ScheduleDefinition) (confidence : ℕ) (t : ScheduleTrigger)
        → Keeps (IsResting options) (recommended options a confidence t)
    unfolding recommended
    recommended-Keeps a confidence (ScheduleTrigger.ai_recommendation least) =
        if-Keeps (not (is_eligible a.status)) (λ _. return-Keeps _)
          λ may.
            if-Keeps (ltb confidence (or_else least 0)) (λ _. return-Keeps _)
              λ _. continue-Keeps now-Keeps λ at. attempt-Keeps a _ _ (ground (arith, may))
    recommended-Keeps a confidence _ = throw-Keeps _

    recommend-Keeps :
        (id : String) (confidence : ℕ)
        → Keeps (IsResting options) (notify_recommendation options id confidence)
    unfolding notify_recommendation
    recommend-Keeps id confidence =
        continue-Keeps (require-Keeps id) λ a. recommended-Keeps a confidence a.trigger

    skip-Keeps :
        (a : ScheduleDefinition) (at : ℕ) (reasons : List DelayReason)
        → Keeps (IsResting options) (skip options at a reasons)
    unfolding skip record_skipped_attempt delay
    skip-Keeps a at reasons = continue-Keeps (aside _ (λ s. (refl, refl, refl))) λ _.
        continue-Keeps (push-Keeps _ _) λ _.
          if-Keeps (is_unrecoverable a.trigger)
            (λ _.
              continue-Keeps (publish-Keeps _)
                λ _. continue-Keeps (assert-Keeps _ _) λ _. update-Keeps _ refl)
            (λ _. publish-Keeps _)

    tick_one-Keeps :
        (at : ℕ) (a : ScheduleDefinition) (result : TickResult)
        → Keeps (IsResting options) (tick_one options at a result)
    unfolding tick_one
    tick_one-Keeps at a result =
        if-Keeps (not (is_eligible a.status && is_due a.trigger a.next_execution_at at))
          (λ _. return-Keeps _)
          λ may. continue-Keeps (aside _ (λ s. (refl, refl, refl))) λ reasons.
            if-Keeps (ltb 0 (length reasons))
              (λ _. continue-Keeps (skip-Keeps a at reasons) λ _. return-Keeps _)
              (λ _.
                continue-Keeps
                  (execute-Keeps options a _ at (eligible_lem a.status (ground (arith, may))))
                  λ _. return-Keeps _)

    tick_each-Keeps :
        (at : ℕ) (as' : List ScheduleDefinition) (result : TickResult)
        → Keeps (IsResting options) (tick_each options at as' result)
    unfolding tick_each
    tick_each-Keeps at [] result = return-Keeps _
    tick_each-Keeps at (a ∷ as') result =
        continue-Keeps (tick_one-Keeps at a result) λ more. tick_each-Keeps at as' more

    tick-Keeps : (at : ℕ) → Keeps (IsResting options) (tick options at)
    unfolding tick
    tick-Keeps at =
        continue-Keeps (aside _ (λ s. (refl, refl, refl))) λ as'. tick_each-Keeps at as' _

    after_call-IsResting :
        (c : Call W) (s : Scheduler W)
        → IsResting options s
        → IsResting options (after_call options c s)
    unfolding after_call
    after_call-IsResting (registering fresh input handler) s h =
        (register-Keeps fresh input handler).keeps s h
    after_call-IsResting (pausing i) s h = (pause-Keeps i).keeps s h
    after_call-IsResting (resuming i) s h = (resume-Keeps i).keeps s h
    after_call-IsResting (cancelling i) s h = (cancel-Keeps i).keeps s h
    after_call-IsResting (triggering i) s h = (trigger-Keeps i).keeps s h
    after_call-IsResting (notifying name) s h = (notify-Keeps name).keeps s h
    after_call-IsResting (recommending i confidence) s h = (recommend-Keeps i confidence).keeps s h
    after_call-IsResting (ticking at) s h = (tick-Keeps at).keeps s h
    after_call-IsResting (opening w) s h = record {
      keyed = h.keyed;
      resting = h.resting;
      bounded = h.bounded;
    }
    after_call-IsResting (closing i) s h = record {
      keyed = h.keyed;
      resting = h.resting;
      bounded = h.bounded;
    }

  after_calls-IsResting :
      (options : SchedulingAuthorityOptions W) (calls : List (Call W)) (s : Scheduler W)
      → IsResting options s
      → IsResting options (after_calls options calls s)
  unfolding after_calls
  after_calls-IsResting options [] s h = h
  after_calls-IsResting options (c ∷ calls) s h =
      after_calls-IsResting options calls (after_call options c s)
        (after_call-IsResting options c s h)

  new-IsResting :
      (options : SchedulingAuthorityOptions W) (w : W) → IsResting options (new_scheduler w)
  unfolding new_scheduler get
  new-IsResting options w = record {
    keyed = tt;
    resting = λ id d e. absurd (cc);
    bounded = λ id. tt;
  }

-- Whatever calls a new authority has seen, and whatever they and their handlers returned or threw: every
-- schedule is registered under its own id and has a handler; it is eligible, paused, failed, cancelled or
-- retired, or else it is registered or rescheduled, and its trigger or its retry policy gives, from a time
-- that the clock may show, a moment beyond the last date; and no history is longer than two hundred entries.
pub calls-IsResting :
    {W : Type 0} (options : SchedulingAuthorityOptions W) (calls : List (Call W)) (w : W)
    → IsResting options (after_calls options calls (new_scheduler w))
calls-IsResting options calls w =
    after_calls-IsResting options calls (new_scheduler w) (new-IsResting options w)
