-- ===== src/Scheduling/Resting/Executing.antt =====
-- An execution ends with its schedule at rest or stranded.
use imip.Base.{
  ℕ, ◌≤◌, ◌≡◌, ◌∙◌, refl, sym, ap, inl, inr, true, String, List, [], ◌∷◌, ◌++◌, Option, none, some,
  ok, err, Option-cases, Bool-cases, ◌===◌, length, length-append, drop, ltb, leb, ◌+◌, ◌<◌, Result,
  arith,
}
use imip.Base.Dict.{get, has, get-put}
use imip.Base.Keyed.{get-IsKeyed}
use imip.Scheduling.Registry
use imip.Base.Actions.{
  Keeps, Outcome, Leads, Ends, continue, continue-Leads, given-Leads, if-Leads, return-Leads,
  weaken-Leads, lift,
}
use imip.Scheduling.Types.{
  ScheduleDefinition, ScheduleStatus, ScheduleTrigger, ScheduleType, ScheduleEvent, ExecutionRecord,
  ExecutionContext, ExecutionOutcome, RetryPolicy, TimeTrigger, ScheduleExecutionHandler,
  SchedulingError,
}
use imip.Scheduling.Lifecycle.{may_become, assert_schedule_transition}
use imip.Scheduling.Retry.{compute_retry_delay_ms}
use imip.Scheduling.Authority.{
  Scheduler, SchedulingAuthorityOptions, Method, update_schedule, assert_transition, publish,
  push_history, forget_attempts, require_handler, pushed, or_none, history_limit_per_schedule,
}
use imip.Scheduling.Execution.{
  comes_again, after_end, run_handler, now, back_to_eligible, reschedule_or_retire, retry_in,
  retry_after, handle_retry, succeeded, failed, attempt_of, execute_one,
  compute_next_execution_and_transition, with_next, as_some, iso_of_next, next_for,
}
use imip.Scheduling.TimeEvaluator.{compute_next_execution, to_iso_string, max_date}
use imip.Scheduling.Resting.{
  rests, Bounded, IsResting, IsWorking, work, rest, Never, Stays, sure, is_between, update-Leads,
  assert-Leads, same-IsWorking,
}

pub pushed-Bounded :
    (r : ExecutionRecord) (o : Option (List ExecutionRecord))
    → Bounded o
    → length (pushed r (or_none o)) ≤ history_limit_per_schedule
pushed-Bounded r none h = omega arith
pushed-Bounded r (some records) h = elim (Bool-cases (ltb 200 (length (records ++ r ∷ [])))) [
  | inl e ↦ rw e (short (records ++ r ∷ []) (omega (arith, length-append records (r ∷ []))))
  | inr e ↦ rw e (ground (arith, e))
]
  where
    short : (xs : List ExecutionRecord) → length xs ≤ 201 → length (drop 1 xs) ≤ 200
    short [] le = omega arith
    short (x ∷ xs) le = omega arith

module _ {W : Type 0} {options : SchedulingAuthorityOptions W} (d : ScheduleDefinition) where
  -- A step that returns, and leaves the registry, the handlers and the history alone.
  pub aside-Leads :
      {A : Type 0} (m : Method W A)
      → ((s : Scheduler W)
          → Ends
              (λ _ t.
                (t.registry ≡ s.registry) × (t.handlers ≡ s.handlers) × (t.history ≡ s.history))
              Never
              (m s))
      → Leads (IsWorking options d) m (λ _. IsWorking options d) Never
  aside-Leads {A} m same = record { ends = λ s w. go s (m s) (same s) w }
    where
      go :
          (s : Scheduler W) (r : Outcome (Scheduler W) SchedulingError A)
          → Ends
              (λ _ t.
                (t.registry ≡ s.registry) × (t.handlers ≡ s.handlers) × (t.history ≡ s.history))
              Never
              r
          → IsWorking options d s
          → Ends (λ _. IsWorking options d) Never r
      go s (t, ok a) (r, h, k) w = same-IsWorking d s t r h k w
      go s (t, err e) h w = h

  pub publish-Leads :
      (event : ScheduleEvent)
      → Leads (IsWorking options d) (publish event) (λ _. IsWorking options d) Never
  unfolding publish
  publish-Leads event = aside-Leads _ (λ s. (refl, refl, refl))

  pub forget-Leads :
      (id : String)
      → Leads (IsWorking options d) (forget_attempts id) (λ _. IsWorking options d) Never
  unfolding forget_attempts
  forget-Leads id = aside-Leads _ (λ s. (refl, refl, refl))

  pub push-Leads :
      (id : String) (r : ExecutionRecord)
      → Leads (IsWorking options d) (push_history id r) (λ _. IsWorking options d) Never
  unfolding push_history
  push-Leads id r = record {
    ends = λ s w. record {
      keyed = w.keyed;
      entry = w.entry;
      handled = w.handled;
      others = w.others;
      bounded = λ i. elim (Bool-cases (id === i)) [
        | inl e ↦
            rw (get-put id i _ s.history, e) (pushed-Bounded r (get id s.history) (w.bounded id))
        | inr e ↦ rw (get-put id i _ s.history, e) (w.bounded i)
      ];
    };
  }

  pub settle-Leads :
      (e : ScheduleDefinition)
      → e.schedule_id ≡ d.schedule_id
      → rests e.status ≡ true
      → Leads (IsWorking options d) (update_schedule e) (λ _. (IsResting options)) Never
  settle-Leads e same calm = continue_rest (update-Leads d e same)
    where
      continue_rest :
          Leads (IsWorking options d) (update_schedule e) (λ _. IsWorking options e) Never
          → Leads (IsWorking options d) (update_schedule e) (λ _. (IsResting options)) Never
      continue_rest p = weaken-Leads p (λ _ s w. rest e s (inl calm) w) (λ _ _ h. h)

  handler-Leads :
      (id : String)
      → id ≡ d.schedule_id
      → Leads (IsWorking options d) (require_handler id) (λ _. IsWorking options d) Never
  unfolding require_handler lift has
  handler-Leads id same = record {
    ends = λ s w. elim (Option-cases (get id s.handlers)) [
      | inl e ↦ absurd (ground (arith, w.handled, e, same))
      | inr (h, e) ↦ rw e w
    ];
  }

  pub now-Leads : Leads (IsWorking options d) (now options) (λ _. IsWorking options d) Never
  unfolding now
  now-Leads = aside-Leads _ (λ s. (refl, refl, refl))

  -- The clock is read off some world.
  pub clock-Leads :
      Leads
        (IsWorking options d)
        (now options)
        (λ at s. ((w : W) × (at ≡ options.clock w)) × IsWorking options d s)
        Never
  unfolding now
  clock-Leads = record { ends = λ s w. ((s.world, refl), same-IsWorking d s s refl refl refl w) }

  attempt-Leads :
      (id : String)
      → Leads (IsWorking options d) (attempt_of options id) (λ _. IsWorking options d) Never
  unfolding attempt_of
  attempt-Leads id = aside-Leads _ (λ s. (refl, refl, refl))

  run-Leads :
      (h : ScheduleExecutionHandler W) (c : ExecutionContext)
      → Leads (IsWorking options d) (run_handler options h c) (λ _. IsWorking options d) Never
  unfolding run_handler
  run-Leads h c = aside-Leads _ (λ s. (refl, refl, refl))

to_iso_string-error : (m : ℕ) {e : SchedulingError} → to_iso_string m ≡ err e → max_date < m
unfolding to_iso_string
to_iso_string-error m h = ground (arith, h)

module _ {W : Type 0} {options : SchedulingAuthorityOptions W} (a : ScheduleDefinition) where
  -- The next moment is found, or is beyond the last date.
  pub next-Leads :
      (x : ScheduleDefinition) (at : ℕ) (v : W)
      → at ≡ options.clock v
      → x.schedule_id ≡ a.schedule_id
      → rests x.status ≡ true
      → is_between a.status ≡ true
      → a.trigger ≡ x.trigger
      → Leads
          (IsWorking options a)
          (lift (compute_next_execution_and_transition x at))
          (λ e s. (e.schedule_id ≡ a.schedule_id) × (rests e.status ≡ true) × IsWorking options a s)
          (Stays options)
  unfolding compute_next_execution_and_transition lift
  next-Leads x at v clock same calm between trigger = record {
    ends = λ s w. go s w x.trigger trigger;
  }
    where
      Found : ScheduleDefinition → Scheduler W → Type 0
      Found e s = (e.schedule_id ≡ a.schedule_id) × (rests e.status ≡ true) × IsWorking options a s

      written :
          (s : Scheduler W)
          → IsWorking options a s
          → (t : TimeTrigger) → a.trigger ≡ ScheduleTrigger.time t
          → (m : ℕ) → compute_next_execution t at ≡ some m
          → (r : Result SchedulingError ℕ) → to_iso_string m ≡ r
          → Ends Found (Stays options) (lift (with_next x (as_some r)) s)
      written s w t e m c (ok iso) f = (same, calm, w)
      written s w t e m c (err y) f =
          rest a s
            (inr (record {
              between = between;
              moment = m;
              beyond = to_iso_string-error m f;
              cause = inl (t, v, e, ap (compute_next_execution t) (sym clock) ∙ c);
            }))
            w

      timed :
          (s : Scheduler W)
          → IsWorking options a s
          → (t : TimeTrigger) → a.trigger ≡ ScheduleTrigger.time t
          → (o : Option ℕ) → compute_next_execution t at ≡ o
          → Ends Found (Stays options) (lift (with_next x (iso_of_next o)) s)
      timed s w t e none c = (same, calm, w)
      timed s w t e (some m) c = written s w t e m c (to_iso_string m) refl

      go :
          (s : Scheduler W)
          → IsWorking options a s
          → (t : ScheduleTrigger) → a.trigger ≡ t
          → Ends Found (Stays options) (lift (with_next x (next_for t x.next_execution_at at)) s)
      go s w (ScheduleTrigger.time t) e = timed s w t e (compute_next_execution t at) refl
      go s w _ e = (same, calm, w)

  -- The retry is at a date, or beyond the last one.
  iso-Leads :
      (p : RetryPolicy) (attempt at ms : ℕ) (v : W)
      → at ≡ options.clock v
      → is_between a.status ≡ true
      → a.retry_policy ≡ some p
      → compute_retry_delay_ms p attempt ≡ some ms
      → Leads
          (IsWorking options a)
          (lift (to_iso_string (at + ms)))
          (λ _. IsWorking options a)
          (Stays options)
  unfolding lift to_iso_string
  iso-Leads p attempt at ms v clock between policy c = record {
    ends = λ s w. elim (Bool-cases (leb (at + ms) max_date)) [
      | inl f ↦ rw f w
      | inr f ↦ rw f (
          rest a s
            (inr (record {
              between = between;
              moment = at + ms;
              beyond = ground (arith, f);
              cause = inr (p, attempt, v, ms, policy, c, omega (arith, clock));
            }))
            w)
    ];
  }

  pub found-Leads :
      (e : ScheduleDefinition)
      → Leads
          (λ s. (e.schedule_id ≡ a.schedule_id) × (rests e.status ≡ true) × IsWorking options a s)
          (update_schedule e)
          (λ _. (IsResting options))
          (Stays options)
  found-Leads e = record {
    ends = λ s (same, calm, w). (sure (settle-Leads a e same calm)).ends s w;
  }

module _ {W : Type 0} (options : SchedulingAuthorityOptions W) (d : ScheduleDefinition) where
  back-Leads :
      Leads
        (IsWorking options d)
        (back_to_eligible options d)
        (λ _. (IsResting options))
        (Stays options)
  unfolding back_to_eligible may_become
  back-Leads =
      let again = record d { status = ScheduleStatus.rescheduled } in
      continue-Leads (sure (update-Leads d again refl)) λ _.
        continue-Leads (sure (assert-Leads again _ _ refl)) λ _.
          continue-Leads (sure (clock-Leads again)) λ at. given-Leads λ (v, clock).
            continue-Leads
              (next-Leads again (record d { status = ScheduleStatus.eligible }) at v clock refl refl
                refl refl)
              λ e. found-Leads again e

  reschedule-Leads :
      may_become d.status (after_end d.trigger) ≡ true
      → Leads
          (IsWorking options d)
          (reschedule_or_retire options d)
          (λ _. (IsResting options))
          (Stays options)
  unfolding reschedule_or_retire
  reschedule-Leads may = continue-Leads (sure (assert-Leads d _ _ may)) λ _.
      if-Leads (comes_again d.trigger) (λ _. back-Leads) (λ _. sure (settle-Leads d _ refl refl))

  retry-Leads :
      (attempt : ℕ) (policy : Option RetryPolicy)
      → d.retry_policy ≡ policy
      → d.status ≡ ScheduleStatus.failed
      → may_become d.status (after_end d.trigger) ≡ true
      → Leads
          (IsWorking options d)
          (handle_retry options d attempt policy)
          (λ _. (IsResting options))
          (Stays options)
  unfolding handle_retry may_become
  retry-Leads attempt none q e may =
      continue-Leads (sure (forget-Leads d _)) λ _. reschedule-Leads may
  retry-Leads attempt (some policy) q e may = again (compute_retry_delay_ms policy attempt) refl
    where
      again :
          (delay : Option ℕ)
          → compute_retry_delay_ms policy attempt ≡ delay
          → Leads
              (IsWorking options d)
              (retry_after options d attempt delay)
              (λ _. (IsResting options))
              (Stays options)
      again none c =
          unfold retry_after in
          (weaken-Leads (forget-Leads d _) (λ _ s w. rest d s (inl (ap rests e)) w)
            (λ _ _ h. absurd h))
      again (some ms) c =
          unfold retry_after retry_in in
          (let back = record d { status = ScheduleStatus.rescheduled } in
            continue-Leads (sure (aside-Leads d _ (λ s. (refl, refl, refl)))) λ _.
              continue-Leads (sure (publish-Leads d _)) λ _.
                continue-Leads (sure (assert-Leads d _ _ refl)) λ _.
                  continue-Leads (sure (update-Leads d back refl)) λ _.
                    continue-Leads (sure (assert-Leads back _ _ refl)) λ _.
                      continue-Leads (sure (clock-Leads back)) λ at. given-Leads λ (v, clock).
                        continue-Leads (iso-Leads back policy attempt at ms v clock refl q c)
                          λ iso. sure (settle-Leads back _ refl refl))

after_end-completed :
    (t : ScheduleTrigger) → may_become ScheduleStatus.completed (after_end t) ≡ true
unfolding may_become
after_end-completed t = elim (Bool-cases (comes_again t)) [ inl e ↦ rw e refl | inr e ↦ rw e refl ]

after_end-failed : (t : ScheduleTrigger) → may_become ScheduleStatus.failed (after_end t) ≡ true
unfolding may_become
after_end-failed t = elim (Bool-cases (comes_again t)) [ inl e ↦ rw e refl | inr e ↦ rw e refl ]

module _ {W : Type 0} (options : SchedulingAuthorityOptions W) (d : ScheduleDefinition) where
  module _ (a : ScheduleDefinition) (same : a.schedule_id ≡ d.schedule_id) where
    succeeded-Leads :
        (at : ℕ)
        → Leads
            (IsWorking options a)
            (succeeded options d at)
            (λ _. (IsResting options))
            (Stays options)
    unfolding succeeded
    succeeded-Leads at =
        let done = record d { status = ScheduleStatus.completed; last_execution_at = some at } in
        continue-Leads (sure (forget-Leads a _)) λ _.
          continue-Leads (sure (aside-Leads a _ (λ s. (refl, refl, refl)))) λ _.
            continue-Leads (sure (update-Leads a done (sym same))) λ _.
              continue-Leads (sure (publish-Leads done _))
                λ _. reschedule-Leads options done (after_end-completed d.trigger)

    failed-Leads :
        (attempt at : ℕ)
        → Leads
            (IsWorking options a)
            (failed options d attempt at)
            (λ _. (IsResting options))
            (Stays options)
    unfolding failed
    failed-Leads attempt at =
        let broken = record d { status = ScheduleStatus.failed; last_execution_at = some at } in
        continue-Leads (sure (aside-Leads a _ (λ s. (refl, refl, refl)))) λ _.
          continue-Leads (sure (update-Leads a broken (sym same))) λ _.
            continue-Leads (sure (publish-Leads broken _)) λ _.
              retry-Leads options broken attempt d.retry_policy refl refl
                (after_end-failed d.trigger)

  -- From any schedule `e` that is registered under the id.
  execute-Leads :
      (e : ScheduleDefinition) (by : ScheduleType) (at : ℕ)
      → d.schedule_id ≡ e.schedule_id
      → d.status ≡ ScheduleStatus.eligible
      → Leads
          (IsWorking options e)
          (execute_one options d by at)
          (λ _. (IsResting options))
          (Stays options)
  unfolding execute_one may_become
  execute-Leads e by at same k =
      let planned = record d { status = ScheduleStatus.scheduled } in
      let running = record d { status = ScheduleStatus.executing } in
      continue-Leads (sure (handler-Leads e _ same)) λ handler.
        continue-Leads (sure (attempt-Leads e _)) λ attempt.
          continue-Leads (sure (assert-Leads e _ _ (rw k refl))) λ _.
            continue-Leads (sure (update-Leads e planned same)) λ _.
              continue-Leads (sure (publish-Leads planned _)) λ _.
                continue-Leads (sure (assert-Leads planned _ _ refl)) λ _.
                  continue-Leads (sure (update-Leads planned running refl)) λ _.
                    continue-Leads (sure (publish-Leads running _)) λ _.
                      continue-Leads (sure (run-Leads running _ _)) λ outcome.
                        continue-Leads (sure (now-Leads running)) λ done.
                          continue-Leads (sure (push-Leads running _ _)) λ _.
                            continue-Leads
                              (if-Leads outcome.success (λ _. succeeded-Leads running refl done)
                                (λ _. failed-Leads running refl attempt done))
                              λ _. return-Leads _ (λ s r. r)

  abbrev Unknown : Scheduler W → Type 0
  Unknown s = (IsResting options) s × (get d.schedule_id s.registry ≡ none)

  Unknown-Leads :
      (by : ScheduleType) (at : ℕ)
      → d.status ≡ ScheduleStatus.eligible
      → Leads Unknown
          (execute_one options d by at)
          (λ _. (IsResting options))
          (λ _. (IsResting options))
  unfolding execute_one require_handler attempt_of assert_transition lift assert_schedule_transition
      may_become update_schedule continue Registry.update Registry.require
  Unknown-Leads by at k = record {
    ends = λ s (r, u). elim (Option-cases (get d.schedule_id s.handlers)) [
      | inl e ↦ rw e r
      | inr (h, e) ↦ rw (e, k, u) r
    ];
  }

  -- Whatever the schedule, an execution of it leaves all schedules at rest.
  pub execute-Keeps :
      (by : ScheduleType) (at : ℕ)
      → d.status ≡ ScheduleStatus.eligible
      → Keeps (IsResting options) (execute_one options d by at)
  execute-Keeps by at k = record {
    keeps = λ s r. elim (Option-cases (get d.schedule_id s.registry)) [
      | inl u ↦ ended (λ _ _ h. h) _ ((Unknown-Leads by at k).ends s (r, u))
      | inr (e, u) ↦
          let same : e.schedule_id ≡ d.schedule_id =
            get-IsKeyed (λ x. x.schedule_id) d.schedule_id s.registry e r.keyed u in
          ended (λ _ _ h. h) _
            ((execute-Leads e by at (sym same) k).ends s
              (work e s r (ap (λ id. get id s.registry) same ∙ u)))
    ];
  }
    where
      ended :
          {F : SchedulingError → Scheduler W → Type 0}
          → ((e : SchedulingError) (s : Scheduler W) → F e s → IsResting options s)
          → (r : Outcome (Scheduler W) SchedulingError ExecutionOutcome)
          → Ends (λ _. (IsResting options)) F r
          → IsResting options r.0
      ended f (s, ok a) h = h
      ended f (s, err e) h = f e s h
