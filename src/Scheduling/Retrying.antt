-- ===== src/Scheduling/Retrying.antt =====
-- A schedule whose handler keeps failing: the retries end.
use imip.Base.{
  ℕ, suc, ◌+◌, ◌≤◌, ◌<◌, ◌≡◌, ◌∙◌, refl, ap, subst, String, List, [], ◌∷◌, Option, none, some, ok,
  err, length, arith, ◌≢◌,
}
use native.Mathlib.Decide.{dec_lt}
use imip.Base.Dict.{get, put, get-put_self}
use imip.Base.Actions.{
  Outcome, Leads, Ends, continue, ◌>>=◌, continue-Leads, given-Leads, if-Leads, return-Leads,
  weaken-Leads, change, lift, return,
}
use imip.Scheduling.Types.{
  ScheduleDefinition, ScheduleStatus, ScheduleType, ExecutionOutcome, RetryPolicy, manual,
  ScheduleExecutionHandler, SchedulingError,
}
use imip.Scheduling.TimeEvaluator.{max_date}
use imip.Scheduling.Lifecycle.{may_become}
use imip.Scheduling.Registry
use imip.Scheduling.Retry.{or_else, compute_retry_delay_ms}
use imip.Scheduling.Authority.{
  Scheduler, SchedulingAuthorityOptions, Method, require_schedule, forget_attempts,
}
use imip.Scheduling.Execution.{retry_in, retry_after, handle_retry, failed, execute_one}
use imip.Scheduling.Resting.{Never}
use imip.Scheduling.Trying.{
  Fails, Trying, aside-Leads, simply, publish-Leads, push-Leads, assert-Leads, update-Leads,
  handler-Leads, attempt-Leads, now-Leads, run-Leads, clock-Leads, iso-Leads, delay_last,
  delay_next,
}

pub record HasFailed {W : Type 0} (id : String) (s : Scheduler W) : Type 0 where
  pub schedule : ScheduleDefinition
  pub entry : get id s.registry ≡ some schedule
  pub status : schedule.status ≡ ScheduleStatus.failed

module _ {W : Type 0} (id : String) (h : ScheduleExecutionHandler W) where
  -- The schedule is due for its `k`th attempt under the policy `p`.
  pub record IsDue (p : RetryPolicy) (k : ℕ) (s : Scheduler W) : Type 0 where
    pub schedule : ScheduleDefinition
    pub named : schedule.schedule_id ≡ id
    pub status : schedule.status ≡ ScheduleStatus.eligible
    pub policy : schedule.retry_policy ≡ some p
    pub entry : get id s.registry ≡ some schedule
    pub handler : get id s.handlers ≡ some h
    pub count : or_else (get id s.attempt_counts) 1 ≡ k

  -- The delays of the policy lead to valid dates, at whatever time they begin.
  abbrev pub StaysInDates : SchedulingAuthorityOptions W → RetryPolicy → Type 0
  StaysInDates options p =
      (k ms : ℕ) → compute_retry_delay_ms p k ≡ some ms → (w : W) → options.clock w + ms ≤ max_date

  -- What an attempt comes to, by the delay until the next.
  abbrev pub Next : RetryPolicy → ℕ → Option ℕ → Scheduler W → Type 0
  Next p k none = HasFailed id
  Next p k (some ms) = IsDue p (k + 1)

  module _ (options : SchedulingAuthorityOptions W) (p : RetryPolicy) (k : ℕ)
      (dates : StaysInDates options p) where
    module _ (e : ScheduleDefinition) (named : e.schedule_id ≡ id)
        (policy : e.retry_policy ≡ some p) where
      again-Leads :
          (ms : ℕ)
          → compute_retry_delay_ms p k ≡ some ms
          → Leads (Trying id h e k) (retry_in options e k ms) (λ _. IsDue p (k + 1)) Never
      unfolding retry_in may_become
      again-Leads ms c =
          let back = record e { status = ScheduleStatus.rescheduled } in
          continue-Leads counted λ _. continue-Leads (publish-Leads id h e _) λ _.
            continue-Leads (assert-Leads id h e _ _ refl) λ _.
              continue-Leads (update-Leads id h e back named) λ _.
                continue-Leads (assert-Leads id h back _ _ refl) λ _.
                  continue-Leads (clock-Leads id h back options) λ at. given-Leads λ (w, e').
                    continue-Leads
                      (iso-Leads id h back (at + ms) (omega (arith, e', dates k ms c w)))
                      λ iso.
                        weaken-Leads (update-Leads id h back _ named)
                          (λ _ s w. record {
                            schedule = record e {
                              status = ScheduleStatus.eligible;
                              next_execution_at = some iso;
                            };
                            named = named;
                            status = refl;
                            policy = policy;
                            entry = w.entry;
                            handler = w.handler;
                            count = w.count;
                          })
                          (λ _ _ f. f)
        where
          counted :
              Leads
                (Trying id h e k)
                (change (λ s. record s {
                  attempt_counts = put e.schedule_id (k + 1) s.attempt_counts;
                  retry_count = s.retry_count + 1;
                }))
                (λ _. Trying id h e (k + 1))
                Never
          counted = record {
            ends = λ s w. record {
              entry = w.entry;
              handler = w.handler;
              count =
                  ap (λ o. or_else o 1)
                    (ap (λ i. get id (put i (k + 1) s.attempt_counts)) named
                      ∙ get-put_self id (k + 1) s.attempt_counts);
            };
          }

      stop-Leads :
          e.status ≡ ScheduleStatus.failed
          → Leads (Trying id h e k) (forget_attempts e.schedule_id) (λ _. HasFailed id) Never
      unfolding forget_attempts
      stop-Leads f = record { ends = λ s w. record { schedule = e; entry = w.entry; status = f } }

      handle-Leads :
          (q : Option RetryPolicy)
          → q ≡ some p
          → e.status ≡ ScheduleStatus.failed
          → Leads
              (Trying id h e k)
              (handle_retry options e k q)
              (λ _. Next p k (compute_retry_delay_ms p k))
              Never
      handle-Leads q same f = rw same (go (compute_retry_delay_ms p k) refl)
        where
          go :
              (o : Option ℕ)
              → compute_retry_delay_ms p k ≡ o
              → Leads
                  (Trying id h e k)
                  (handle_retry options e k (some p))
                  (λ _. Next p k (compute_retry_delay_ms p k))
                  Never
          go none c = unfold handle_retry retry_after in (rw c (stop-Leads f))
          go (some ms) c = unfold handle_retry retry_after in (rw c (again-Leads ms c))

    failed-Leads :
        (a d : ScheduleDefinition)
        → d.schedule_id ≡ id
        → d.retry_policy ≡ some p
        → (at : ℕ)
        → Leads
            (Trying id h a k)
            (failed options d k at)
            (λ _. Next p k (compute_retry_delay_ms p k))
            Never
    unfolding failed
    failed-Leads a d named policy at =
        let broken = record d { status = ScheduleStatus.failed; last_execution_at = some at } in
        continue-Leads counted λ _. continue-Leads (update-Leads id h a broken named) λ _.
          continue-Leads (publish-Leads id h broken _)
            λ _. handle-Leads broken named policy d.retry_policy policy refl
      where
        counted :
            Leads
              (Trying id h a k)
              (change (λ s. record s { failed_executions = s.failed_executions + 1 }))
              (λ _. Trying id h a k)
              Never
        counted = simply id h a (aside-Leads id h a _ (λ _. Unit {0}) (λ s. (tt, refl, refl, refl)))

    execute-Leads :
        (d : ScheduleDefinition)
        → d.schedule_id ≡ id
        → d.retry_policy ≡ some p
        → d.status ≡ ScheduleStatus.eligible
        → Fails h
        → (by : ScheduleType) (at : ℕ)
        → Leads
            (Trying id h d k)
            (execute_one options d by at)
            (λ _. Next p k (compute_retry_delay_ms p k))
            Never
    unfolding execute_one may_become
    execute-Leads d named policy status fails by at =
        let planned = record d { status = ScheduleStatus.scheduled } in
        let running = record d { status = ScheduleStatus.executing } in
        continue-Leads (handler-Leads id h d _ named) λ g. given-Leads λ g_eq. rw g_eq (
          continue-Leads (attempt-Leads id h d options _ named) λ n. given-Leads λ n_eq. rw n_eq (
            continue-Leads (assert-Leads id h d _ _ (rw status refl)) λ _.
              continue-Leads (update-Leads id h d planned named) λ _.
                continue-Leads (publish-Leads id h planned _) λ _.
                  continue-Leads (assert-Leads id h planned _ _ refl) λ _.
                    continue-Leads (update-Leads id h planned running named) λ _.
                      continue-Leads (publish-Leads id h running _) λ _.
                        continue-Leads (run-Leads id h running options _ fails) λ outcome.
                          given-Leads λ failure.
                            continue-Leads (now-Leads id h running options) λ done.
                              continue-Leads (push-Leads id h running _ _) λ _.
                                continue-Leads
                                  (if-Leads outcome.success
                                    (λ success. absurd (ground (arith, success, failure)))
                                    (λ _. failed-Leads running d named policy done))
                                  λ _. return-Leads _ (λ s r. r)))

  -- One execution of the schedule as it is registered.
  pub round : SchedulingAuthorityOptions W → ScheduleType → ℕ → Method W ExecutionOutcome
  round options by at = do schedule ← require_schedule id; execute_one options schedule by at

  pub rounds : SchedulingAuthorityOptions W → ScheduleType → List ℕ → Method W (Unit {0})
  rounds options by [] = return tt
  rounds options by (at ∷ ats) =
      let rest = rounds options by ats in round options by at >>= λ _. rest

  module _ (options : SchedulingAuthorityOptions W) (p : RetryPolicy)
      (dates : StaysInDates options p) (fails : Fails h) (by : ScheduleType) where
    round-Leads :
        (k at : ℕ)
        → Leads (IsDue p k) (round options by at) (λ _. Next p k (compute_retry_delay_ms p k)) Never
    unfolding round require_schedule continue lift Registry.require
    round-Leads k at = record {
      ends = λ s due. rw due.entry (
          (execute-Leads options p k dates due.schedule due.named due.policy due.status fails by
              at).ends
            s (record { entry = due.entry; handler = due.handler; count = due.count }));
    }

    last-Leads :
        (k at max : ℕ)
        → p.max_attempts ≡ some max
        → max ≤ k
        → Leads (IsDue p k) (round options by at) (λ _. HasFailed id) Never
    last-Leads k at max m le =
        subst (λ o. Leads (IsDue p k) (round options by at) (λ _. Next p k o) Never)
          (delay_last p max k m le) (round-Leads k at)

    next-Leads :
        (k at max : ℕ)
        → p.max_attempts ≡ some max
        → k < max
        → p.strategy ≢ manual
        → Leads (IsDue p k) (round options by at) (λ _. IsDue p (k + 1)) Never
    next-Leads k at max m lt ne =
        let (ms, e) = delay_next p max k m lt ne in
        subst (λ o. Leads (IsDue p k) (round options by at) (λ _. Next p k o) Never) e
          (round-Leads k at)

    IsDue-Leads :
        (ats : List ℕ) (k max : ℕ)
        → p.max_attempts ≡ some max
        → p.strategy ≢ manual
        → k + length ats ≤ max
        → Leads (IsDue p k) (rounds options by ats) (λ _. IsDue p (k + length ats)) Never
    unfolding rounds
    IsDue-Leads [] k max m ne le =
        return-Leads _ (λ s due. subst (λ n. IsDue p n s) (omega arith) due)
    IsDue-Leads (at ∷ ats) k max m ne le =
        continue-Leads (next-Leads k at max m (omega arith) ne) λ _.
          subst (λ n. Leads (IsDue p (k + 1)) (rounds options by ats) (λ _. IsDue p n) Never)
            (omega arith) (IsDue-Leads ats (k + 1) max m ne (omega arith))

    end-Leads :
        (ats : List ℕ) (k max : ℕ)
        → p.max_attempts ≡ some max
        → p.strategy ≢ manual
        → k + length ats ≡ suc max
        → k ≤ max
        → Leads (IsDue p k) (rounds options by ats) (λ _. HasFailed id) Never
    unfolding rounds
    end-Leads [] k max m ne e le = absurd (omega arith)
    end-Leads (at ∷ []) k max m ne e le =
        continue-Leads (last-Leads k at max m (omega arith)) λ _. return-Leads _ (λ s f. f)
    end-Leads (at ∷ at' ∷ ats) k max m ne e le =
        continue-Leads (next-Leads k at max m (omega arith) ne)
          λ _. end-Leads (at' ∷ ats) (k + 1) max m ne (omega arith) (omega arith)

-- Where a retry policy allows `max` attempts, at least one, no delay of it leads beyond the last date at any
-- time that the clock may show, and the handler of a schedule keeps failing, the executions that follow one
-- another from the first attempt on all return; before there have been `max` the schedule is eligible again
-- for the next attempt, and after the last it has failed.
pub retries-end :
    {W : Type 0} (options : SchedulingAuthorityOptions W) (id : String)
    (h : ScheduleExecutionHandler W) (p : RetryPolicy) (max : ℕ) (by : ScheduleType) (ats : List ℕ)
    (s : Scheduler W)
    → Fails h
    → p.max_attempts ≡ some max
    → p.strategy ≢ manual
    → StaysInDates id h options p
    → IsDue id h p 1 s
    → 0 < max
    → length ats ≤ max
    → ((rounds id h options by ats s).1 ≡ ok tt)
      × (length ats < max → IsDue id h p (1 + length ats) (rounds id h options by ats s).0)
      × (length ats ≡ max → HasFailed id (rounds id h options by ats s).0)
retries-end {W} options id h p max by ats s fails m ne dates due pos le =
    go (dec_lt (length ats) max)
  where
    returned :
        (Q : Scheduler W → Type 0) (r : Outcome (Scheduler W) SchedulingError (Unit {0}))
        → Ends (λ _. Q) Never r
        → (r.1 ≡ ok tt) × Q r.0
    returned Q (t, ok u) q = (refl, q)
    returned Q (t, err e) q = absurd q

    go :
        Dec (length ats < max)
        → ((rounds id h options by ats s).1 ≡ ok tt)
          × (length ats < max → IsDue id h p (1 + length ats) (rounds id h options by ats s).0)
          × (length ats ≡ max → HasFailed id (rounds id h options by ats s).0)
    go (yes lt) =
        let (r, q) =
          returned (IsDue id h p (1 + length ats)) (rounds id h options by ats s)
            ((IsDue-Leads id h options p dates fails by ats 1 max m ne (omega arith)).ends s due) in
        (r, (λ _. q), (λ e. absurd (omega arith)))
    go (no ge) =
        let (r, q) = returned (HasFailed id) (rounds id h options by ats s) (
          (end-Leads id h options p dates fails by ats 1 max m ne (omega arith) (omega arith)).ends
            s due) in
        (r, (λ lt. absurd (ge lt)), (λ _. q))
