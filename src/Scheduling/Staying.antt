-- ===== src/Scheduling/Staying.antt =====
-- What holds of one entry of the registry while the methods work on others.
pub mod Final
use imip.Base.{
  ℕ, ◌≡◌, refl, ◌≢◌, ◌⊎◌, inl, inr, Bool, true, false, String, List, [], ◌∷◌, Option, none, some,
  Result, ok, err, Bool-cases, Option-cases, ◌===◌, ===_iff, All, if◌then◌else◌, arith,
}
use imip.Base.Dict.{Dict, get, put, values, get-put, delete}
use imip.Base.Keyed.{IsKeyed, put-IsKeyed, get-IsKeyed, values-IsKeyed}
use imip.Base.Actions.{
  Action, Outcome, continue, ◌>>=◌, ◌>>◌, return, change, gets, lift, Keeps, continue-Keeps,
  return-Keeps, lift-Keeps, change-Keeps, if-Keeps,
}
use imip.Scheduling.Types.{
  ScheduleDefinition, ScheduleStatus, ScheduleEvent, ExecutionRecord, ScheduleExecutionHandler,
  ExecutionContext, SchedulingError, ScheduleTrigger, ScheduleType, RetryPolicy, ExecutionOutcome,
}
use imip.Scheduling.Lifecycle.{may_become, assert_schedule_transition}
use imip.Scheduling.Registry
use imip.Scheduling.Authority.{
  Scheduler, SchedulingAuthorityOptions, Method, require_schedule, update_schedule,
  assert_transition, publish, push_history, forget_attempts, require_handler,
}
use imip.Scheduling.Execution.{
  comes_again, run_handler, now, back_to_eligible, reschedule_or_retire, retry_in, retry_after,
  handle_retry, succeeded, failed, attempt_of, execute_one, compute_next_execution_and_transition,
  next_for, with_next,
}
use imip.Scheduling.Retry.{compute_retry_delay_ms}

-- The schedule that is read under another id is another; the one under this id is this one.
abbrev pub Same : String → ScheduleDefinition → String → ScheduleDefinition → Type 0
Same id d schedule_id a = (a.schedule_id ≡ schedule_id) × (schedule_id ≡ id → a ≡ d)

module _ {W : Type 0} (id : String) (d : ScheduleDefinition) where
  -- The schedule is registered as it was, and every schedule under its id.
  pub record Holds (s : Scheduler W) : Type 0 where
    pub entry : get id s.registry ≡ some d
    pub keyed : IsKeyed (λ e. e.schedule_id) s.registry

  -- A step that leaves the registry alone.
  pub aside :
      {A : Type 0} (m : Method W A)
      → ((s : Scheduler W) → (m s).0.registry ≡ s.registry)
      → Keeps Holds m
  aside m same = record {
    keeps = λ s h. record { entry = rw (same s) h.entry; keyed = rw (same s) h.keyed };
  }

  pub publish-Keeps : (event : ScheduleEvent) → Keeps Holds (publish event)
  unfolding publish
  publish-Keeps event = aside _ (λ s. refl)

  pub assert-Keeps : (from to : ScheduleStatus) → Keeps Holds (assert_transition from to)
  unfolding assert_transition
  assert-Keeps from to = lift-Keeps _

  pub push-Keeps :
      (schedule_id : String) (r : ExecutionRecord) → Keeps Holds (push_history schedule_id r)
  unfolding push_history
  push-Keeps schedule_id r = aside _ (λ s. refl)

  pub forget-Keeps : (schedule_id : String) → Keeps Holds (forget_attempts schedule_id)
  unfolding forget_attempts
  forget-Keeps schedule_id = aside _ (λ s. refl)

  put-Holds :
      (s : Scheduler W) (e : ScheduleDefinition)
      → e.schedule_id ≢ id
      → Holds s
      → Holds (record s { registry = put e.schedule_id e s.registry })
  put-Holds s e other h = record {
    entry =
        ground (arith, get-put e.schedule_id id e s.registry, ===_iff e.schedule_id id, h.entry);
    keyed = put-IsKeyed (λ e. e.schedule_id) e.schedule_id e s.registry refl h.keyed;
  }

  pub update-Keeps : (e : ScheduleDefinition) → e.schedule_id ≢ id → Keeps Holds (update_schedule e)
  unfolding update_schedule continue lift Registry.update Registry.require
  update-Keeps e other = record {
    keeps = λ s h. elim (Option-cases (get e.schedule_id s.registry)) [
      | inl u ↦ rw u h
      | inr (v, u) ↦ rw u (put-Holds s e other h)
    ];
  }

  pub require-Keeps :
      {B : Type 0} (schedule_id : String) (f : ScheduleDefinition → Method W B)
      → ((a : ScheduleDefinition) → Same id d schedule_id a → Keeps Holds (f a))
      → Keeps Holds (λ s. continue f (require_schedule schedule_id s))
  unfolding continue require_schedule lift Registry.require
  require-Keeps schedule_id f k = record {
    keeps = λ s h. elim (Option-cases (get schedule_id s.registry)) [
      | inl u ↦ rw u h
      | inr (a, u) ↦ rw u (
          (k a (
            get-IsKeyed (λ e. e.schedule_id) schedule_id s.registry a h.keyed u,
            λ e. ground (arith, h.entry, u, e),
          )).keeps
            s h)
    ];
  }

  -- The schedules of a registry, each of which is this one if it has this id.
  pub snapshot-Keeps :
      {B : Type 0} (f : List ScheduleDefinition → Method W B)
      → ((as' : List ScheduleDefinition)
          → All (λ a. Same id d a.schedule_id a) as'
          → Keeps Holds (f as'))
      → Keeps Holds (λ s. continue f (gets (λ s'. values s'.registry) s))
  unfolding continue
  snapshot-Keeps f k = record {
    keeps = λ s h.
        (k (values s.registry) (
            same s h (values s.registry)
              (values-IsKeyed (λ e. e.schedule_id) s.registry h.keyed))).keeps
          s h;
  }
    where
      same :
          (s : Scheduler W)
          → Holds s
          → (as' : List ScheduleDefinition) → All (λ a. get a.schedule_id s.registry ≡ some a) as'
          → All (λ a. Same id d a.schedule_id a) as'
      same s h [] g = tt
      same s h (a ∷ as') g = ((refl, λ e. ground (arith, h.entry, g.0, e)), same s h as' g.1)

  pub refused-Keeps :
      {B : Type 0} (from to : ScheduleStatus) (f : Unit {0} → Method W B)
      → may_become from to ≡ false
      → Keeps Holds (λ s. continue f (assert_transition from to s))
  unfolding continue assert_transition lift assert_schedule_transition
  refused-Keeps from to f e = record { keeps = λ s h. rw e h }

  pub next-Keeps :
      {B : Type 0} (x : ScheduleDefinition) (at : ℕ) (f : ScheduleDefinition → Method W B)
      → x.schedule_id ≢ id
      → ((e : ScheduleDefinition) → e.schedule_id ≢ id → Keeps Holds (f e))
      → Keeps Holds (λ s. continue f (lift (compute_next_execution_and_transition x at) s))
  unfolding continue lift compute_next_execution_and_transition
  next-Keeps x at f ne k = record {
    keeps = λ s h. go s h (next_for x.trigger x.next_execution_at at);
  }
    where
      go :
          (s : Scheduler W)
          → Holds s
          → (o : Result SchedulingError (Option ℕ)) → Holds (continue f (lift (with_next x o) s)).0
      go s h (ok n) = (k (record x { next_execution_at = n }) ne).keeps s h
      go s h (err e) = h

  module _ (options : SchedulingAuthorityOptions W) where
    pub now-Keeps : Keeps Holds (now options)
    unfolding now
    now-Keeps = aside _ (λ s. refl)

    handler-Keeps : (id' : String) → Keeps Holds (require_handler {W = W} id')
    unfolding require_handler lift
    handler-Keeps id' = record { keeps = λ s h. h }

    attempt-Keeps : (id' : String) → Keeps Holds (attempt_of options id')
    unfolding attempt_of
    attempt-Keeps id' = aside _ (λ s. refl)

    run-Keeps :
        (h : ScheduleExecutionHandler W) (c : ExecutionContext)
        → Keeps Holds (run_handler options h c)
    unfolding run_handler
    run-Keeps h c = aside _ (λ s. refl)

    module _ (a : ScheduleDefinition) (other : a.schedule_id ≢ id) where
      back-Keeps :
          (status : ScheduleStatus) (last : Option ℕ)
          → Keeps Holds
              (back_to_eligible options (record a { status = status; last_execution_at = last }))
      unfolding back_to_eligible
      back-Keeps status last = continue-Keeps (update-Keeps _ other) λ _.
          continue-Keeps (assert-Keeps _ _)
            λ _. continue-Keeps now-Keeps λ at. next-Keeps _ at _ other λ e ne. update-Keeps e ne

      reschedule-Keeps :
          (status : ScheduleStatus) (last : Option ℕ)
          → Keeps Holds (
              reschedule_or_retire options (record a { status = status; last_execution_at = last }))
      unfolding reschedule_or_retire
      reschedule-Keeps status last = continue-Keeps (assert-Keeps _ _) λ _.
          if-Keeps (comes_again a.trigger) (λ _. back-Keeps status last) (λ _. update-Keeps _ other)

      retry-Keeps :
          (status : ScheduleStatus) (last : Option ℕ) (attempt : ℕ) (policy : Option RetryPolicy)
          → Keeps Holds (
              handle_retry options
                (record a { status = status; last_execution_at = last })
                attempt
                policy)
      unfolding handle_retry
      retry-Keeps status last attempt none =
          continue-Keeps (forget-Keeps _) λ _. reschedule-Keeps status last
      retry-Keeps status last attempt (some policy) = again (compute_retry_delay_ms policy attempt)
        where
          again :
              (delay : Option ℕ)
              → Keeps Holds (
                  retry_after options
                    (record a { status = status; last_execution_at = last })
                    attempt
                    delay)
          again none = unfold retry_after in forget-Keeps _
          again (some ms) =
              unfold retry_after retry_in in
              (continue-Keeps (aside _ (λ s. refl)) λ _. continue-Keeps (publish-Keeps _) λ _.
                continue-Keeps (assert-Keeps _ _) λ _. continue-Keeps (update-Keeps _ other) λ _.
                  continue-Keeps (assert-Keeps _ _) λ _.
                    continue-Keeps now-Keeps
                      λ at. continue-Keeps (lift-Keeps _) λ iso. update-Keeps _ other)

      pub execute-Keeps : (by : ScheduleType) (at : ℕ) → Keeps Holds (execute_one options a by at)
      unfolding execute_one succeeded failed
      execute-Keeps by at = continue-Keeps (handler-Keeps _) λ handler.
          continue-Keeps (attempt-Keeps _) λ attempt. continue-Keeps (assert-Keeps _ _) λ _.
            continue-Keeps (update-Keeps _ other) λ _. continue-Keeps (publish-Keeps _) λ _.
              continue-Keeps (assert-Keeps _ _) λ _. continue-Keeps (update-Keeps _ other) λ _.
                continue-Keeps (publish-Keeps _) λ _. continue-Keeps (run-Keeps _ _) λ outcome.
                  continue-Keeps now-Keeps λ completed_at. continue-Keeps (push-Keeps _ _) λ _.
                    continue-Keeps
                      (if-Keeps outcome.success
                        (λ _. continue-Keeps (forget-Keeps _) λ _.
                          continue-Keeps (aside _ (λ s. refl)) λ _.
                            continue-Keeps (update-Keeps _ other)
                              λ _. continue-Keeps (publish-Keeps _) λ _. reschedule-Keeps _ _)
                        (λ _. continue-Keeps (aside _ (λ s. refl)) λ _.
                          continue-Keeps (update-Keeps _ other)
                            λ _. continue-Keeps (publish-Keeps _) λ _. retry-Keeps _ _ _ _))
                      λ _. return-Keeps _
