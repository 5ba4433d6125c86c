-- ===== src/Scheduling/Trying.antt =====
-- A schedule under trial: what the small steps of an attempt leave of it, and the delays between attempts.
use imip.Base.{
  ℕ, ◌≤◌, ◌<◌, ◌≡◌, ◌∙◌, refl, ap, true, false, String, none, some, ok, err, leb, arith, ◌≢◌,
}
use imip.Base.Dict.{get, put, get-put_self}
use imip.Base.Actions.{Outcome, Leads, Ends, continue, weaken-Leads, lift}
use imip.Scheduling.Types.{
  ScheduleDefinition, ScheduleStatus, ScheduleEvent, ExecutionRecord, ExecutionContext, RetryPolicy,
  RetryStrategy, immediate, fixed_interval, exponential_backoff, manual, ScheduleExecutionHandler,
  SchedulingError,
}
use imip.Scheduling.TimeEvaluator.{max_date, to_iso_string}
use imip.Scheduling.Lifecycle.{may_become, assert_schedule_transition}
use imip.Scheduling.Registry
use imip.Scheduling.Retry.{or_else, delay_of, compute_retry_delay_ms}
use imip.Scheduling.Authority.{
  Scheduler, SchedulingAuthorityOptions, Method, update_schedule, assert_transition, publish,
  push_history, require_handler,
}
use imip.Scheduling.Execution.{caught, run_handler, now, attempt_of}
use imip.Scheduling.Resting.{Never}

pub delay_last :
    (p : RetryPolicy) (max k : ℕ)
    → p.max_attempts ≡ some max
    → max ≤ k
    → compute_retry_delay_ms p k ≡ none
unfolding compute_retry_delay_ms
delay_last p max k m le = rw m (ground arith)

strategy_delay :
    (t : RetryStrategy) (p : RetryPolicy) (k : ℕ)
    → t ≢ manual
    → (ms : ℕ) × (delay_of t p k ≡ some ms)
unfolding delay_of
strategy_delay immediate p k ne = (_, refl)
strategy_delay fixed_interval p k ne = (_, refl)
strategy_delay exponential_backoff p k ne = (_, refl)
strategy_delay manual p k ne = absurd (ne refl)

pub delay_next :
    (p : RetryPolicy) (max k : ℕ)
    → p.max_attempts ≡ some max
    → k < max
    → p.strategy ≢ manual
    → (ms : ℕ) × (compute_retry_delay_ms p k ≡ some ms)
unfolding compute_retry_delay_ms
delay_next p max k m lt ne =
    let (ms, e) = strategy_delay p.strategy p k ne in (ms, rw m (ground (arith, e)))

-- Whatever the context and the world, the handler returns a failure or throws.
abbrev pub Fails : {W : Type 0} → ScheduleExecutionHandler W → Type 0
Fails {W} h = (c : ExecutionContext) (w : W) → (caught (h c w).1).success ≡ false

module _ {W : Type 0} (id : String) (h : ScheduleExecutionHandler W) where
  -- Registered as `e` with the handler `h`; the next attempt is the `k`th.
  pub record Trying (e : ScheduleDefinition) (k : ℕ) (s : Scheduler W) : Type 0 where
    pub entry : get id s.registry ≡ some e
    pub handler : get id s.handlers ≡ some h
    pub count : or_else (get id s.attempt_counts) 1 ≡ k

  module _ {k : ℕ} (e : ScheduleDefinition) where
    pub aside-Leads :
        {A : Type 0} (m : Method W A) (Q : A → Type 0)
        → ((s : Scheduler W)
            → Ends
                (λ a t.
                  Q a
                  × (t.registry ≡ s.registry)
                  × (t.handlers ≡ s.handlers)
                  × (t.attempt_counts ≡ s.attempt_counts))
                Never
                (m s))
        → Leads (Trying e k) m (λ a s. Q a × Trying e k s) Never
    aside-Leads {A} m Q same = record { ends = λ s w. go s (m s) (same s) w }
      where
        go :
            (s : Scheduler W) (r : Outcome (Scheduler W) SchedulingError A)
            → Ends
                (λ a t.
                  Q a
                  × (t.registry ≡ s.registry)
                  × (t.handlers ≡ s.handlers)
                  × (t.attempt_counts ≡ s.attempt_counts))
                Never
                r
            → Trying e k s
            → Ends (λ a t. Q a × Trying e k t) Never r
        go s (t, ok a) (q, r, g, c) w =
            (q, record { entry = rw r w.entry; handler = rw g w.handler; count = rw c w.count })
        go s (t, err x) f w = f

    pub simply :
        {A : Type 0} {m : Method W A} {Q : A → Type 0}
        → Leads (Trying e k) m (λ a s. Q a × Trying e k s) Never
        → Leads (Trying e k) m (λ _. Trying e k) Never
    simply p = weaken-Leads p (λ _ _ q. q.1) (λ _ _ f. f)

    pub publish-Leads :
        (event : ScheduleEvent) → Leads (Trying e k) (publish event) (λ _. Trying e k) Never
    unfolding publish
    publish-Leads event = simply (aside-Leads _ (λ _. Unit {0}) (λ s. (tt, refl, refl, refl)))

    pub push-Leads :
        (i : String) (r : ExecutionRecord)
        → Leads (Trying e k) (push_history i r) (λ _. Trying e k) Never
    unfolding push_history
    push-Leads i r = simply (aside-Leads _ (λ _. Unit {0}) (λ s. (tt, refl, refl, refl)))

    pub assert-Leads :
        (from to : ScheduleStatus)
        → may_become from to ≡ true
        → Leads (Trying e k) (assert_transition from to) (λ _. Trying e k) Never
    unfolding assert_transition lift assert_schedule_transition
    assert-Leads from to m = record { ends = λ s w. rw m w }

    pub update-Leads :
        (e' : ScheduleDefinition)
        → e'.schedule_id ≡ id
        → Leads (Trying e k) (update_schedule e') (λ _. Trying e' k) Never
    unfolding update_schedule continue lift Registry.update Registry.require
    update-Leads e' same = record {
      ends = λ s w. rw (ap (λ i. get i s.registry) same ∙ w.entry) (record {
        entry = ap (λ i. get id (put i e' s.registry)) same ∙ get-put_self id e' s.registry;
        handler = w.handler;
        count = w.count;
      });
    }

    pub handler-Leads :
        (i : String)
        → i ≡ id
        → Leads (Trying e k) (require_handler i) (λ g s. (g ≡ h) × Trying e k s) Never
    unfolding require_handler lift
    handler-Leads i same = record {
      ends = λ s w. rw (ap (λ j. get j s.handlers) same ∙ w.handler) (refl, w);
    }

    pub attempt-Leads :
        (options : SchedulingAuthorityOptions W) (i : String)
        → i ≡ id
        → Leads (Trying e k) (attempt_of options i) (λ n s. (n ≡ k) × Trying e k s) Never
    unfolding attempt_of
    attempt-Leads options i same = record {
      ends = λ s w. (ap (λ j. or_else (get j s.attempt_counts) 1) same ∙ w.count, w);
    }

    pub now-Leads :
        (options : SchedulingAuthorityOptions W)
        → Leads (Trying e k) (now options) (λ _. Trying e k) Never
    unfolding now
    now-Leads options = simply (aside-Leads _ (λ _. Unit {0}) (λ s. (tt, refl, refl, refl)))

    -- The clock is read off some world.
    pub clock-Leads :
        (options : SchedulingAuthorityOptions W)
        → Leads
            (Trying e k)
            (now options)
            (λ at s. ((w : W) × (at ≡ options.clock w)) × Trying e k s)
            Never
    unfolding now
    clock-Leads options =
        aside-Leads _ (λ at. (w : W) × (at ≡ options.clock w))
          (λ s. ((s.world, refl), refl, refl, refl))

    pub iso-Leads :
        (at : ℕ)
        → at ≤ max_date
        → Leads (Trying e k) (lift (to_iso_string at)) (λ _. Trying e k) Never
    unfolding lift to_iso_string
    iso-Leads at le = record { ends = λ s w. rw (in_range le) w }
      where
        in_range : at ≤ max_date → leb at max_date ≡ true
        in_range h = ground (arith, h)

    pub run-Leads :
        (options : SchedulingAuthorityOptions W) (c : ExecutionContext)
        → Fails h
        → Leads
            (Trying e k)
            (run_handler options h c)
            (λ o s. (o.success ≡ false) × Trying e k s)
            Never
    unfolding run_handler
    run-Leads options c fails =
        aside-Leads _ (λ o. o.success ≡ false) (λ s. (fails c s.world, refl, refl, refl))
