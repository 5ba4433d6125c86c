-- ===== src/Scheduling/Resting.antt =====
-- Between two calls every schedule rests: none is left half-way through an execution, but for those whose
-- next moment is beyond the last date.
pub mod Executing
pub mod Steps
pub mod Methods
use mathlib.Core.Option.{some-injective}
use imip.Scheduling.TimeEvaluator.{max_date, compute_next_execution}
use imip.Scheduling.Retry.{compute_retry_delay_ms}
use imip.Base.{
  subst, ℕ, ◌+◌, ◌≤◌, ◌<◌, ◌≡◌, ◌∙◌, sym, ap, refl, str_discrete, ◌≢◌, ◌⊎◌, inl, inr, Bool, true,
  false, String, List, [], ◌∷◌, ◌++◌, Option, none, some, Result, ok, err, Option-cases, ◌===◌,
  ===_iff, All, All-append, length, length-append, drop, ltb, if◌then◌else◌, arith,
}
use imip.Base.Dict.{Dict, get, has, put, values, get-put, get-put_self}
use imip.Base.Keyed.{IsKeyed, put-IsKeyed, get-IsKeyed}
use imip.Base.Actions.{Leads, Ends, continue, continue-Leads, weaken-Leads, change, lift}
use imip.Scheduling.Types.{
  ScheduleDefinition, ScheduleStatus, ScheduleEvent, ExecutionRecord, ScheduleExecutionHandler,
  SchedulingError, ScheduleTrigger, TimeTrigger, RetryPolicy,
}
use imip.Scheduling.Lifecycle.{may_become, assert_schedule_transition}
use imip.Scheduling.Registry
use imip.Scheduling.Authority.{
  Scheduler, SchedulingAuthorityOptions, Method, update_schedule, assert_transition, publish,
  push_history, forget_attempts, require_handler, require_schedule, pushed, or_none,
  history_limit_per_schedule,
}

abbrev pub rests : ScheduleStatus → Bool
rests ScheduleStatus.eligible = true
rests ScheduleStatus.failed = true
rests ScheduleStatus.paused = true
rests ScheduleStatus.cancelled = true
rests ScheduleStatus.retired = true
rests _ = false

-- Entered but not yet eligible, or on the way back.
abbrev pub is_between : ScheduleStatus → Bool
is_between ScheduleStatus.registered = true
is_between ScheduleStatus.rescheduled = true
is_between _ = false

abbrev pub Bounded : Option (List ExecutionRecord) → Type 0
Bounded none = Unit
Bounded (some records) = length records ≤ history_limit_per_schedule

module _ {W : Type 0} where
  abbrev pub Never : SchedulingError → Scheduler W → Type 0
  Never e s = ⊥

module _ {W : Type 0} (options : SchedulingAuthorityOptions W) where
  -- `m` is a moment that a time trigger or a delay of the retry policy gives, from a time on the clock.
  abbrev pub ByTrigger : ScheduleDefinition → ℕ → Type 0
  ByTrigger d m =
      (t : TimeTrigger) × (w : W) × (d.trigger ≡ ScheduleTrigger.time t)
      × (compute_next_execution t (options.clock w) ≡ some m)

  abbrev pub ByRetry : ScheduleDefinition → ℕ → Type 0
  ByRetry d m =
      (p : RetryPolicy) × (attempt : ℕ) × (w : W) × (delay : ℕ) × (d.retry_policy ≡ some p)
      × (compute_retry_delay_ms p attempt ≡ some delay)
      × (m ≡ options.clock w + delay)

  -- Left where it was, because its next moment is beyond the last date.
  pub record IsStranded (d : ScheduleDefinition) : Type 0 where
    pub between : is_between d.status ≡ true
    pub moment : ℕ
    pub beyond : max_date < moment
    pub cause : ByTrigger d moment ⊎ ByRetry d moment

  abbrev pub Rests : ScheduleDefinition → Type 0
  Rests d = (rests d.status ≡ true) ⊎ IsStranded d

  -- Every schedule that is registered under `id` rests or is stranded, and has a handler; every history
  -- is within its limit.
  pub record IsResting (s : Scheduler W) : Type 0 where
    pub keyed : IsKeyed (λ e. e.schedule_id) s.registry
    pub resting :
        (id : String) (d : ScheduleDefinition)
        → get id s.registry ≡ some d
        → Rests d × (has id s.handlers ≡ true)
    pub bounded : (id : String) → Bounded (get id s.history)

  -- All but one rest; that one is registered, as `d`.
  pub record IsWorking (d : ScheduleDefinition) (s : Scheduler W) : Type 0 where
    pub keyed : IsKeyed (λ e. e.schedule_id) s.registry
    pub entry : get d.schedule_id s.registry ≡ some d
    pub handled : has d.schedule_id s.handlers ≡ true
    pub others :
        (id : String) (e : ScheduleDefinition)
        → get id s.registry ≡ some e
        → id ≢ d.schedule_id
        → Rests e × (has id s.handlers ≡ true)
    pub bounded : (id : String) → Bounded (get id s.history)

  abbrev pub Stays : SchedulingError → Scheduler W → Type 0
  Stays e s = IsResting s

module _ {W : Type 0} {options : SchedulingAuthorityOptions W} where
  pub work :
      (d : ScheduleDefinition) (s : Scheduler W)
      → IsResting options s
      → get d.schedule_id s.registry ≡ some d
      → IsWorking options d s
  work d s r e = record {
    keyed = r.keyed;
    entry = e;
    handled = (r.resting d.schedule_id d e).1;
    others = λ id e' g _. r.resting id e' g;
    bounded = r.bounded;
  }

  pub rest :
      (d : ScheduleDefinition) (s : Scheduler W)
      → Rests options d
      → IsWorking options d s
      → IsResting options s
  rest d s calm w = record {
    keyed = w.keyed;
    resting = λ id e g. elim (str_discrete id d.schedule_id) [
      | yes same ↦ (
        subst (Rests options)
            (some-injective _ _ (sym w.entry ∙ ap (λ i. get i s.registry) (sym same) ∙ g)) calm,
        ground (arith, w.handled, same),
      )
      | no other ↦ w.others id e g other
    ];
    bounded = w.bounded;
  }

  pub sure :
      {A : Type 0} {P : Scheduler W → Type 0} {Q : A → Scheduler W → Type 0} {m : Method W A}
      → Leads P m Q Never
      → Leads P m Q (Stays options)
  sure p = weaken-Leads p (λ _ _ h. h) (λ _ _ h. absurd h)

  update-IsWorking :
      (d e : ScheduleDefinition) (s : Scheduler W)
      → e.schedule_id ≡ d.schedule_id
      → IsWorking options d s
      → IsWorking options e (record s { registry = put e.schedule_id e s.registry })
  update-IsWorking d e s same w = record {
    keyed = put-IsKeyed (λ x. x.schedule_id) e.schedule_id e s.registry refl w.keyed;
    entry = get-put_self e.schedule_id e s.registry;
    handled = ground (arith, w.handled, same);
    others = λ id x g other.
        w.others id x
          (ground
            (arith, g, get-put e.schedule_id id e s.registry, other, ===_iff e.schedule_id id))
          (λ h. other (h ∙ sym same));
    bounded = w.bounded;
  }

  module _ (d : ScheduleDefinition) where
    pub update-Leads :
        (e : ScheduleDefinition)
        → e.schedule_id ≡ d.schedule_id
        → Leads (IsWorking options d) (update_schedule e) (λ _. (IsWorking options) e) Never
    unfolding update_schedule continue lift Registry.update Registry.require
    update-Leads e same = record {
      ends =
          λ s w. rw (ap (λ id. get id s.registry) same ∙ w.entry) (update-IsWorking d e s same w);
    }

    pub assert-Leads :
        (from to : ScheduleStatus)
        → may_become from to ≡ true
        → Leads (IsWorking options d) (assert_transition from to) (λ _. (IsWorking options) d) Never
    unfolding assert_transition lift assert_schedule_transition
    assert-Leads from to h = record { ends = λ s w. rw h w }

    pub same-IsWorking :
        (s t : Scheduler W)
        → t.registry ≡ s.registry
        → t.handlers ≡ s.handlers
        → t.history ≡ s.history
        → IsWorking options d s
        → IsWorking options d t
    same-IsWorking s t r h k w = record {
      keyed = rw r w.keyed;
      entry = rw r w.entry;
      handled = rw h w.handled;
      others = λ id e g other. rw h (w.others id e (rw (← r) g) other);
      bounded = λ id. rw k (w.bounded id);
    }
