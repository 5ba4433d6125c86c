-- ===== src/Scheduling/Resting/Steps.antt =====
-- The small steps of the scheduler leave it at rest.
use mathlib.Core.Option.{some-injective}
use imip.Base.{
  subst, ◌+◌, ◌≡◌, refl, ◌≢◌, inl, inr, true, String, [], some, ok, err, Option-cases, Bool-cases,
  ◌===◌, ===_iff, arith,
}
use imip.Base.Dict.{get, has, put, get-put, get-put_self}
use imip.Base.Keyed.{IsKeyed, put-IsKeyed}
use imip.Base.Actions.{
  Outcome, Keeps, Leads, Ends, continue, continue-Keeps, return-Keeps, lift-Keeps, change, lift,
}
use imip.Scheduling.Types.{
  ScheduleDefinition, ScheduleStatus, ScheduleEvent, ExecutionRecord, ScheduleExecutionHandler,
  SchedulingError,
}
use imip.Scheduling.Registry
use imip.Scheduling.Authority.{
  Scheduler, SchedulingAuthorityOptions, Method, require_schedule, update_schedule,
  assert_transition, publish, push_history, forget_attempts,
}
use imip.Scheduling.Calls.{enter_schedule, pause, resume, cancel}
use imip.Scheduling.Resting.{rests, Rests, Bounded, IsResting, IsWorking, Stays}
use imip.Scheduling.Resting.Executing.{pushed-Bounded}

module _ {W : Type 0} (options : SchedulingAuthorityOptions W) where
  -- Entered, but without a handler so far.
  pub record IsEntered (d : ScheduleDefinition) (s : Scheduler W) : Type 0 where
    keyed : IsKeyed (λ e. e.schedule_id) s.registry
    entry : get d.schedule_id s.registry ≡ some d
    others :
        (id : String) (e : ScheduleDefinition)
        → get id s.registry ≡ some e
        → id ≢ d.schedule_id
        → Rests options e × (has id s.handlers ≡ true)
    bounded : (id : String) → Bounded (get id s.history)

module _ {W : Type 0} {options : SchedulingAuthorityOptions W} where
  pub aside :
      {A : Type 0} (m : Method W A)
      → ((s : Scheduler W)
          → ((m s).0.registry ≡ s.registry)
            × ((m s).0.handlers ≡ s.handlers)
            × ((m s).0.history ≡ s.history))
      → Keeps (IsResting options) m
  aside m same = record {
    keeps = λ s r. record {
      keyed = rw ((same s).0) r.keyed;
      resting = λ id d g. rw ((same s).1) (r.resting id d (rw (← (same s).0) g));
      bounded = λ id. rw ((same s).2) (r.bounded id);
    };
  }

  pub publish-Keeps : (event : ScheduleEvent) → Keeps ((IsResting options)) (publish event)
  unfolding publish
  publish-Keeps event = aside _ (λ s. (refl, refl, refl))

  pub assert-Keeps :
      (from to : ScheduleStatus) → Keeps ((IsResting options)) (assert_transition from to)
  unfolding assert_transition
  assert-Keeps from to = lift-Keeps _

  pub forget-Keeps : (id : String) → Keeps ((IsResting options)) (forget_attempts id)
  unfolding forget_attempts
  forget-Keeps id = aside _ (λ s. (refl, refl, refl))

  pub require-Keeps : (id : String) → Keeps ((IsResting options)) (require_schedule id)
  unfolding require_schedule lift
  require-Keeps id = aside _ (λ s. (refl, refl, refl))

  pub push-Keeps :
      (id : String) (r : ExecutionRecord) → Keeps ((IsResting options)) (push_history id r)
  unfolding push_history
  push-Keeps id r = record {
    keeps = λ s h. record {
      keyed = h.keyed;
      resting = h.resting;
      bounded = λ i. elim (Bool-cases (id === i)) [
        | inl e ↦
            rw (get-put id i _ s.history, e) (pushed-Bounded r (get id s.history) (h.bounded id))
        | inr e ↦ rw (get-put id i _ s.history, e) (h.bounded i)
      ];
    };
  }

  pub update-Keeps :
      (e : ScheduleDefinition)
      → rests e.status ≡ true
      → Keeps ((IsResting options)) (update_schedule e)
  unfolding update_schedule continue lift Registry.update Registry.require
  update-Keeps e calm = record {
    keeps = λ s r. elim (Option-cases (get e.schedule_id s.registry)) [
      | inl u ↦ rw u r
      | inr (old, u) ↦ rw u (record {
        keyed = put-IsKeyed (λ x. x.schedule_id) e.schedule_id e s.registry refl r.keyed;
        resting = λ id d g. elim (Bool-cases (e.schedule_id === id)) [
          | inl same ↦ (
            subst (Rests options)
                (some-injective e d
                  (ground (arith, g, get-put e.schedule_id id e s.registry, same)))
                (inl calm),
            ground (arith, (r.resting e.schedule_id old u).1, ===_iff e.schedule_id id, same),
          )
          | inr other ↦
              r.resting id d (ground (arith, g, get-put e.schedule_id id e s.registry, other))
        ];
        bounded = r.bounded;
      })
    ];
  }

  pub pause-Keeps : (id : String) → Keeps ((IsResting options)) (pause id)
  unfolding pause
  pause-Keeps id = continue-Keeps (require-Keeps id) λ a.
      continue-Keeps (assert-Keeps _ _)
        λ _. continue-Keeps (update-Keeps _ refl) λ _. return-Keeps _

  pub resume-Keeps : (id : String) → Keeps ((IsResting options)) (resume id)
  unfolding resume
  resume-Keeps id = continue-Keeps (require-Keeps id) λ a.
      continue-Keeps (assert-Keeps _ _)
        λ _. continue-Keeps (update-Keeps _ refl) λ _. return-Keeps _

  pub cancel-Keeps : (id : String) → Keeps ((IsResting options)) (cancel id)
  unfolding cancel
  cancel-Keeps id = continue-Keeps (require-Keeps id) λ a. continue-Keeps (assert-Keeps _ _) λ _.
      continue-Keeps (update-Keeps _ refl) λ _.
        continue-Keeps (aside _ (λ s. (refl, refl, refl))) λ _.
          continue-Keeps (forget-Keeps _) λ _. continue-Keeps (publish-Keeps _) λ _. return-Keeps _

  pub enter-Leads :
      (d : ScheduleDefinition)
      → Leads (IsResting options) (enter_schedule d) (λ _. IsEntered options d) (Stays options)
  unfolding enter_schedule continue lift Registry.register
  enter-Leads d = record {
    ends = λ s r. elim (Bool-cases (has d.schedule_id s.registry)) [
      | inl known ↦ rw known r
      | inr unknown ↦ rw unknown (record {
        keyed = put-IsKeyed (λ x. x.schedule_id) d.schedule_id d s.registry refl r.keyed;
        entry = get-put_self d.schedule_id d s.registry;
        others = λ id e g other. r.resting id e (
            ground
              (arith, g, get-put d.schedule_id id d s.registry, other, ===_iff d.schedule_id id));
        bounded = r.bounded;
      })
    ];
  }

  pub handle-Leads :
      (d : ScheduleDefinition) (handler : ScheduleExecutionHandler W) (id : String)
      → id ≡ d.schedule_id
      → Leads
          (IsEntered options d)
          (change (λ s. record s {
            handlers = put id handler s.handlers;
            history = put id [] s.history;
            scheduled_jobs = s.scheduled_jobs + 1;
          }))
          (λ _. IsWorking options d)
          (Stays options)
  unfolding has
  handle-Leads d handler id same = record {
    ends = λ s n. record {
      keyed = n.keyed;
      entry = n.entry;
      handled =
          ground
            (arith, get-put id d.schedule_id handler s.handlers, ===_iff id d.schedule_id, same);
      others = λ i e g other. (
        (n.others i e g other).0,
        ground (arith, (n.others i e g other).1, get-put id i handler s.handlers),
      );
      bounded = λ i. elim (Bool-cases (id === i)) [
        | inl e ↦ rw (get-put id i [] s.history, e) (omega arith)
        | inr e ↦ rw (get-put id i [] s.history, e) (n.bounded i)
      ];
    };
  }

  pub keeping :
      {A : Type 0} {m : Method W A}
      → Keeps (IsResting options) m
      → Leads (IsResting options) m (λ _. (IsResting options)) (Stays options)
  keeping {A} {m = m} k = record { ends = λ s r. go (m s) (k.keeps s r) }
    where
      go :
          (o : Outcome (Scheduler W) SchedulingError A)
          → IsResting options o.0
          → Ends (λ _. (IsResting options)) (Stays options) o
      go (s, ok a) h = h
      go (s, err e) h = h

  pub kept :
      {A : Type 0} {m : Method W A}
      → Leads (IsResting options) m (λ _. (IsResting options)) (Stays options)
      → Keeps (IsResting options) m
  kept {A} {m = m} k = record { keeps = λ s r. go (m s) (k.ends s r) }
    where
      go :
          (o : Outcome (Scheduler W) SchedulingError A)
          → Ends (λ _. (IsResting options)) (Stays options) o
          → IsResting options o.0
      go (s, ok a) h = h
      go (s, err e) h = h
