-- ===== src/Scheduling/Staying/Final.antt =====
-- A schedule that failed for good, was cancelled or retired.
use imip.Base.{
  ℕ, ◌≡◌, ◌∙◌, refl, ◌≢◌, ◌⊎◌, inl, inr, sym, ap, ===_iff, Bool, true, false, not, ◌&&◌, ◌||◌,
  String, List, [], ◌∷◌, some, Bool-cases, ◌===◌, All, if◌then◌else◌, length, ltb, arith,
  str_discrete,
}
use imip.Base.Dict.{get, has, get-put}
use imip.Base.Keyed.{IsKeyed, put-IsKeyed}
use imip.Base.Actions.{
  continue, return, lift, throw, Keeps, continue-Keeps, return-Keeps, throw-Keeps, if-Keeps,
  for_each-Keeps,
}
use imip.Scheduling.Types.{
  ScheduleDefinition, ScheduleInput, ScheduleStatus, ScheduleType, ScheduleTrigger, TickResult,
  ScheduleExecutionHandler, DelayReason, SchedulingError,
}
use imip.Scheduling.Lifecycle.{may_become}
use imip.Scheduling.Registry
use imip.Scheduling.Retry.{or_else}
use imip.Scheduling.Authority.{Scheduler, SchedulingAuthorityOptions, Method, assert_transition}
use imip.Scheduling.Calls.{
  is_eligible, is_registered, register_dependencies, enter_schedule, record_skipped_attempt, delay,
  pause, resume, cancel, register_schedule, trigger_manually, attempt_or_delay, hears, notified,
  notify_event, recommended, notify_recommendation,
}
use imip.Scheduling.Tick.{
  is_unrecoverable, is_due, skip, tick_one, tick_each, tick, Call, after_call, after_calls,
  registering, pausing, resuming, cancelling, triggering, notifying, recommending, ticking, opening,
  closing,
}
use imip.Scheduling.Staying.{
  Same, Holds, aside, publish-Keeps, assert-Keeps, push-Keeps, forget-Keeps, update-Keeps,
  require-Keeps, snapshot-Keeps, refused-Keeps, next-Keeps, now-Keeps, execute-Keeps,
}

abbrev pub is_final : ScheduleStatus → Bool
is_final ScheduleStatus.failed = true
is_final ScheduleStatus.cancelled = true
is_final ScheduleStatus.retired = true
is_final _ = false

-- What the methods ask of a schedule before they touch it, no final one has.
pub record IsRefused (s : ScheduleStatus) : Type 0 where
  pub no_pause : may_become s ScheduleStatus.paused ≡ false
  pub no_resume : may_become s ScheduleStatus.eligible ≡ false
  pub no_cancel : may_become s ScheduleStatus.cancelled ≡ false
  pub idle : is_eligible s ≡ false
  pub entered : is_registered s ≡ false

final-IsRefused : (s : ScheduleStatus) → is_final s ≡ true → IsRefused s
unfolding may_become
final-IsRefused ScheduleStatus.failed h = ground arith
final-IsRefused ScheduleStatus.cancelled h = ground arith
final-IsRefused ScheduleStatus.retired h = ground arith
final-IsRefused _ h = cc

has-some :
    (id : String) (d : ScheduleDefinition) (m : Registry.Schedules)
    → get id m ≡ some d
    → has id m ≡ true
unfolding has
has-some id d m e = ground (arith, e)

module _ {W : Type 0} (options : SchedulingAuthorityOptions W) (id : String)
    (d : ScheduleDefinition) (final : is_final d.status ≡ true) where
  abbrev H : Scheduler W → Type 0
  H = Holds id d

  refuses : IsRefused d.status
  refuses = final-IsRefused d.status final

  -- A schedule that may be worked on is another.
  other :
      (schedule_id : String) (a : ScheduleDefinition)
      → Same id d schedule_id a
      → (is_eligible a.status ≡ true) ⊎ (is_registered a.status ≡ true)
      → a.schedule_id ≢ id
  other schedule_id a same may e =
      let status : a.status ≡ d.status = ap (λ x. x.status) (same.1 (sym same.0 ∙ e)) in
      go may status
    where
      go : (is_eligible a.status ≡ true) ⊎ (is_registered a.status ≡ true) → a.status ≡ d.status → ⊥
      go (inl may') status = ground (arith, may', refuses.idle, ap is_eligible status)
      go (inr may') status = ground (arith, may', refuses.entered, ap is_registered status)

  stop-Keeps :
      {B : Type 0} (b : Bool) (e : SchedulingError) (f : Unit {0} → Method W B)
      → (b ≡ false → Keeps H (f tt))
      → Keeps H (λ s. continue f ((if b then throw e else return tt) s))
  unfolding continue
  stop-Keeps true e f k = record { keeps = λ s h. h }
  stop-Keeps false e f k = record { keeps = λ s h. (k refl).keeps s h }

  module _ (schedule_id : String) where
    -- The status decides: either it is this schedule and refused, or another.
    asked :
        {B : Type 0} (to : ScheduleStatus) (a : ScheduleDefinition) (f : Unit {0} → Method W B)
        → may_become d.status to ≡ false
        → Same id d schedule_id a
        → (a.schedule_id ≢ id → (u : Unit {0}) → Keeps H (f u))
        → Keeps H (λ s. continue f (assert_transition a.status to s))
    asked to a f refused same k = elim (str_discrete schedule_id id) [
      | yes e ↦
          refused-Keeps id d a.status to f (ground (arith, refused, ap (λ x. x.status) (same.1 e)))
      | no ne ↦ continue-Keeps (assert-Keeps id d _ _) (k (λ e. ne (ground (arith, same.0, e))))
    ]

    pause-Keeps : Keeps H (pause schedule_id)
    unfolding pause
    pause-Keeps = require-Keeps id d schedule_id _ λ a same.
        asked _ a _ refuses.no_pause same
          λ ne _. continue-Keeps (update-Keeps id d _ ne) λ _. return-Keeps _

    resume-Keeps : Keeps H (resume schedule_id)
    unfolding resume
    resume-Keeps = require-Keeps id d schedule_id _ λ a same.
        asked _ a _ refuses.no_resume same
          λ ne _. continue-Keeps (update-Keeps id d _ ne) λ _. return-Keeps _

    cancel-Keeps : Keeps H (cancel schedule_id)
    unfolding cancel
    cancel-Keeps = require-Keeps id d schedule_id _ λ a same.
        asked _ a _ refuses.no_cancel same λ ne _. continue-Keeps (update-Keeps id d _ ne) λ _.
          continue-Keeps (aside id d _ (λ s. refl)) λ _.
            continue-Keeps (forget-Keeps id d _)
              λ _. continue-Keeps (publish-Keeps id d _) λ _. return-Keeps _

    trigger-Keeps : Keeps H (trigger_manually options schedule_id)
    unfolding trigger_manually
    trigger-Keeps = require-Keeps id d schedule_id _ λ a same.
        stop-Keeps (not (is_eligible a.status) && not (is_registered a.status)) _ _ λ may.
          let ne = other schedule_id a same (ground (arith, may)) in
          continue-Keeps
            (if-Keeps (is_eligible a.status) (λ _. return-Keeps _)
              (λ _. continue-Keeps (assert-Keeps id d _ _) λ _. update-Keeps id d _ ne))
            λ _.
              continue-Keeps (forget-Keeps id d _) λ _.
                continue-Keeps (now-Keeps id d options) λ at. execute-Keeps id d options _ ne _ _

  module _ (a : ScheduleDefinition) (ne : a.schedule_id ≢ id) where
    attempt_or_delay-Keeps :
        (by : ScheduleType) (at : ℕ) → Keeps H (attempt_or_delay options a by at)
    unfolding attempt_or_delay record_skipped_attempt delay
    attempt_or_delay-Keeps by at = continue-Keeps (aside id d _ (λ s. refl)) λ reasons.
        if-Keeps (ltb 0 (length reasons))
          (λ _. continue-Keeps (aside id d _ (λ s. refl)) λ _.
            continue-Keeps (publish-Keeps id d _)
              λ _. continue-Keeps (push-Keeps id d _ _) λ _. return-Keeps _)
          (λ _. continue-Keeps (execute-Keeps id d options a ne by at) λ _. return-Keeps _)

    skip-Keeps : (at : ℕ) (reasons : List DelayReason) → Keeps H (skip options at a reasons)
    unfolding skip record_skipped_attempt delay
    skip-Keeps at reasons = continue-Keeps (aside id d _ (λ s. refl)) λ _.
        continue-Keeps (push-Keeps id d _ _) λ _.
          if-Keeps (is_unrecoverable a.trigger)
            (λ _.
              continue-Keeps (publish-Keeps id d _)
                λ _. continue-Keeps (assert-Keeps id d _ _) λ _. update-Keeps id d _ ne)
            (λ _. publish-Keeps id d _)

  module _ (a : ScheduleDefinition) (same : Same id d a.schedule_id a) where
    notified-Keeps : (event_name : String) (at : ℕ) → Keeps H (notified options event_name at a)
    unfolding notified
    notified-Keeps event_name at =
        if-Keeps (hears options event_name a)
          (λ may.
            continue-Keeps
              (attempt_or_delay-Keeps a (other a.schedule_id a same (ground (arith, may))) _ _)
              λ _. return-Keeps _)
          (λ _. return-Keeps _)

    tick_one-Keeps : (at : ℕ) (result : TickResult) → Keeps H (tick_one options at a result)
    unfolding tick_one
    tick_one-Keeps at result =
        if-Keeps (not (is_eligible a.status && is_due a.trigger a.next_execution_at at))
          (λ _. return-Keeps _)
          λ may.
            let ne = other a.schedule_id a same (ground (arith, may)) in
            continue-Keeps (aside id d _ (λ s. refl)) λ reasons.
              if-Keeps (ltb 0 (length reasons))
                (λ _. continue-Keeps (skip-Keeps a ne at reasons) λ _. return-Keeps _)
                (λ _. continue-Keeps (execute-Keeps id d options a ne _ at) λ _. return-Keeps _)

  notify-Keeps : (event_name : String) → Keeps H (notify_event options event_name)
  unfolding notify_event
  notify-Keeps event_name =
      continue-Keeps (now-Keeps id d options)
        λ at. snapshot-Keeps id d _ λ as' same. for_each-Keeps as' _ (every as' at same)
    where
      every :
          (as' : List ScheduleDefinition) (at : ℕ)
          → All (λ a. Same id d a.schedule_id a) as'
          → All (λ a. Keeps H (notified options event_name at a)) as'
      every [] at h = tt
      every (a ∷ as') at h = (notified-Keeps a h.0 event_name at, every as' at h.1)

  tick_each-Keeps :
      (at : ℕ) (as' : List ScheduleDefinition) (result : TickResult)
      → All (λ a. Same id d a.schedule_id a) as'
      → Keeps H (tick_each options at as' result)
  unfolding tick_each
  tick_each-Keeps at [] result h = return-Keeps _
  tick_each-Keeps at (a ∷ as') result h =
      continue-Keeps (tick_one-Keeps a h.0 at result) λ more. tick_each-Keeps at as' more h.1

  tick-Keeps : (at : ℕ) → Keeps H (tick options at)
  unfolding tick
  tick-Keeps at = snapshot-Keeps id d _ λ as' same. tick_each-Keeps at as' _ same

  recommended-Keeps :
      (schedule_id : String) (confidence : ℕ) (a : ScheduleDefinition) (t : ScheduleTrigger)
      → Same id d schedule_id a
      → Keeps H (recommended options a confidence t)
  unfolding recommended
  recommended-Keeps schedule_id confidence a (ScheduleTrigger.ai_recommendation least) same =
      if-Keeps (not (is_eligible a.status)) (λ _. return-Keeps _)
        λ may.
          if-Keeps (ltb confidence (or_else least 0)) (λ _. return-Keeps _)
            λ _.
              continue-Keeps (now-Keeps id d options)
                λ at. attempt_or_delay-Keeps a (other schedule_id a same (ground (arith, may))) _ _
  recommended-Keeps schedule_id confidence a _ same = throw-Keeps _

  recommend-Keeps :
      (schedule_id : String) (confidence : ℕ)
      → Keeps H (notify_recommendation options schedule_id confidence)
  unfolding notify_recommendation
  recommend-Keeps schedule_id confidence =
      require-Keeps id d schedule_id _
        λ a same. recommended-Keeps schedule_id confidence a a.trigger same

  enter-Keeps :
      {B : Type 0} (e : ScheduleDefinition) (f : Unit {0} → Method W B)
      → (e.schedule_id ≢ id → Keeps H (f tt))
      → Keeps H (λ s. continue f (enter_schedule e s))
  unfolding continue enter_schedule lift Registry.register
  enter-Keeps e f k = record {
    keeps = λ s h. elim (Bool-cases (has e.schedule_id s.registry)) [
      | inl known ↦ rw known h
      | inr unknown ↦ rw unknown (
          (k (apart s h unknown)).keeps _ (record {
            entry = ground (
              arith,
              get-put e.schedule_id id e s.registry,
              h.entry,
              apart s h unknown,
              ===_iff e.schedule_id id,
            );
            keyed = put-IsKeyed (λ x. x.schedule_id) e.schedule_id e s.registry refl h.keyed;
          }))
    ];
  }
    where
      apart : (s : Scheduler W) → H s → has e.schedule_id s.registry ≡ false → e.schedule_id ≢ id
      apart s h unknown same = elim (Bool-cases (has id s.registry)) [
        | inl k' ↦ ground (arith, unknown, k', same)
        | inr k' ↦ ground (arith, has-some id d s.registry h.entry, k')
      ]

  register-Keeps :
      (fresh : String) (input : ScheduleInput) (handler : ScheduleExecutionHandler W)
      → Keeps H (register_schedule options fresh input handler)
  unfolding register_schedule register_dependencies
  register-Keeps fresh input handler =
      stop-Keeps (input.name === "" || input.owner_authority === "") _ _ λ _.
        continue-Keeps (now-Keeps id d options) λ created_at.
          continue-Keeps (publish-Keeps id d _) λ _. continue-Keeps (assert-Keeps id d _ _) λ _.
            continue-Keeps (publish-Keeps id d _) λ _.
              continue-Keeps (aside id d _ (λ s. refl)) λ _.
                continue-Keeps (assert-Keeps id d _ _) λ _. enter-Keeps _ _ λ ne.
                  continue-Keeps (aside id d _ (λ s. refl)) λ _.
                    continue-Keeps (assert-Keeps id d _ _) λ _.
                      continue-Keeps (now-Keeps id d options) λ at.
                        next-Keeps id d _ at _ ne λ e ne'.
                          continue-Keeps (update-Keeps id d e ne')
                            λ _. continue-Keeps (publish-Keeps id d _) λ _. return-Keeps _

  after_call-Holds : (c : Call W) (s : Scheduler W) → H s → H (after_call options c s)
  unfolding after_call
  after_call-Holds (registering fresh input handler) s h =
      (register-Keeps fresh input handler).keeps s h
  after_call-Holds (pausing i) s h = (pause-Keeps i).keeps s h
  after_call-Holds (resuming i) s h = (resume-Keeps i).keeps s h
  after_call-Holds (cancelling i) s h = (cancel-Keeps i).keeps s h
  after_call-Holds (triggering i) s h = (trigger-Keeps i).keeps s h
  after_call-Holds (notifying name) s h = (notify-Keeps name).keeps s h
  after_call-Holds (recommending i confidence) s h = (recommend-Keeps i confidence).keeps s h
  after_call-Holds (ticking at) s h = (tick-Keeps at).keeps s h
  after_call-Holds (opening w) s h = record { entry = h.entry; keyed = h.keyed }
  after_call-Holds (closing i) s h = record { entry = h.entry; keyed = h.keyed }

module _ {W : Type 0} (options : SchedulingAuthorityOptions W) (id : String)
    (d : ScheduleDefinition) (final : is_final d.status ≡ true) where
  after_calls-Holds :
      (calls : List (Call W)) (s : Scheduler W)
      → Holds id d s
      → Holds id d (after_calls options calls s)
  unfolding after_calls
  after_calls-Holds [] s h = h
  after_calls-Holds (c ∷ calls) s h =
      after_calls-Holds calls (after_call options c s) (after_call-Holds options id d final c s h)

-- A schedule that has failed without a retry to come, was cancelled or is retired stays registered as it
-- is, whatever calls follow and whatever the handlers do: no pause, resumption, cancellation, manual
-- trigger, event, recommendation or tick changes its entry. The registry is taken to hold every schedule
-- under its id.
pub after_calls-final :
    {W : Type 0} (options : SchedulingAuthorityOptions W) (id : String) (d : ScheduleDefinition)
    (calls : List (Call W)) (s : Scheduler W)
    → is_final d.status ≡ true
    → IsKeyed (λ e. e.schedule_id) s.registry
    → get id s.registry ≡ some d
    → get id (after_calls options calls s).registry ≡ some d
after_calls-final options id d calls s final keyed entry =
    (after_calls-Holds options id d final calls s (record { entry = entry; keyed = keyed })).entry
