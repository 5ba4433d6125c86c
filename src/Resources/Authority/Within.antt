-- ===== src/Resources/Authority/Within.antt =====
-- What of the authority stays as it is while methods run: every profile stands under its id, with the
-- capacity it was registered with, and what is taken of it is within that.
pub mod Taken
pub mod Forecasts
pub mod Choosing
pub mod Entering
pub mod Methods
pub mod Runs
use imip.Base.{
  ℕ, ◌+◌, ◌≤◌, ◌≡◌, ◌∙◌, refl, sym, ap, Bool, true, false, String, List, [], ◌∷◌, Option, none,
  some, Option-cases, Bool-cases, inl, inr, ◌===◌, ===_iff, Result, ok, err, if◌then◌else◌, arith,
}
use imip.Base.Dict.{Dict, get, put, get-put}
use imip.Base.Keyed.{IsKeyed, put-IsKeyed, get-IsKeyed}
use imip.Base.Actions.{
  Action, Outcome, Keeps, continue, continue-Keeps, lift-Keeps, if-Keeps, return-Keeps, lift,
  change, return,
}
use imip.Resources.Types.{
  ResourceProfile, ResourceState, Reservation, ReservationStatus, Allocation, AllocationState,
  ResourceError, ResourceEvent, AuditKind, HistoryKind, HistoryAction,
}
use imip.Resources.Lifecycle.{assert_resource_state_transition}
use imip.Resources.Registry
use imip.Resources.Availability.{is_running, is_active}
use imip.Resources.Authority.{
  ResourceAuthority, Method, upsert, require_profile, publish, record_audit, append_history,
  publish_utilization_update, transition_state, mark_allocation, mark_reservation, find_allocation,
  find_reservation, is_unavailable,
}
use imip.Resources.Authority.Within.Taken.{taken_of, running_of-set_stopped, reserved_of-set}

abbrev pub maximum_of : Option ResourceProfile → Option ℕ
maximum_of none = none
maximum_of (some p) = some p.maximum_capacity

-- `ceiling` is the capacity of each resource.
module _ (ceiling : String → Option ℕ) where
  pub record IsWithin (s : ResourceAuthority) : Type 0 where
    pub keyed : IsKeyed (λ p. p.resource_id) s.registry
    pub ceilings : (id : String) → maximum_of (get id s.registry) ≡ ceiling id
    pub within : (id : String) (m : ℕ) → ceiling id ≡ some m → taken_of s id ≤ m

  abbrev pub Fits : ResourceProfile → Type 0
  Fits p = ceiling p.resource_id ≡ some p.maximum_capacity

  pub upsert-Keeps : (p : ResourceProfile) → Fits p → Keeps IsWithin (upsert p)
  unfolding upsert Registry.upsert
  upsert-Keeps p fits = record {
    keeps = λ s w. record {
      keyed = put-IsKeyed (λ q. q.resource_id) p.resource_id p s.registry refl w.keyed;
      ceilings = λ id. elim (Bool-cases (p.resource_id === id)) [
        | inl e ↦
            rw (get-put p.resource_id id p s.registry, e)
              (sym fits ∙ ap ceiling ((===_iff p.resource_id id).0 e))
        | inr e ↦ rw (get-put p.resource_id id p s.registry, e) (w.ceilings id)
      ];
      within = w.within;
    };
  }

  pub require-Keeps :
      {B : Type 0} (id : String) (f : ResourceProfile → Method B)
      → ((p : ResourceProfile) → p.resource_id ≡ id → Fits p → Keeps IsWithin (f p))
      → Keeps IsWithin (λ s. continue f (require_profile id s))
  unfolding continue require_profile lift Registry.require
  require-Keeps id f k = record {
    keeps = λ s w. elim (Option-cases (get id s.registry)) [
      | inl e ↦ rw e w
      | inr (p, e) ↦
          let named : p.resource_id ≡ id =
            get-IsKeyed (λ q. q.resource_id) id s.registry p w.keyed e in
          rw e ((k p named (ap ceiling named ∙ sym (w.ceilings id) ∙ ap maximum_of e)).keeps s w)
    ];
  }

  -- A step that leaves the registry alone and takes no more of any resource.
  pub less-Keeps :
      {A : Type 0} (m : Method A)
      → ((s : ResourceAuthority) → (m s).0.registry ≡ s.registry)
      → ((s : ResourceAuthority) (id : String) → taken_of (m s).0 id ≤ taken_of s id)
      → Keeps IsWithin m
  less-Keeps m same less = record {
    keeps = λ s w. record {
      keyed = rw (same s) w.keyed;
      ceilings = λ id. rw (same s) (w.ceilings id);
      within = λ id n e. omega (arith, less s id, w.within id n e);
    };
  }

  pub aside-Keeps :
      {A : Type 0} (m : Method A)
      → ((s : ResourceAuthority)
          → ((m s).0.registry ≡ s.registry)
            × ((m s).0.reservations ≡ s.reservations)
            × ((m s).0.allocations ≡ s.allocations))
      → Keeps IsWithin m
  aside-Keeps m same = record {
    keeps = λ s w. record {
      keyed = rw ((same s).0) w.keyed;
      ceilings = λ id. rw ((same s).0) (w.ceilings id);
      within = λ id n e. rw ((same s).1, (same s).2) (w.within id n e);
    };
  }

  pub publish-Keeps : (event : ResourceEvent) → Keeps IsWithin (publish event)
  unfolding publish
  publish-Keeps event = aside-Keeps _ (λ s. (refl, refl, refl))

  pub find_allocation-Keeps : (id : String) → Keeps IsWithin (find_allocation id)
  unfolding find_allocation lift
  find_allocation-Keeps id = aside-Keeps _ (λ s. (refl, refl, refl))

  pub find_reservation-Keeps : (id : String) → Keeps IsWithin (find_reservation id)
  unfolding find_reservation lift
  find_reservation-Keeps id = aside-Keeps _ (λ s. (refl, refl, refl))

  pub mark_allocation-Keeps :
      (id : String) (state : AllocationState)
      → is_running state ≡ false
      → Keeps IsWithin (mark_allocation id state)
  unfolding mark_allocation
  mark_allocation-Keeps id state h =
      less-Keeps _ (λ s. refl)
        (λ s i. omega (arith, running_of-set_stopped i id state s.allocations h))

  pub mark_reservation-Keeps :
      (id : String) (status : ReservationStatus)
      → is_active status ≡ false
      → Keeps IsWithin (mark_reservation id status)
  unfolding mark_reservation
  mark_reservation-Keeps id status h =
      less-Keeps _ (λ s. refl) (λ s i. omega (arith, reserved_of-set i id status s.reservations h))

  module _ (now : ℕ) where
    pub audit-Keeps :
        (id : String) (kind : AuditKind) (reason authority : Option String)
        → Keeps IsWithin (record_audit now id kind reason authority)
    unfolding record_audit
    audit-Keeps id kind reason authority = aside-Keeps _ (λ s. (refl, refl, refl))

    pub history-Keeps :
        (id : String) (kind : HistoryKind) (action : HistoryAction)
        → Keeps IsWithin (append_history now id kind action)
    unfolding append_history
    history-Keeps id kind action = aside-Keeps _ (λ s. (refl, refl, refl))

    pub utilization-Keeps : (id : String) → Keeps IsWithin (publish_utilization_update now id)
    unfolding publish_utilization_update
    utilization-Keeps id = require-Keeps id _ λ p _ _.
        continue-Keeps (aside-Keeps _ (λ s. (refl, refl, refl))) λ u.
          continue-Keeps (publish-Keeps _)
            λ _. continue-Keeps (aside-Keeps _ (λ s. (refl, refl, refl))) λ f. publish-Keeps _

    pub transition-Keeps :
        (p : ResourceProfile) (to : ResourceState) (reason authority : String)
        → Fits p
        → Keeps IsWithin (transition_state now p to reason authority)
    unfolding transition_state
    transition-Keeps p to reason authority fits = continue-Keeps (lift-Keeps _) λ _.
        continue-Keeps (upsert-Keeps _ fits) λ _. continue-Keeps (audit-Keeps _ _ _ _) λ _.
          continue-Keeps
            (if-Keeps (is_unavailable now to) (λ _. publish-Keeps _) (λ _. return-Keeps _))
            λ _. return-Keeps _
