-- ===== src/Resources/Authority/Within/Methods.antt =====
-- Every method keeps what is taken of a resource within its capacity.
use imip.Base.{
  ℕ, ◌≡◌, refl, true, not, String, List, [], ◌∷◌, map, includes, Option, none, some, Option-cases,
  inl, inr, ◌===◌, Result, ok, err, find, All, decided, arith,
}
use imip.Base.Actions.{
  Keeps, continue, continue-Keeps, return-Keeps, if-Keeps, for_each-Keeps, lift, change,
}
use imip.Resources.Types.{
  ResourceProfile, ResourceState, Reservation, ReservationRequest, Allocation, AllocationRequest,
  ResourceError,
}
use imip.Resources.Lifecycle.{ResourceState-discrete}
use imip.Resources.Availability.{is_running}
use imip.Resources.Allocation.{named, apply_allocation_to_profile, release_allocation_from_profile}
use imip.Resources.Reservation.{
  apply_reservation_to_profile, release_reservation_from_profile, expire_reservations,
}
use imip.Resources.Ownership
use imip.Resources.Ownership.{Ownerships}
use imip.Resources.Authority.{
  ResourceAuthority, ResourceAuthorityOptions, find_allocation, mark_allocation,
}
use imip.Resources.Authority.Requests.{request_reservation, request_allocation, finish_allocation}
use imip.Resources.Authority.Releases.{
  finish_activation, activate, release_ownership, release_allocation, release_reservation,
  make_available, release, expire_one, expire,
}
use imip.Resources.Authority.Within.{
  IsWithin, Fits, upsert-Keeps, require-Keeps, less-Keeps, aside-Keeps, publish-Keeps,
  find_allocation-Keeps, find_reservation-Keeps, mark_allocation-Keeps, mark_reservation-Keeps,
  audit-Keeps, history-Keeps, utilization-Keeps, transition-Keeps,
}
use imip.Resources.Authority.Within.Taken.{reserved_of-expire, running_of-set_running}
use imip.Resources.Authority.Within.Entering.{enter_allocation-Keeps, enter_reservation-Keeps}

module _ (ceiling : String → Option ℕ) (now : ℕ) where
  abbrev W : ResourceAuthority → Type 0
  W = IsWithin ceiling

  module _ (options : ResourceAuthorityOptions) (fresh : String) where
    pub reserve-Keeps :
        (request : ReservationRequest) → Keeps W (request_reservation now options fresh request)
    unfolding request_reservation apply_reservation_to_profile
    reserve-Keeps request =
        continue-Keeps (enter_reservation-Keeps ceiling now options fresh request) λ r.
          require-Keeps ceiling _ _ λ p _ fits. continue-Keeps (upsert-Keeps ceiling _ fits) λ _.
            continue-Keeps (history-Keeps ceiling now _ _ _) λ _.
              continue-Keeps (audit-Keeps ceiling now _ _ _ _) λ _.
                continue-Keeps (publish-Keeps ceiling _)
                  λ _. continue-Keeps (utilization-Keeps ceiling now _) λ _. return-Keeps _

    pub allocate-Keeps :
        (request : AllocationRequest) → Keeps W (request_allocation now options fresh request)
    unfolding request_allocation finish_allocation apply_allocation_to_profile
    allocate-Keeps request =
        continue-Keeps (enter_allocation-Keeps ceiling now options fresh request) λ a.
          require-Keeps ceiling _ _ λ p _ fits. continue-Keeps (upsert-Keeps ceiling _ fits) λ _.
            continue-Keeps (aside-Keeps ceiling _ (λ s. (refl, refl, refl))) λ _.
              continue-Keeps (history-Keeps ceiling now _ _ _) λ _.
                continue-Keeps (audit-Keeps ceiling now _ _ _ _) λ _.
                  continue-Keeps (publish-Keeps ceiling _) λ _.
                    continue-Keeps (publish-Keeps ceiling _)
                      λ _. continue-Keeps (utilization-Keeps ceiling now _) λ _. return-Keeps _

  module _ (id reason authority : String) where
    ownership-Keeps : Keeps W (release_ownership now id reason authority)
    unfolding release_ownership continue lift
    ownership-Keeps = record {
      keeps = λ s w. own s w (Ownership.release id now reason authority s.ownership);
    }
      where
        own :
            (s : ResourceAuthority) (w : W s) (o : Result ResourceError Ownerships)
            → W (continue (λ more. change (λ s'. record s' { ownership = more })) (lift o s)).0
        own s w (ok more) = record { keyed = w.keyed; ceilings = w.ceilings; within = w.within }
        own s w (err x) = w

    release_allocation-Keeps :
        (p : ResourceProfile) (o : Option String)
        → Fits ceiling p
        → Keeps W (release_allocation now id reason authority p o)
    unfolding release_allocation release_allocation_from_profile
    release_allocation-Keeps p none fits = return-Keeps _
    release_allocation-Keeps p (some i) fits = continue-Keeps (find_allocation-Keeps ceiling i) λ a.
        continue-Keeps (mark_allocation-Keeps ceiling i _ refl) λ _.
          continue-Keeps (upsert-Keeps ceiling _ fits) λ _. require-Keeps ceiling _ _ λ q _ fits'.
            continue-Keeps (transition-Keeps ceiling now q _ _ _ fits') λ _.
              continue-Keeps ownership-Keeps λ _.
                continue-Keeps (history-Keeps ceiling now _ _ _) λ _.
                  continue-Keeps (audit-Keeps ceiling now _ _ _ _)
                    λ _. continue-Keeps (publish-Keeps ceiling _) λ _. publish-Keeps ceiling _

    release_reservation-Keeps :
        (p : ResourceProfile) (o : Option String)
        → Fits ceiling p
        → Keeps W (release_reservation now id reason authority p o)
    unfolding release_reservation release_reservation_from_profile
    release_reservation-Keeps p none fits = return-Keeps _
    release_reservation-Keeps p (some i) fits =
        continue-Keeps (find_reservation-Keeps ceiling i) λ r.
          continue-Keeps (mark_reservation-Keeps ceiling i _ refl) λ _.
            continue-Keeps (upsert-Keeps ceiling _ fits) λ _.
              continue-Keeps
                (if-Keeps
                  (not (
                    decided (
                      ResourceState-discrete (release_reservation_from_profile p r now).state
                        p.state)))
                  (λ _. audit-Keeps ceiling now _ _ _ _) (λ _. return-Keeps _))
                λ _.
                  continue-Keeps (history-Keeps ceiling now _ _ _)
                    λ _. audit-Keeps ceiling now _ _ _ _

    available-Keeps : Keeps W (make_available now id reason authority)
    unfolding make_available
    available-Keeps = require-Keeps ceiling _ _ λ p _ fits.
        if-Keeps (decided (ResourceState-discrete p.state ResourceState.released))
          (λ _. continue-Keeps (transition-Keeps ceiling now p _ _ _ fits) λ _.
            require-Keeps ceiling _ _ λ q _ fits'.
              continue-Keeps (upsert-Keeps ceiling q fits') λ _. publish-Keeps ceiling _)
          (λ _. return-Keeps _)

    pub release-Keeps : (a r : Option String) → Keeps W (release now id reason authority a r)
    unfolding release
    release-Keeps a r = require-Keeps ceiling _ _ λ p _ fits.
        continue-Keeps (release_allocation-Keeps p (named a) fits) λ _.
          continue-Keeps (release_reservation-Keeps p (named r) fits)
            λ _. continue-Keeps available-Keeps λ _. utilization-Keeps ceiling now id

  expire_one-Keeps : (ids : List String) (r : Reservation) → Keeps W (expire_one now ids r)
  unfolding expire_one release_reservation_from_profile
  expire_one-Keeps ids r =
      if-Keeps (includes ids r.id)
        (λ _.
          continue-Keeps
            (less-Keeps ceiling _ (λ s. refl)
              (λ s id. omega (arith, reserved_of-expire id r.id s.reservations)))
            λ _. require-Keeps ceiling _ _ λ p _ fits.
              continue-Keeps (upsert-Keeps ceiling _ fits) λ _.
                continue-Keeps (audit-Keeps ceiling now _ _ _ _) λ _.
                  continue-Keeps (publish-Keeps ceiling _) λ _. history-Keeps ceiling now _ _ _)
        (λ _. return-Keeps _)

  pub expire-Keeps : Keeps W (expire now)
  unfolding expire
  expire-Keeps = continue-Keeps (aside-Keeps ceiling _ (λ s. (refl, refl, refl))) λ rs.
      continue-Keeps (for_each-Keeps rs _ (every rs (map (λ r. r.id) (expire_reservations rs now))))
        λ _. return-Keeps _
    where
      every :
          (rs : List Reservation) (ids : List String) → All (λ r. Keeps W (expire_one now ids r)) rs
      every [] ids = tt
      every (r ∷ rs) ids = (expire_one-Keeps ids r, every rs ids)

  finish-Keeps :
      (id authority : String) (a : Allocation) → Keeps W (finish_activation now id authority a)
  unfolding finish_activation
  finish-Keeps id authority a = require-Keeps ceiling _ _ λ p _ fits.
      continue-Keeps (transition-Keeps ceiling now p _ _ _ fits) λ _.
        continue-Keeps (audit-Keeps ceiling now _ _ _ _)
          λ _. continue-Keeps (utilization-Keeps ceiling now _) λ _. return-Keeps _

  pub activate-IsWithin :
      (id authority : String) (s : ResourceAuthority)
      → ((a : Allocation)
          → find (λ b. b.id === id) s.allocations ≡ some a
          → is_running a.state ≡ true)
      → W s
      → W (activate now id authority s).0
  unfolding activate continue find_allocation mark_allocation lift
  activate-IsWithin id authority s runs w =
      elim (Option-cases (find (λ b. b.id === id) s.allocations)) [
        | inl e ↦ rw e w
        | inr (a, e) ↦ rw e (
            (finish-Keeps id authority a).keeps _ (record {
              keyed = w.keyed;
              ceilings = w.ceilings;
              within = λ i m c.
                  omega (arith, running_of-set_running i id s.allocations runs, w.within i m c);
            }))
      ]
