-- ===== src/Resources/Allocation/Capacity.antt =====
-- What an accepted allocation may rely on.
use imip.Base.{
  ℕ, ◌+◌, ◌-◌, ◌≤◌, ◌<◌, ◌≡◌, refl, ap, Bool, true, false, String, List, [], ◌∷◌, length, Result,
  ok, err, sum_by, arith,
}
use imip.Resources.Types.{
  ResourceProfile, Reservation, Allocation, AllocationRequest, ResourceError,
}
use imip.Resources.Availability.{
  evaluate_availability, compute_effective_available, active_reservations, active_allocations,
  is_exclusive, blocking_states, is_faulted,
}
use imip.Resources.Allocation.{
  AllocationEngineContext, resolve_profile, admit, allocate, running_on, reserved_on,
  apply_allocation_to_profile, release_allocation_from_profile,
}

-- What is taken of a resource: by active reservations, and by allocations that run.
abbrev pub taken : AllocationEngineContext → String → ℕ
taken ctx id =
    sum_by (λ r. r.capacity) (active_reservations (reserved_on id ctx.reservations))
    + sum_by (λ a. a.capacity) (running_on id ctx.allocations)

running-running :
    (id : String) (as' : List Allocation)
    → active_allocations (running_on id as') ≡ running_on id as'
running-running id [] = refl
running-running id (a ∷ as') = ground (arith, running-running id as')

active-active :
    (rs : List Reservation) → active_reservations (active_reservations rs) ≡ active_reservations rs
active-active [] = refl
active-active (r ∷ rs) = ground (arith, active-active rs)

-- No violation, so each of the tests passes.
pub record IsAdmissible (ctx : AllocationEngineContext) (request : AllocationRequest)
    (profile : ResourceProfile) : Type 0 where
  pub usable : blocking_states profile.state ≡ false
  pub sound : is_faulted profile.health_status ≡ false
  pub powered : ctx.power profile.hardware_id ≡ false
  pub cool : ctx.thermal profile.hardware_id ≡ false
  pub fits :
      0 < request.capacity
      → taken ctx profile.resource_id + request.capacity ≤ profile.maximum_capacity
  pub alone : is_exclusive request.mode ≡ true → running_on profile.resource_id ctx.allocations ≡ []

module _ (power thermal : String → Bool) (profile : ResourceProfile) (rs : List Reservation)
    (as' : List Allocation) (requested : ℕ)
    (clear : length (evaluate_availability power thermal profile rs as' requested) ≡ 0) where
  pub evaluate-clear :
      (blocking_states profile.state ≡ false)
      × (is_faulted profile.health_status ≡ false)
      × (power profile.hardware_id ≡ false)
      × (thermal profile.hardware_id ≡ false)
      × (0 < requested
          → requested
            ≤ compute_effective_available profile (active_reservations rs) (active_allocations as'))
  unfolding evaluate_availability
  evaluate-clear = (ground arith, ground arith, ground arith, ground arith, ground arith)

module _ (ctx : AllocationEngineContext) (request : AllocationRequest) (profile : ResourceProfile)
    (h : admit ctx request profile ≡ ok tt) where
  admit-clear :
      (length (
          evaluate_availability ctx.power ctx.thermal profile
            (reserved_on profile.resource_id ctx.reservations)
            (running_on profile.resource_id ctx.allocations)
            request.capacity)
        ≡ 0)
      × (is_exclusive request.mode ≡ true
          → length (running_on profile.resource_id ctx.allocations) ≡ 0)
  unfolding admit
  admit-clear = (ground arith, ground arith)

  admit-IsAdmissible : IsAdmissible ctx request profile
  unfolding compute_effective_available
  admit-IsAdmissible =
      let (clear, alone) = admit-clear in
      let (usable, sound, powered, cool, fits) =
        evaluate-clear ctx.power ctx.thermal profile
          (reserved_on profile.resource_id ctx.reservations)
          (running_on profile.resource_id ctx.allocations) request.capacity clear in
      record {
        usable = usable;
        sound = sound;
        powered = powered;
        cool = cool;
        fits = λ p. omega (
          arith,
          fits p,
          ap (sum_by (λ r. r.capacity))
              (active-active (reserved_on profile.resource_id ctx.reservations)),
          ap (λ xs. sum_by (λ a. a.capacity) (active_allocations xs))
              (running-running profile.resource_id ctx.allocations),
          ap (sum_by (λ a. a.capacity)) (running-running profile.resource_id ctx.allocations),
        );
        alone = λ e. none_left _ (alone e);
      }
    where
      none_left : (xs : List Allocation) → length xs ≡ 0 → xs ≡ []
      none_left [] e = refl
      none_left (x ∷ xs) e = absurd (omega (arith, e))

-- An allocation that is granted is for a resource of the context that is in a usable state, not faulted
-- and not blocked; its capacity, if it is more than none, fits beside all that is reserved and
-- allocated of the resource; and if it is exclusive, no other allocation of the resource runs.
pub allocate-IsAdmissible :
    (fresh : String) (ctx : AllocationEngineContext) (request : AllocationRequest) (a : Allocation)
    → allocate fresh ctx request ≡ ok a
    → (profile : ResourceProfile) × (resolve_profile ctx.profiles request ≡ ok profile)
      × (a.resource_id ≡ profile.resource_id)
      × (a.capacity ≡ request.capacity)
      × IsAdmissible ctx request profile
unfolding allocate
allocate-IsAdmissible fresh ctx request a h = go (resolve_profile ctx.profiles request) refl
  where
    Claim : Type 0
    Claim =
        (profile : ResourceProfile) × (resolve_profile ctx.profiles request ≡ ok profile)
        × (a.resource_id ≡ profile.resource_id)
        × (a.capacity ≡ request.capacity)
        × IsAdmissible ctx request profile

    admitted :
        (profile : ResourceProfile)
        → resolve_profile ctx.profiles request ≡ ok profile
        → (r : Result ResourceError (Unit {0})) → admit ctx request profile ≡ r
        → Claim
    admitted profile e (ok tt) k = (
      profile,
      e,
      ground (arith, h, e, k),
      ground (arith, h, e, k),
      admit-IsAdmissible ctx request profile k,
    )
    admitted profile e (err x) k = absurd (ground (arith, h, e, k))

    go :
        (r : Result ResourceError ResourceProfile)
        → resolve_profile ctx.profiles request ≡ r
        → Claim
    go (ok profile) e = admitted profile e (admit ctx request profile) refl
    go (err x) e = absurd (ground (arith, h, e))

-- What a profile reports as available is what is neither reserved nor utilized.
abbrev pub IsBalanced : ResourceProfile → Type 0
IsBalanced p = p.available_capacity ≡ p.maximum_capacity - p.reserved_capacity - p.utilized_capacity

-- An allocation that is applied to a profile and released again leaves its capacities as they were, if
-- they were balanced.
pub release-apply :
    (p : ResourceProfile) (a : Allocation) (applied_at released_at : ℕ)
    → IsBalanced p
    → let q =
        release_allocation_from_profile
          (apply_allocation_to_profile p a applied_at)
          a
          released_at in
      (q.utilized_capacity ≡ p.utilized_capacity)
      × (q.available_capacity ≡ p.available_capacity)
      × (q.reserved_capacity ≡ p.reserved_capacity)
unfolding release_allocation_from_profile apply_allocation_to_profile
release-apply p a applied_at released_at h = (omega arith, omega (arith, h), refl)
