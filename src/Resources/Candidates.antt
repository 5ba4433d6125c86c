-- ===== src/Resources/Candidates.antt =====
-- core/resource_authority/src/allocation.ts, reservation.ts and availability.ts: the choice of a resource
-- for a request that names none. `precedes` is whether one text does not stand behind another in the
-- order of `localeCompare`; `sort` is stable, so insertion gives its result.
use imip.Base.{
  Bool, true, false, not, ◌&&◌, String, List, [], ◌∷◌, Option, none, some, filter, find, all,
  includes, length, ◌==◌, ◌===◌, if◌then◌else◌, decided, Result, or_throw, ◌>>=◌,
}
use imip.Resources.Types.{
  ResourceType, ResourceProfile, ResourceState, AllocationRequest, Reservation, ReservationRequest,
  ResourceError, reservation_conflict, none_viable, resource_unknown,
}
use imip.Resources.Availability.{evaluate_availability}
use imip.Resources.Allocation.{AllocationEngineContext, named, running_on, reserved_on}
use imip.Resources.Reservation.{conflicts, active_on, detect_reservation_conflict, create_on}

unfoldable pub ResourceType-discrete : Discrete ResourceType
ResourceType-discrete = hlevel

module _ {A : Type 0} (before : A → A → Bool) where
  unfoldable pub insert_sorted : A → List A → List A
  insert_sorted x [] = x ∷ []
  insert_sorted x (y ∷ ys) =
      let rest = insert_sorted x ys in if before x y then x ∷ y ∷ ys else y ∷ rest

  unfoldable pub sort : List A → List A
  unfolding insert_sorted
  sort [] = []
  sort (x ∷ xs) = insert_sorted x (sort xs)

unfoldable pub sort_candidates_by_resource_id :
    (String → String → Bool) → List ResourceProfile → List ResourceProfile
unfolding sort
sort_candidates_by_resource_id precedes = sort (λ a b. precedes a.resource_id b.resource_id)

-- What a request asks of a resource, if it asks anything.
abbrev has_id : Option String → ResourceProfile → Bool
has_id none p = true
has_id (some id) p = p.resource_id === id

abbrev has_type : Option ResourceType → ResourceProfile → Bool
has_type none p = true
has_type (some t) p = decided (ResourceType-discrete p.resource_type t)

abbrev has_refs : List String → ResourceProfile → Bool
has_refs refs p = all (includes p.capability_refs) refs

abbrev pub first : List ResourceProfile → Option ResourceProfile
first [] = none
first (p ∷ ps) = some p

abbrev may_allocate : ResourceState → Bool
may_allocate ResourceState.available = true
may_allocate ResourceState.reserved = true
may_allocate ResourceState.released = true
may_allocate _ = false

abbrev may_reserve : ResourceState → Bool
may_reserve ResourceState.available = true
may_reserve ResourceState.released = true
may_reserve _ = false

module _ (precedes : String → String → Bool) (ctx : AllocationEngineContext) where
  abbrev matching :
      (ResourceState → Bool)
      → Option String
      → Option ResourceType
      → List String
      → List ResourceProfile
  matching may id type refs =
      filter (λ p. may p.state && has_id (named id) p && has_type type p && has_refs refs p)
        ctx.profiles

  abbrev pub viable_allocation : AllocationRequest → ResourceProfile → Bool
  viable_allocation request p =
      length (
        evaluate_availability ctx.power ctx.thermal p (reserved_on p.resource_id ctx.reservations)
          (running_on p.resource_id ctx.allocations) request.capacity)
      == 0

  unfoldable pub select_allocation_candidate : AllocationRequest → Option ResourceProfile
  unfolding sort_candidates_by_resource_id
  select_allocation_candidate request = first (
      filter (viable_allocation request) (
        sort_candidates_by_resource_id precedes (
          matching may_allocate request.resource_id request.resource_type request.capability_refs)))

  abbrev pub viable_reservation : ReservationRequest → ResourceProfile → Bool
  viable_reservation request p =
      let existing = active_on p.resource_id ctx.reservations in
      not (conflicts (detect_reservation_conflict existing request ctx.now))
      && length (
          evaluate_availability ctx.power ctx.thermal p existing
            (running_on p.resource_id ctx.allocations) request.capacity)
        == 0

  unfoldable pub select_reservation_candidate : ReservationRequest → Option ResourceProfile
  unfolding sort_candidates_by_resource_id
  select_reservation_candidate request = first (
      filter (viable_reservation request) (
        sort_candidates_by_resource_id precedes
          (matching may_reserve request.resource_id request.resource_type request.capability_refs)))

  abbrev resolved : Option String → ReservationRequest → Result ResourceError ResourceProfile
  resolved none request =
      or_throw (select_reservation_candidate request) (reservation_conflict "unknown" none_viable)
  resolved (some id) request =
      or_throw (find (λ p. p.resource_id === id) ctx.profiles)
        (reservation_conflict id resource_unknown)

  unfoldable pub resolve_for_reservation : ReservationRequest → Result ResourceError ResourceProfile
  unfolding select_reservation_candidate
  resolve_for_reservation request = resolved (named request.resource_id) request

  unfoldable pub create : String → ReservationRequest → Result ResourceError Reservation
  unfolding resolve_for_reservation create_on
  create fresh request = do
    profile ← resolve_for_reservation request
    create_on fresh ctx request profile
