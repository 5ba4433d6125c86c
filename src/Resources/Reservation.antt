-- ===== src/Resources/Reservation.antt =====
-- core/resource_authority/src/reservation.ts, without the order of `localeCompare`, which is an
-- argument. The conflicts are values in place of texts.
pub mod Rivals
use imip.Base.{
  ℕ, ◌+◌, ◌-◌, Bool, true, false, not, ◌&&◌, String, List, [], ◌∷◌, Option, none, some, filter,
  length, ltb, ◌==◌, ◌===◌, if◌then◌else◌, Result, ok, err, throw_if, ◌>>=◌, ◌>>◌,
}
use imip.Resources.Types.{
  ResourceProfile, ResourceState, Reservation, ReservationRequest, ReservationStatus, ResourceError,
  Conflict, higher_priority, equal_priority, by_conflict, reservation_conflict, capacity_overcommit,
}
use imip.Resources.Availability.{evaluate_availability, is_active}
use imip.Resources.Allocation.{AllocationEngineContext, running_on}

-- `9999-12-31T23:59:59.999Z`, which stands for the end of a range without one.
abbrev pub end_of_time : ℕ
end_of_time = 253402300799999

abbrev pub or_else : Option ℕ → ℕ → ℕ
or_else none n = n
or_else (some m) n = m

unfoldable pub time_ranges_overlap : ℕ → Option ℕ → ℕ → Option ℕ → Bool
time_ranges_overlap start_a end_a start_b end_b =
    ltb start_a (or_else end_b end_of_time) && ltb start_b (or_else end_a end_of_time)

abbrev pub overlaps : Reservation → ReservationRequest → ℕ → Bool
overlaps r request now =
    time_ranges_overlap r.starts_at r.expires_at (or_else request.starts_at now) request.expires_at

unfoldable pub detect_reservation_conflict :
    List Reservation → ReservationRequest → ℕ → Option Conflict
unfolding time_ranges_overlap
detect_reservation_conflict [] request now = none
detect_reservation_conflict (r ∷ rs) request now =
    let rest = detect_reservation_conflict rs request now in
    if not (is_active r.status)
    then rest
    else if not (overlaps r request now)
    then rest
    else if ltb (or_else request.priority 0) r.priority
    then some (higher_priority r.id)
    else if r.priority == or_else request.priority 0 && not (r.owner === request.owner)
    then some (equal_priority r.id)
    else rest

abbrev pub refused_by : String → Option Conflict → Result ResourceError (Unit {0})
refused_by resource_id none = ok tt
refused_by resource_id (some c) = err (reservation_conflict resource_id (by_conflict c))

abbrev pub conflicts : Option Conflict → Bool
conflicts none = false
conflicts (some c) = true

abbrev pub active_on : String → List Reservation → List Reservation
active_on id = filter (λ r. r.resource_id === id && is_active r.status)

-- `create` on the profile that is resolved.
unfoldable pub create_on :
    String
    → AllocationEngineContext
    → ReservationRequest
    → ResourceProfile
    → Result ResourceError Reservation
create_on fresh ctx request profile = do
  let existing = active_on profile.resource_id ctx.reservations
  refused_by profile.resource_id (detect_reservation_conflict existing request ctx.now)
  throw_if
      (ltb 0 (
        length (
          evaluate_availability ctx.power ctx.thermal profile existing
            (running_on profile.resource_id ctx.allocations) request.capacity)))
      (capacity_overcommit profile.resource_id request.capacity profile.available_capacity 0)
  ok (record {
    id = fresh;
    resource_id = profile.resource_id;
    owner = request.owner;
    requesting_authority = request.requesting_authority;
    capacity = request.capacity;
    starts_at = or_else request.starts_at ctx.now;
    expires_at = request.expires_at;
    priority = or_else request.priority 0;
    status = ReservationStatus.active;
  })

abbrev is_over : Option ℕ → ℕ → Bool
is_over none now = false
is_over (some end) now = not (ltb now end)

unfoldable pub expire_reservations : List Reservation → ℕ → List Reservation
expire_reservations [] now = []
expire_reservations (r ∷ rs) now =
    let rest = expire_reservations rs now in
    if is_active r.status && is_over r.expires_at now
    then record r { status = ReservationStatus.expired } ∷ rest
    else rest

unfoldable pub apply_reservation_to_profile : ResourceProfile → Reservation → ℕ → ResourceProfile
apply_reservation_to_profile profile reservation now =
    let reserved = profile.reserved_capacity + reservation.capacity in
    record profile {
      reserved_capacity = reserved;
      available_capacity = profile.maximum_capacity - reserved - profile.utilized_capacity;
      state = ResourceState.reserved;
      last_updated = now;
    }

unfoldable pub release_reservation_from_profile :
    ResourceProfile → Reservation → ℕ → ResourceProfile
release_reservation_from_profile profile reservation now =
    let reserved = profile.reserved_capacity - reservation.capacity in
    record profile {
      reserved_capacity = reserved;
      available_capacity = profile.maximum_capacity - reserved - profile.utilized_capacity;
      state = if ltb 0 reserved then ResourceState.reserved else ResourceState.available;
      last_updated = now;
    }
