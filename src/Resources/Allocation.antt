-- ===== src/Resources/Allocation.antt =====
-- core/resource_authority/src/allocation.ts, without `selectCandidate`, whose order is that of
-- `localeCompare`. `fresh` is what `randomUUID` gives.
pub mod Capacity
use imip.Base.{
  ℕ, ◌+◌, ◌-◌, Bool, true, false, not, ◌&&◌, ◌||◌, String, List, [], ◌∷◌, Option, none, some,
  filter, find, any, length, ltb, ◌==◌, ◌===◌, if◌then◌else◌, Result, ok, err, throw_if, or_throw,
  ◌>>=◌, ◌>>◌,
}
use imip.Resources.Types.{
  ResourceProfile, ResourceState, Reservation, Allocation, AllocationRequest, AllocationMode,
  AllocationState, ResourceError, double_allocation, has_allocations, capacity_overcommit,
}
use imip.Resources.Availability.{evaluate_availability, is_running, is_exclusive}

pub record AllocationEngineContext : Type 0 where
  pub profiles : List ResourceProfile
  pub reservations : List Reservation
  pub allocations : List Allocation
  pub power : String → Bool
  pub thermal : String → Bool
  pub now : ℕ

-- An id that is absent or `""` names nothing.
abbrev pub named : Option String → Option String
named none = none
named (some id) = if id === "" then none else some id

unfoldable pub resolve_profile :
    List ResourceProfile → AllocationRequest → Result ResourceError ResourceProfile
resolve_profile profiles request = do
  id ← or_throw (named request.resource_id) (capacity_overcommit "unknown" request.capacity 0 0)
  or_throw (find (λ p. p.resource_id === id) profiles) (capacity_overcommit id request.capacity 0 0)

abbrev pub running_on : String → List Allocation → List Allocation
running_on id = filter (λ a. a.resource_id === id && is_running a.state)

abbrev pub reserved_on : String → List Reservation → List Reservation
reserved_on id = filter (λ r. r.resource_id === id)

abbrev pub mode_allows_sharing : AllocationMode → Bool
mode_allows_sharing AllocationMode.shared = true
mode_allows_sharing AllocationMode.partial = true
mode_allows_sharing _ = false

abbrev pub state_for : AllocationMode → AllocationState
state_for AllocationMode.temporary = AllocationState.pending
state_for _ = AllocationState.active

-- The tests of `allocate` on the resolved profile.
unfoldable pub admit :
    AllocationEngineContext → AllocationRequest → ResourceProfile → Result ResourceError (Unit {0})
admit ctx request profile = do
  let existing = running_on profile.resource_id ctx.allocations
  throw_if (is_exclusive request.mode && any (λ a. is_exclusive a.mode) existing)
      (double_allocation profile.resource_id)
  throw_if (is_exclusive request.mode && ltb 0 (length existing))
      (has_allocations profile.resource_id)
  throw_if
      (ltb 0 (
        length (
          evaluate_availability ctx.power ctx.thermal profile
            (reserved_on profile.resource_id ctx.reservations) existing request.capacity)))
      (capacity_overcommit profile.resource_id request.capacity profile.maximum_capacity
        (profile.reserved_capacity + profile.utilized_capacity))
  throw_if (not (mode_allows_sharing request.mode) && ltb profile.maximum_capacity request.capacity)
      (capacity_overcommit profile.resource_id request.capacity profile.maximum_capacity 0)

unfoldable pub allocate :
    String → AllocationEngineContext → AllocationRequest → Result ResourceError Allocation
unfolding resolve_profile admit
allocate fresh ctx request = do
  profile ← resolve_profile ctx.profiles request
  admit ctx request profile
  ok (record {
    id = fresh;
    resource_id = profile.resource_id;
    owner = request.owner;
    requesting_authority = request.requesting_authority;
    mode = request.mode;
    capacity = request.capacity;
    lease_start = ctx.now;
    lease_expiration = request.lease_expiration;
    state = state_for request.mode;
  })

abbrev is_available : ResourceState → Bool
is_available ResourceState.available = true
is_available _ = false

unfoldable pub apply_allocation_to_profile : ResourceProfile → Allocation → ℕ → ResourceProfile
apply_allocation_to_profile profile allocation now =
    let utilized = profile.utilized_capacity + allocation.capacity in
    record profile {
      utilized_capacity = utilized;
      available_capacity = profile.maximum_capacity - profile.reserved_capacity - utilized;
      current_owner = some allocation.owner;
      requesting_authority = some allocation.requesting_authority;
      state =
          if is_exclusive allocation.mode
          then ResourceState.allocated
          else if is_available profile.state
          then ResourceState.active
          else profile.state;
      last_updated = now;
    }

unfoldable pub release_allocation_from_profile : ResourceProfile → Allocation → ℕ → ResourceProfile
release_allocation_from_profile profile allocation now =
    let utilized = profile.utilized_capacity - allocation.capacity in
    record profile {
      utilized_capacity = utilized;
      available_capacity = profile.maximum_capacity - profile.reserved_capacity - utilized;
      current_owner = none;
      requesting_authority = none;
      state = ResourceState.released;
      last_updated = now;
    }

unfoldable pub is_allocation_expired : Allocation → ℕ → Bool
is_allocation_expired allocation now = elim allocation.lease_expiration [
  | none ↦ false
  | some expiration ↦ not (ltb now expiration)
]
