-- ===== src/Resources/Examples.antt =====
-- Runs of the resource authority: one processor pool of eight units.
use imip.Base.{
  List, ◌≡◌, refl, ◌↔◌, false, [], ◌∷◌, none, some, ok, All, ltb, if◌then◌else◌, str_discrete,
}
use imip.Base.Dict.{get}
use imip.Resources.Ownership.{OwnershipRecord, Ownerships}
use imip.Resources.Ownership.History.{
  Change, transferring, releasing, change_all, IsOutcome, change_all-IsOutcome,
}
use imip.Resources.Types.{
  ResourceType, ResourceState, HealthStatus, AllocationMode, AllocationState, ReservationStatus,
  ResourceProfile, Reservation, Allocation, AllocationRequest, ReservationRequest,
}
use imip.Resources.Availability.{evaluate_availability, compute_effective_available}
use imip.Resources.Allocation.{
  AllocationEngineContext, resolve_profile, admit, allocate, apply_allocation_to_profile,
  release_allocation_from_profile,
}
use imip.Resources.Allocation.Capacity.{IsAdmissible, allocate-IsAdmissible, release-apply}
use imip.Resources.Reservation.{
  detect_reservation_conflict, apply_reservation_to_profile, release_reservation_from_profile,
}
use imip.Resources.Reservation.Rivals.{
  GivesWay, detect_reservation_conflict_iff, release-apply_reservation,
}

abbrev pub pool : ResourceProfile
pool = record {
  resource_id = "pool";
  resource_type = ResourceType.cpu_pool;
  hardware_id = "cpu-0";
  current_owner = none;
  requesting_authority = none;
  state = ResourceState.available;
  available_capacity = 5;
  reserved_capacity = 3;
  utilized_capacity = 0;
  maximum_capacity = 8;
  capability_refs = [];
  health_status = HealthStatus.healthy;
  power_profile_ref = none;
  thermal_profile_ref = none;
  last_updated = 1;
}

abbrev pub booked : Reservation
booked = record {
  id = "r1";
  resource_id = "pool";
  owner = "Miner";
  requesting_authority = "Scheduler";
  capacity = 3;
  starts_at = 0;
  expires_at = some 100;
  priority = 1;
  status = ReservationStatus.active;
}

abbrev context : AllocationEngineContext
context = record {
  profiles = pool ∷ [];
  reservations = booked ∷ [];
  allocations = [];
  power = λ id. false;
  thermal = λ id. false;
  now = 10;
}

abbrev pub request : AllocationRequest
request = record {
  resource_id = some "pool";
  resource_type = none;
  owner = "Miner";
  requesting_authority = "Scheduler";
  mode = AllocationMode.exclusive;
  capacity = 5;
  lease_expiration = none;
  capability_refs = [];
}

abbrev pub granted : Allocation
granted = record {
  id = "a1";
  resource_id = "pool";
  owner = "Miner";
  requesting_authority = "Scheduler";
  mode = AllocationMode.exclusive;
  capacity = 5;
  lease_start = 10;
  lease_expiration = none;
  state = AllocationState.active;
}

request-granted : allocate "a1" context request ≡ ok granted
unfolding allocate resolve_profile admit evaluate_availability compute_effective_available
    str_discrete
request-granted = refl

allocate-IsAdmissible_example :
    (profile : ResourceProfile) × (resolve_profile context.profiles request ≡ ok profile)
    × (granted.resource_id ≡ profile.resource_id)
    × (granted.capacity ≡ request.capacity)
    × IsAdmissible context request profile
allocate-IsAdmissible_example = allocate-IsAdmissible "a1" context request granted request-granted

release-apply_example :
    let q =
      release_allocation_from_profile (apply_allocation_to_profile pool granted 10) granted 20 in
    (q.utilized_capacity ≡ 0) × (q.available_capacity ≡ 5) × (q.reserved_capacity ≡ 3)
release-apply_example = release-apply pool granted 10 20 refl

abbrev rival : ReservationRequest
rival = record {
  resource_id = some "pool";
  resource_type = none;
  owner = "Benchmark";
  requesting_authority = "Scheduler";
  capacity = 2;
  starts_at = none;
  expires_at = some 50;
  priority = some 1;
  capability_refs = [];
}

detect_reservation_conflict_iff_example :
    (detect_reservation_conflict (booked ∷ []) rival 10 ≡ none)
    ↔ All (GivesWay rival 10) (booked ∷ [])
detect_reservation_conflict_iff_example = detect_reservation_conflict_iff (booked ∷ []) rival 10

release-apply_reservation_example :
    let q =
      release_reservation_from_profile (apply_reservation_to_profile pool booked 10) booked 20 in
    (q.reserved_capacity ≡ 3)
    × (q.available_capacity ≡ 5)
    × (q.state ≡ (if ltb 0 3 then ResourceState.reserved else ResourceState.available))
release-apply_reservation_example = release-apply_reservation pool booked 10 20 refl

abbrev owned : OwnershipRecord
owned = record {
  resource_id = "pool";
  owner = "Miner";
  acquired_at = 1;
  lease_expiration = none;
  renewal_history = [];
  release_history = [];
}

abbrev changes : List Change
changes = releasing 5 "done" "Miner" ∷ transferring "Benchmark" 6 "test run" ∷ []

pool-owned : get "pool" (("pool", owned) ∷ []) ≡ some owned
unfolding get str_discrete
pool-owned = refl

change_all-IsOutcome_example :
    (more : Ownerships) × (change_all "pool" changes (("pool", owned) ∷ []) ≡ ok more)
    × IsOutcome "pool" changes owned (("pool", owned) ∷ []) more
change_all-IsOutcome_example =
    change_all-IsOutcome "pool" changes (("pool", owned) ∷ []) owned pool-owned
