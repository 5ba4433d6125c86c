-- ===== src/Resources/Availability.antt =====
-- core/resource_authority/src/availability.ts. The violations are values in place of texts, and the
-- reasons that are no violations are left out. `power` and `thermal` say whether the providers block a
-- piece of hardware.
use imip.Base.{
  ℕ, ◌-◌, Bool, true, false, ◌&&◌, String, List, [], ◌∷◌, ◌++◌, Option, none, some, filter, find,
  ltb, sum_by,
}
use imip.Resources.Types.{
  ResourceProfile, ResourceState, HealthStatus, Reservation, ReservationStatus, Allocation,
  AllocationMode, AllocationState,
}

pub data Violation : Type 0 where
  blocking_state : ResourceState → Violation
  faulted_health power_blocks thermal_blocks : Violation
  exclusively_held : String → Violation
  insufficient : ℕ → ℕ → Violation

abbrev pub blocking_states : ResourceState → Bool
blocking_states ResourceState.unavailable = true
blocking_states ResourceState.retired = true
blocking_states ResourceState.discovered = true
blocking_states _ = false

abbrev pub is_faulted : HealthStatus → Bool
is_faulted HealthStatus.faulted = true
is_faulted _ = false

abbrev pub is_active : ReservationStatus → Bool
is_active ReservationStatus.active = true
is_active _ = false

abbrev pub is_running : AllocationState → Bool
is_running AllocationState.active = true
is_running AllocationState.pending = true
is_running _ = false

abbrev pub is_exclusive : AllocationMode → Bool
is_exclusive AllocationMode.exclusive = true
is_exclusive _ = false

abbrev pub active_reservations : List Reservation → List Reservation
active_reservations = filter (λ r. is_active r.status)

abbrev pub active_allocations : List Allocation → List Allocation
active_allocations = filter (λ a. is_running a.state)

unfoldable pub compute_effective_available :
    ResourceProfile → List Reservation → List Allocation → ℕ
compute_effective_available profile reservations allocations =
    profile.maximum_capacity
    - sum_by (λ r. r.capacity) (active_reservations reservations)
    - sum_by (λ a. a.capacity) (active_allocations allocations)

abbrev when : Bool → Violation → List Violation
when true v = v ∷ []
when false v = []

-- The holder of an exclusive allocation blocks any request for more than nothing.
abbrev held : Option Allocation → ℕ → List Violation
held none requested = []
held (some a) requested = when (ltb 0 requested) (exclusively_held a.owner)

unfoldable pub evaluate_availability :
    (String → Bool)
    → (String → Bool)
    → ResourceProfile
    → List Reservation
    → List Allocation
    → ℕ
    → List Violation
unfolding compute_effective_available
evaluate_availability power thermal profile reservations allocations requested =
    let running = active_allocations allocations in
    let effective =
      compute_effective_available profile (active_reservations reservations) running in
    when (blocking_states profile.state) (blocking_state profile.state)
    ++ when (is_faulted profile.health_status) faulted_health
    ++ when (power profile.hardware_id) power_blocks
    ++ when (thermal profile.hardware_id) thermal_blocks
    ++ held (find (λ a. is_exclusive a.mode) running) requested
    ++ when (ltb 0 requested && ltb effective requested) (insufficient requested effective)
