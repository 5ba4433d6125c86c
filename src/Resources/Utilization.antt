-- ===== src/Resources/Utilization.antt =====
-- core/resource_authority/src/utilization.ts.
use imip.Base.{ℕ, ◌-◌, ◌*◌, List, map, filter, ltb, sum_by, ◌===◌, if◌then◌else◌}
use imip.Resources.Types.{ResourceProfile, Reservation, Allocation, UtilizationMetrics}
use imip.Resources.Availability.{active_reservations, active_allocations}

unfoldable pub compute_utilization :
    ResourceProfile → List Allocation → List Reservation → ℕ → UtilizationMetrics
compute_utilization profile allocations reservations recorded_at =
    let utilized = sum_by (λ a. a.capacity) (active_allocations allocations) in
    let reserved = sum_by (λ r. r.capacity) (active_reservations reservations) in
    record {
      resource_id = profile.resource_id;
      utilized_capacity = utilized;
      available_capacity = profile.maximum_capacity - reserved - utilized;
      reserved_capacity = reserved;
      maximum_capacity = profile.maximum_capacity;
      utilization_percent =
          if ltb 0 profile.maximum_capacity
          then (utilized * 100, profile.maximum_capacity)
          else (0, 1);
      recorded_at = recorded_at;
    }

unfoldable pub compute_fleet_utilization :
    List ResourceProfile → List Allocation → List Reservation → ℕ → List UtilizationMetrics
unfolding compute_utilization
compute_fleet_utilization profiles allocations reservations recorded_at =
    map
      (λ p.
        compute_utilization p (filter (λ a. a.resource_id === p.resource_id) allocations)
          (filter (λ r. r.resource_id === p.resource_id) reservations) recorded_at)
      profiles
