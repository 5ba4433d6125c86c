-- ===== src/Resources/Forecast.antt =====
-- core/resource_authority/src/forecast.ts. The texts of conflicts and opportunities are values; a ratio is
-- compared by multiplying out. Times are numbers, whose order is that of the texts of dates.
use imip.Base.{
  ℕ, ◌+◌, ◌-◌, ◌*◌, Bool, true, false, not, ◌&&◌, List, [], ◌∷◌, ◌++◌, Option, none, some, map,
  filter, length, ltb, leb, sum_by, ◌==◌, ◌===◌, if◌then◌else◌, decided,
}
use imip.Resources.Types.{
  ResourceProfile, ResourceState, HealthStatus, Reservation, Allocation, AllocationState,
  CapacityForecast, ForecastConflict, over_maximum, several_exclusive, reserved_against,
  underutilized, spare_capacity,
}
use imip.Resources.Lifecycle.{ResourceState-discrete}
use imip.Resources.Availability.{active_reservations, active_allocations, is_exclusive}
use imip.Resources.Candidates.{sort}

abbrev is_active : AllocationState → Bool
is_active AllocationState.active = true
is_active _ = false

abbrev is_healthy : HealthStatus → Bool
is_healthy HealthStatus.healthy = true
is_healthy _ = false

abbrev pub only_if : {A : Type 0} → Bool → A → List A
only_if b x = if b then x ∷ [] else []

abbrev known : List (Option ℕ) → List ℕ
known [] = []
known (none ∷ es) = known es
known (some e ∷ es) = e ∷ known es

abbrev nearest : List ℕ → Option ℕ
nearest [] = none
nearest (e ∷ es) = some e

unfoldable pub project_exhaustion : ResourceProfile → List Allocation → ℕ → Option ℕ
unfolding sort
project_exhaustion profile allocations now =
    let active = filter (λ a. is_active a.state) allocations in
    if length active == 0
    then none
    else if leb profile.maximum_capacity (sum_by (λ a. a.capacity) active)
    then some now
    else nearest (sort leb (known (map (λ a. a.lease_expiration) active)))

-- Every reservation against every allocation of another owner.
abbrev pub against : Reservation → List Allocation → List ForecastConflict
against r allocations =
    map (λ a. reserved_against r.id a.id) (filter (λ a. not (r.owner === a.owner)) allocations)

abbrev pub all_against : List Reservation → List Allocation → List ForecastConflict
all_against [] allocations = []
all_against (r ∷ rs) allocations = against r allocations ++ all_against rs allocations

unfoldable pub compute_capacity_forecast :
    ResourceProfile → List Allocation → List Reservation → ℕ → CapacityForecast
unfolding project_exhaustion
compute_capacity_forecast profile allocations reservations forecasted_at =
    let active = active_allocations allocations in
    let reserving = active_reservations reservations in
    let utilized = sum_by (λ a. a.capacity) active in
    let reserved = sum_by (λ r. r.capacity) reserving in
    let available = profile.maximum_capacity - reserved - utilized in
    record {
      resource_id = profile.resource_id;
      projected_exhaustion_at = project_exhaustion profile active forecasted_at;
      available_capacity = available;
      reserved_capacity = reserved;
      utilized_capacity = utilized;
      maximum_capacity = profile.maximum_capacity;
      conflicts =
          only_if (ltb profile.maximum_capacity (reserved + utilized)) over_maximum
          ++ only_if (ltb 1 (length (filter (λ a. is_exclusive a.mode) active))) several_exclusive
          ++ all_against reserving active;
      idle_opportunities =
          only_if
            ((if ltb 0 profile.maximum_capacity
                then ltb (utilized * 4) profile.maximum_capacity
                else true)
              && is_healthy profile.health_status
              && decided (ResourceState-discrete profile.state ResourceState.available))
            underutilized
          ++ only_if
              (ltb profile.maximum_capacity (available * 2)
                && decided (ResourceState-discrete profile.state ResourceState.active))
              spare_capacity;
      forecasted_at = forecasted_at;
    }

unfoldable pub compute_fleet_forecast :
    List ResourceProfile → List Allocation → List Reservation → ℕ → List CapacityForecast
unfolding compute_capacity_forecast
compute_fleet_forecast profiles allocations reservations forecasted_at =
    map
      (λ p.
        compute_capacity_forecast p (filter (λ a. a.resource_id === p.resource_id) allocations)
          (filter (λ r. r.resource_id === p.resource_id) reservations) forecasted_at)
      profiles
