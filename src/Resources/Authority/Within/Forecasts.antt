-- ===== src/Resources/Authority/Within/Forecasts.antt =====
-- A resource that is not overcommitted is not forecast to be.
use imip.Base.{
  ℕ, ◌+◌, ◌≤◌, ◌≡◌, ◌≢◌, refl, Bool, true, false, String, List, [], ◌∷◌, filter, ltb, All,
  All-append, Bool-cases, inl, inr, ◌===◌, length, sum_by, arith,
}
use imip.Resources.Types.{
  ResourceProfile, Reservation, Allocation, ForecastConflict, over_maximum, several_exclusive,
  CapacityForecast,
}
use imip.Resources.Availability.{active_reservations, active_allocations, is_exclusive}
use imip.Resources.Forecast.{only_if, against, all_against, compute_capacity_forecast}
use imip.Resources.Authority.{ResourceAuthority}
use imip.Resources.Authority.Within.Taken.{taken_of, running_of, reserved_of}

abbrev pub forecast_of : ResourceAuthority → String → ResourceProfile → ℕ → CapacityForecast
forecast_of s id p now =
    compute_capacity_forecast p (filter (λ a. a.resource_id === id) s.allocations)
      (filter (λ r. r.resource_id === id) s.reservations) now

abbrev pub IsOther : ForecastConflict → Type 0
IsOther c = c ≢ over_maximum

against-IsOther : (r : Reservation) (as' : List Allocation) → All IsOther (against r as')
against-IsOther r [] = tt
against-IsOther r (a ∷ as') = elim (Bool-cases (r.owner === a.owner)) [
  | inl e ↦ rw e (against-IsOther r as')
  | inr e ↦ rw e ((λ f. cc), against-IsOther r as')
]

all_against-IsOther :
    (rs : List Reservation) (as' : List Allocation) → All IsOther (all_against rs as')
all_against-IsOther [] as' = tt
all_against-IsOther (r ∷ rs) as' =
    All-append IsOther (against r as') _ (against-IsOther r as') (all_against-IsOther rs as')

several-IsOther : (b : Bool) → All IsOther (only_if b several_exclusive)
several-IsOther true = ((λ f. cc), tt)
several-IsOther false = tt

-- What runs of the allocations on a resource is what runs on it.
running_of-again :
    (id : String) (as' : List Allocation)
    → sum_by (λ a. a.capacity) (active_allocations (filter (λ a. a.resource_id === id) as'))
      ≡ running_of id as'
running_of-again id [] = refl
running_of-again id (a ∷ as') = ground (arith, running_of-again id as')

pub forecast-IsOther :
    (s : ResourceAuthority) (id : String) (p : ResourceProfile) (now : ℕ)
    → taken_of s id ≤ p.maximum_capacity
    → All IsOther (forecast_of s id p now).conflicts
unfolding compute_capacity_forecast
forecast-IsOther s id p now h =
    let active = active_allocations (filter (λ a. a.resource_id === id) s.allocations) in
    let reserving = active_reservations (filter (λ r. r.resource_id === id) s.reservations) in
    let several = ltb 1 (length (filter (λ a. is_exclusive a.mode) active)) in
    let fits : ltb p.maximum_capacity
          (reserved_of id s.reservations + sum_by (λ a. a.capacity) active)
        ≡ false =
      ground (arith, h, running_of-again id s.allocations) in
    rw fits (
      All-append IsOther (only_if several several_exclusive) (all_against reserving active)
        (several-IsOther several) (all_against-IsOther reserving active))
