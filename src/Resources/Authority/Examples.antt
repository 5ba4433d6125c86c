-- ===== src/Resources/Authority/Examples.antt =====
-- Calls of the resource authority, on one processor pool of eight units.
use mathlib.Core.Option.{some-injective}
use imip.Base.{
  All, find, subst, ◌===◌, ◌≤◌, ◌≡◌, refl, [], ◌∷◌, none, some, true, false, err, map, str_discrete,
}
use imip.Base.Dict.{get, put, values}
use imip.Base.Actions.{for_each, Ends, continue, lift}
use imip.Resources.Types.{
  ResourceState, Allocation, ResourceProfile, AllocationState, double_allocation,
}
use imip.Resources.Lifecycle.{assert_resource_state_transition, can_transition}
use imip.Resources.Availability.{is_running, evaluate_availability, compute_effective_available}
use imip.Resources.Allocation.{
  resolve_profile, admit, allocate, apply_allocation_to_profile, release_allocation_from_profile,
}
use imip.Resources.Reservation.{expire_reservations, release_reservation_from_profile}
use imip.Resources.Candidates.{sort_candidates_by_resource_id, sort, insert_sorted}
use imip.Resources.Registry
use imip.Resources.Registry.{all_profiles}
use imip.Resources.Ownership
use imip.Resources.Examples.{pool, request, granted, booked}
use imip.Resources.Authority.{
  ResourceAuthority, ResourceAuthorityOptions, find_allocation, mark_allocation, transition_state,
  find_reservation, mark_reservation, require_profile, upsert, append_history, record_audit,
  publish, publish_utilization_update,
}
use imip.Resources.Authority.Requests.{
  engine_ctx, push_allocation, enter_allocation, finish_allocation, request_allocation,
}
use imip.Resources.Authority.Releases.{
  activate, release, finish_activation, release_allocation, release_reservation, release_ownership,
  make_available, expire, expire_one,
}
use imip.Resources.Authority.Within.Taken.{taken_of}
use imip.Resources.Authority.Within.Forecasts.{IsOther, forecast_of}
use imip.Resources.Authority.Within.Runs.{here, next, allocated, activated, no_overcommit}
use imip.Resources.Authority.Atomic.{IsGranted, request_allocation-IsAtomic}

abbrev options : ResourceAuthorityOptions
options = record {
  precedes = λ s t. true;
  power = λ id. false;
  thermal = λ id. false;
  power_ref = λ id. none;
  thermal_ref = λ id. none;
}

abbrev free : ResourceProfile
free = record pool { available_capacity = 8; reserved_capacity = 0 }

abbrev started : ResourceAuthority
started = record {
  registry = ("pool", free) ∷ [];
  events = [];
  audit = [];
  ownership = [];
  history = [];
  reservations = [];
  allocations = [];
}

abbrev between : ResourceAuthority
between = (request_allocation 10 options "a1" request started).0

abbrev activated_pool : ResourceProfile
activated_pool = record free {
  current_owner = some "Miner";
  requesting_authority = some "Scheduler";
  state = ResourceState.active;
  available_capacity = 3;
  utilized_capacity = 5;
  last_updated = 15;
}

abbrev running : ResourceAuthority
running = (activate 15 "a1" "Operator" between).0

-- The pool is allocated to one owner alone, so the second request is refused.
abbrev after : ResourceAuthority
after = (request_allocation 20 options "a2" request running).0

after-pool : get "pool" after.registry ≡ some activated_pool
unfolding request_allocation enter_allocation finish_allocation continue lift engine_ctx
    push_allocation require_profile upsert append_history record_audit publish
    publish_utilization_update allocate resolve_profile admit evaluate_availability
    compute_effective_available all_profiles sort_candidates_by_resource_id sort insert_sorted
    Registry.upsert Registry.require get put str_discrete apply_allocation_to_profile activate
    mark_allocation find_allocation finish_activation transition_state
    assert_resource_state_transition can_transition
after-pool = refl

refused : (request_allocation 20 options "a2" request running).1 ≡ err (double_allocation "pool")
unfolding request_allocation enter_allocation finish_allocation continue lift engine_ctx
    push_allocation require_profile upsert append_history record_audit publish
    publish_utilization_update allocate resolve_profile admit evaluate_availability
    compute_effective_available all_profiles sort_candidates_by_resource_id sort insert_sorted
    Registry.upsert Registry.require get put str_discrete apply_allocation_to_profile activate
    mark_allocation find_allocation finish_activation transition_state
    assert_resource_state_transition can_transition
refused = refl

a1-runs :
    (a : Allocation)
    → find (λ b. b.id === "a1") between.allocations ≡ some a
    → is_running a.state ≡ true
unfolding request_allocation enter_allocation finish_allocation continue lift engine_ctx
    push_allocation require_profile upsert append_history record_audit publish
    publish_utilization_update allocate resolve_profile admit evaluate_availability
    compute_effective_available all_profiles sort_candidates_by_resource_id sort insert_sorted
    Registry.upsert Registry.require get put str_discrete apply_allocation_to_profile
a1-runs a e = subst (λ x. is_running x.state ≡ true) (some-injective _ _ e) refl

no_overcommit_example :
    (taken_of after "pool" ≤ 8) × All IsOther (forecast_of after "pool" activated_pool 30).conflicts
unfolding get apply_allocation_to_profile
no_overcommit_example =
    no_overcommit options started after (refl, refl, tt) refl refl
      (next (next (next here (allocated 10 "a1" request)) (activated 15 "a1" "Operator"))
        (allocated 20 "a2" request))
      (((tt, tt), a1-runs), tt) "pool" activated_pool after-pool 30

request_allocation-IsAtomic_example :
    Ends
      (IsGranted 10 started)
      (λ e t. t ≡ started)
      (request_allocation 10 options "a1" request started)
unfolding get
request_allocation-IsAtomic_example =
    request_allocation-IsAtomic 10 options "a1" request started (refl, refl, tt)

-- An allocation that is over is activated: the call throws, and the allocation runs again.
abbrev over : ResourceAuthority
over = record started { allocations = record granted { state = AllocationState.released } ∷ [] }

abbrev revived : ResourceAuthority
revived = (activate 30 "a1" "Operator" over).0

revived-runs :
    (taken_of over "pool" ≡ 0)
    × (taken_of revived "pool" ≡ 5)
    × (get "pool" revived.registry ≡ some free)
unfolding get str_discrete activate continue find_allocation lift mark_allocation finish_activation
    require_profile Registry.require transition_state assert_resource_state_transition
    can_transition
revived-runs = (refl, refl, refl)

-- A call that releases an allocation and a reservation: the profile counts the allocation still.
abbrev both : ResourceAuthority
both = record between { reservations = booked ∷ [] }

abbrev neither : ResourceAuthority
neither = (release 40 "pool" "done" "Operator" (some "a1") (some "r1") both).0

neither-counts :
    (taken_of neither "pool" ≡ 0)
    × (map (λ p. p.utilized_capacity) (values neither.registry) ≡ 5 ∷ [])
unfolding request_allocation enter_allocation finish_allocation continue lift engine_ctx
    push_allocation require_profile upsert append_history record_audit publish
    publish_utilization_update allocate resolve_profile admit evaluate_availability
    compute_effective_available all_profiles sort_candidates_by_resource_id sort insert_sorted
    Registry.upsert Registry.require get put str_discrete apply_allocation_to_profile activate
    mark_allocation find_allocation finish_activation transition_state
    assert_resource_state_transition can_transition release release_allocation release_reservation
    release_ownership Ownership.release Ownership.establish make_available
    release_allocation_from_profile release_reservation_from_profile find_reservation
    mark_reservation
neither-counts = (refl, refl)

-- The reservation of a retired resource expires: the resource is available again.
abbrev retired : ResourceAuthority
retired = record started {
  registry = ("pool", record free { state = ResourceState.retired; reserved_capacity = 3 }) ∷ [];
  reservations = booked ∷ [];
}

retired-revived :
    map (λ p. p.state) (values (expire 200 retired).0.registry) ≡ ResourceState.available ∷ []
unfolding expire expire_one continue require_profile lift Registry.require upsert Registry.upsert
    release_reservation_from_profile record_audit publish append_history get put str_discrete
    for_each expire_reservations
retired-revived = refl
