-- ===== src/Resources/Authority/Requests.antt =====
-- core/resource_authority/src/ResourceAuthority.ts: `requestReservation` and `requestAllocation`.
use imip.Base.{ℕ, String, [], ◌∷◌, ◌++◌, Option, none, some, Result, ok, err}
use imip.Base.Actions.{◌>>=◌, ◌>>◌, lift, change, return}
use imip.Resources.Types.{
  ResourceProfile, Reservation, ReservationRequest, Allocation, AllocationRequest, ResourceError,
  no_viable_resource, reservation_created, allocation_created, reservation, allocation,
  HistoryAction, resource_reserved, resource_allocated, resource_ownership_changed,
}
use imip.Resources.Allocation.{
  AllocationEngineContext, named, allocate, apply_allocation_to_profile,
}
use imip.Resources.Reservation.{apply_reservation_to_profile}
use imip.Resources.Candidates.{select_allocation_candidate, select_reservation_candidate, create}
use imip.Resources.Ownership
use imip.Resources.Ownership.{Ownerships}
use imip.Resources.Registry.{all_profiles}
use imip.Resources.Authority.{
  ResourceAuthority, ResourceAuthorityOptions, Method, upsert, require_profile, publish,
  record_audit, append_history, publish_utilization_update,
}

module _ (now : ℕ) (options : ResourceAuthorityOptions) where
  unfoldable pub engine_ctx : ResourceAuthority → AllocationEngineContext
  unfolding all_profiles
  engine_ctx s = record {
    profiles = all_profiles options.precedes s.registry;
    reservations = s.reservations;
    allocations = s.allocations;
    power = options.power;
    thermal = options.thermal;
    now = now;
  }

  abbrev chosen : {A : Type 0} → Option ResourceProfile → (String → A) → Result ResourceError A
  chosen none f = err no_viable_resource
  chosen (some p) f = ok (f p.resource_id)

  abbrev pub resolve_reservation :
      AllocationEngineContext
      → ReservationRequest
      → Option String
      → Result ResourceError ReservationRequest
  resolve_reservation ctx request none =
      chosen (select_reservation_candidate options.precedes ctx request)
        (λ id. record request { resource_id = some id })
  resolve_reservation ctx request (some id) = ok request

  abbrev pub resolve_allocation :
      AllocationEngineContext
      → AllocationRequest
      → Option String
      → Result ResourceError AllocationRequest
  resolve_allocation ctx request none =
      chosen (select_allocation_candidate options.precedes ctx request)
        (λ id. record request { resource_id = some id })
  resolve_allocation ctx request (some id) = ok request

  unfoldable pub push_reservation : Reservation → Method Reservation
  push_reservation r =
      change (λ s. record s { reservations = s.reservations ++ r ∷ [] }) >> return r

  unfoldable pub push_allocation : Allocation → Method Allocation
  push_allocation a = change (λ s. record s { allocations = s.allocations ++ a ∷ [] }) >> return a

  unfoldable pub enter_reservation : String → ReservationRequest → Method Reservation
  unfolding engine_ctx
  enter_reservation fresh request = λ s.
      (lift (resolve_reservation (engine_ctx s) request (named request.resource_id)) >>= λ resolved.
      lift (create options.precedes (engine_ctx s) fresh resolved) >>= push_reservation)
        s

  unfoldable pub enter_allocation : String → AllocationRequest → Method Allocation
  unfolding engine_ctx
  enter_allocation fresh request = λ s.
      (lift (resolve_allocation (engine_ctx s) request (named request.resource_id)) >>= λ resolved.
      lift (allocate fresh (engine_ctx s) resolved) >>= push_allocation)
        s

  unfoldable pub request_reservation : String → ReservationRequest → Method Reservation
  request_reservation fresh request = do
    r ← enter_reservation fresh request
    profile ← require_profile r.resource_id
    upsert (apply_reservation_to_profile profile r now)
    append_history now r.resource_id (reservation r.id) HistoryAction.created
    record_audit now r.resource_id (reservation_created r.id) none
        (some request.requesting_authority)
    publish (resource_reserved r.resource_id r.id)
    publish_utilization_update now r.resource_id
    return r

  -- What follows once the allocation is entered.
  unfoldable pub finish_allocation : String → Allocation → Method Allocation
  finish_allocation authority a = do
    profile ← require_profile a.resource_id
    upsert (apply_allocation_to_profile profile a now)
    change (λ s. record s {
      ownership = Ownership.establish a.resource_id a.owner now a.lease_expiration s.ownership;
    })
    append_history now a.resource_id (allocation a.id) HistoryAction.created
    record_audit now a.resource_id (allocation_created a.id) none (some authority)
    publish (resource_allocated a.resource_id a.id)
    publish (resource_ownership_changed a.resource_id (some a.owner))
    publish_utilization_update now a.resource_id
    return a

  unfoldable pub request_allocation : String → AllocationRequest → Method Allocation
  request_allocation fresh request = do
    a ← enter_allocation fresh request
    finish_allocation request.requesting_authority a
