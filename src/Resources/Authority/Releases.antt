-- ===== src/Resources/Authority/Releases.antt =====
-- core/resource_authority/src/ResourceAuthority.ts: `activate`, `release` and `expireReservations`.
use imip.Base.{
  ℕ, not, String, List, Option, none, some, map, includes, ◌===◌, if◌then◌else◌, decided,
}
use imip.Base.Actions.{◌>>=◌, ◌>>◌, lift, change, gets, return, for_each}
use imip.Resources.Types.{
  ResourceState, ResourceProfile, Reservation, ReservationStatus, Allocation, AllocationState,
  state_transition, reservation_expired, reservation_released, allocation_activated,
  allocation_released, reservation, allocation, HistoryAction, resource_available,
  resource_reservation_expired, resource_released, resource_ownership_changed,
}
use imip.Resources.Lifecycle.{ResourceState-discrete}
use imip.Resources.Allocation.{named, release_allocation_from_profile}
use imip.Resources.Reservation.{release_reservation_from_profile, expire_reservations}
use imip.Resources.Ownership
use imip.Resources.Ownership.{Ownerships}
use imip.Resources.Authority.{
  Method, upsert, require_profile, publish, find_allocation, find_reservation, mark_allocation,
  mark_reservation, record_audit, append_history, publish_utilization_update, transition_state,
}

module _ (now : ℕ) where
  unfoldable pub finish_activation : String → String → Allocation → Method Allocation
  finish_activation allocation_id authority a = do
    profile ← require_profile a.resource_id
    moved ← transition_state now profile ResourceState.active "allocation-activated" authority
    record_audit now a.resource_id (allocation_activated allocation_id) none (some authority)
    publish_utilization_update now a.resource_id
    return (record a { state = AllocationState.active })

  -- The allocation is marked before the state of its resource is tested.
  unfoldable pub activate : String → String → Method Allocation
  activate allocation_id authority = do
    a ← find_allocation allocation_id
    mark_allocation allocation_id AllocationState.active
    finish_activation allocation_id authority a

  unfoldable pub release_ownership : String → String → String → Method (Unit {0})
  release_ownership resource_id reason authority = λ s.
      (lift (Ownership.release resource_id now reason authority s.ownership) >>= λ more.
      change (λ s'. record s' { ownership = more }))
        s

  module _ (resource_id reason authority : String) where
    unfoldable pub release_allocation : ResourceProfile → Option String → Method (Unit {0})
    release_allocation profile none = return tt
    release_allocation profile (some id) = do
      a ← find_allocation id
      mark_allocation id AllocationState.released
      upsert (release_allocation_from_profile profile a now)
      current ← require_profile resource_id
      moved ← transition_state now current ResourceState.released reason authority
      release_ownership resource_id reason authority
      append_history now resource_id (allocation a.id) HistoryAction.released
      record_audit now resource_id (allocation_released a.id) (some reason) (some authority)
      publish (resource_released resource_id a.id)
      publish (resource_ownership_changed resource_id none)

    -- `profile` is the one that was read before the allocation was released.
    unfoldable pub release_reservation : ResourceProfile → Option String → Method (Unit {0})
    release_reservation profile none = return tt
    release_reservation profile (some id) = do
      r ← find_reservation id
      mark_reservation id ReservationStatus.released
      let updated = release_reservation_from_profile profile r now
      upsert updated
      if not (decided (ResourceState-discrete updated.state profile.state))
          then record_audit now resource_id (state_transition profile.state updated.state)
              (some reason) (some authority)
          else return tt
      append_history now resource_id (reservation r.id) HistoryAction.released
      record_audit now resource_id (reservation_released r.id) (some reason) (some authority)

    unfoldable pub make_available : Method (Unit {0})
    make_available = do
      current ← require_profile resource_id
      if decided (ResourceState-discrete current.state ResourceState.released)
          then (do
            moved ←
                transition_state now current ResourceState.available "post-release-available"
                  authority
            again ← require_profile resource_id
            upsert again
            publish (resource_available resource_id))
          else return tt

    unfoldable pub release : Option String → Option String → Method (Unit {0})
    release allocation_id reservation_id = do
      profile ← require_profile resource_id
      release_allocation profile (named allocation_id)
      release_reservation profile (named reservation_id)
      make_available
      publish_utilization_update now resource_id

  unfoldable pub expire_one : List String → Reservation → Method (Unit {0})
  expire_one ids r =
      if includes ids r.id
      then (do
        change (λ s. record s {
          reservations =
              map
                (λ q. if q.id === r.id then record q { status = ReservationStatus.expired } else q)
                s.reservations;
        })
        profile ← require_profile r.resource_id
        upsert (release_reservation_from_profile profile r now)
        record_audit now r.resource_id (reservation_expired r.id) none none
        publish (resource_reservation_expired r.resource_id r.id)
        append_history now r.resource_id (reservation r.id) HistoryAction.expired)
      else return tt

  unfoldable pub expire : Method (List Reservation)
  expire = do
    rs ← gets (λ s. s.reservations)
    let expired = expire_reservations rs now
    for_each rs (expire_one (map (λ r. r.id) expired))
    return expired
