-- ===== src/Resources/Authority.antt =====
-- core/resource_authority/src/ResourceAuthority.ts: the state of the authority, and the small steps
-- of its methods. The providers and the order of `localeCompare` are options; the clock stands still during a
-- method, and `randomUUID` comes in as an argument. Listeners on the events are left out.
pub mod Requests
pub mod Releases
pub mod Within
pub mod Synchronisation
pub mod Atomic
mod Examples
use imip.Base.{
  ℕ, Bool, String, List, [], ◌∷◌, ◌++◌, Option, some, filter, find, ◌===◌, if◌then◌else◌, decided,
  or_throw,
}
use imip.Base.Actions.{Action, ◌>>=◌, ◌>>◌, lift, change, gets, return}
use imip.Resources.Types.{
  ResourceState, ResourceProfile, Reservation, ReservationStatus, Allocation, AllocationState,
  ResourceError, resource_not_found, ResourceAuditRecord, AuditKind, state_transition, HistoryKind,
  HistoryAction, ResourceHistoryEntry, ResourceEvent, resource_unavailable,
  resource_utilization_updated, resource_forecast_updated,
}
use imip.Resources.Lifecycle.{ResourceState-discrete, assert_resource_state_transition}
use imip.Resources.Ownership.{Ownerships}
use imip.Resources.Registry
use imip.Resources.Registry.{Resources}
use imip.Resources.Utilization.{compute_utilization}
use imip.Resources.Forecast.{compute_capacity_forecast}

pub record ResourceAuthorityOptions : Type 0 where
  pub precedes : String → String → Bool
  pub power : String → Bool
  pub thermal : String → Bool
  pub power_ref : String → Option String
  pub thermal_ref : String → Option String

pub record ResourceAuthority : Type 0 where
  pub registry : Resources
  pub events : List ResourceEvent
  pub audit : List ResourceAuditRecord
  pub ownership : Ownerships
  pub history : List ResourceHistoryEntry
  pub reservations : List Reservation
  pub allocations : List Allocation

unfoldable pub new_authority : ResourceAuthority
new_authority = record {
  registry = [];
  events = [];
  audit = [];
  ownership = [];
  history = [];
  reservations = [];
  allocations = [];
}

abbrev pub Method : Type 0 → Type 0
Method = Action ResourceAuthority ResourceError

unfoldable pub upsert : ResourceProfile → Method (Unit {0})
upsert profile = change (λ s. record s { registry = Registry.upsert profile s.registry })

unfoldable pub require_profile : String → Method ResourceProfile
require_profile resource_id = λ s. lift (Registry.require resource_id s.registry) s

unfoldable pub publish : ResourceEvent → Method (Unit {0})
publish event = change (λ s. record s { events = s.events ++ event ∷ [] })

-- The object that `find` gives is changed where it stands. Ids are unique, so the loop of
-- `expireReservations` finds its object by its id too.
abbrev pub set_allocation : String → AllocationState → List Allocation → List Allocation
set_allocation id state [] = []
set_allocation id state (a ∷ as') =
    let rest = set_allocation id state as' in
    if a.id === id then record a { state = state } ∷ as' else a ∷ rest

abbrev pub set_reservation : String → ReservationStatus → List Reservation → List Reservation
set_reservation id status [] = []
set_reservation id status (r ∷ rs) =
    let rest = set_reservation id status rs in
    if r.id === id then record r { status = status } ∷ rs else r ∷ rest

unfoldable pub find_allocation : String → Method Allocation
find_allocation id =
    λ s. lift (or_throw (find (λ a. a.id === id) s.allocations) (resource_not_found id)) s

unfoldable pub find_reservation : String → Method Reservation
find_reservation id =
    λ s. lift (or_throw (find (λ r. r.id === id) s.reservations) (resource_not_found id)) s

unfoldable pub mark_allocation : String → AllocationState → Method (Unit {0})
mark_allocation id state =
    change (λ s. record s { allocations = set_allocation id state s.allocations })

unfoldable pub mark_reservation : String → ReservationStatus → Method (Unit {0})
mark_reservation id status =
    change (λ s. record s { reservations = set_reservation id status s.reservations })

module _ (now : ℕ) where
  unfoldable pub record_audit :
      String → AuditKind → Option String → Option String → Method (Unit {0})
  record_audit resource_id kind reason authority = change (λ s. record s {
    audit =
        s.audit
        ++ record {
          timestamp = now;
          resource_id = resource_id;
          kind = kind;
          reason = reason;
          initiating_authority = authority;
        }
          ∷ [];
  })

  unfoldable pub append_history : String → HistoryKind → HistoryAction → Method (Unit {0})
  append_history resource_id kind action = change (λ s. record s {
    history =
        s.history
        ++ record { timestamp = now; resource_id = resource_id; kind = kind; action = action } ∷ [];
  })

  unfoldable pub publish_utilization_update : String → Method (Unit {0})
  publish_utilization_update resource_id = do
    profile ← require_profile resource_id
    utilization ← gets (λ s.
        compute_utilization profile (filter (λ a. a.resource_id === resource_id) s.allocations)
          (filter (λ r. r.resource_id === resource_id) s.reservations) now)
    publish (resource_utilization_updated resource_id utilization)
    forecast ← gets (λ s.
        compute_capacity_forecast profile
          (filter (λ a. a.resource_id === resource_id) s.allocations)
          (filter (λ r. r.resource_id === resource_id) s.reservations) now)
    publish (resource_forecast_updated resource_id forecast)

  abbrev pub is_unavailable : ResourceState → Bool
  is_unavailable to = decided (ResourceState-discrete to ResourceState.unavailable)

  unfoldable pub transition_state :
      ResourceProfile → ResourceState → String → String → Method ResourceProfile
  transition_state profile to reason authority = do
    lift (assert_resource_state_transition profile.state to)
    let updated = record profile { state = to; last_updated = now }
    upsert updated
    record_audit profile.resource_id (state_transition profile.state to) (some reason)
        (some authority)
    if is_unavailable to then publish (resource_unavailable profile.resource_id) else return tt
    return updated
