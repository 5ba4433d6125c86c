-- ===== src/Resources/Authority/Within/Taken.antt =====
-- What is taken of a resource, and how the small steps of the authority change it.
use imip.Base.{
  ℕ, ◌+◌, ◌≤◌, ◌≡◌, refl, true, false, String, List, [], ◌∷◌, ◌++◌, map, find, sum_by, some, ◌===◌,
  if◌then◌else◌, Bool-cases, inl, inr, arith,
}
use imip.Resources.Types.{Reservation, ReservationStatus, Allocation, AllocationState}
use imip.Resources.Availability.{is_active, is_running, active_reservations, active_allocations}
use imip.Resources.Allocation.{running_on, reserved_on}
use imip.Resources.Reservation.{active_on}
use imip.Resources.Authority.{ResourceAuthority, set_allocation, set_reservation}

abbrev pub reserved_of : String → List Reservation → ℕ
reserved_of id rs = sum_by (λ r. r.capacity) (active_reservations (reserved_on id rs))

abbrev pub running_of : String → List Allocation → ℕ
running_of id as' = sum_by (λ a. a.capacity) (running_on id as')

-- By reservations that are active, and by allocations that run.
abbrev pub taken_of : ResourceAuthority → String → ℕ
taken_of s id = reserved_of id s.reservations + running_of id s.allocations

pub running_of-append :
    (id : String) (a : Allocation) (as' : List Allocation)
    → running_of id (as' ++ a ∷ [])
      ≤ running_of id as' + (if a.resource_id === id then a.capacity else 0)
running_of-append id a [] = ground arith
running_of-append id a (b ∷ as') = ground (arith, running_of-append id a as')

pub reserved_of-append :
    (id : String) (r : Reservation) (rs : List Reservation)
    → reserved_of id (rs ++ r ∷ [])
      ≤ reserved_of id rs + (if r.resource_id === id then r.capacity else 0)
reserved_of-append id r [] = ground arith
reserved_of-append id r (q ∷ rs) = ground (arith, reserved_of-append id r rs)

pub running_of-set_stopped :
    (id i : String) (state : AllocationState) (as' : List Allocation)
    → is_running state ≡ false
    → running_of id (set_allocation i state as') ≤ running_of id as'
running_of-set_stopped id i state [] h = omega arith
running_of-set_stopped id i state (a ∷ as') h =
    ground (arith, running_of-set_stopped id i state as' h)

pub running_of-set_running :
    (id i : String) (as' : List Allocation)
    → ((a : Allocation) → find (λ b. b.id === i) as' ≡ some a → is_running a.state ≡ true)
    → running_of id (set_allocation i AllocationState.active as') ≡ running_of id as'
running_of-set_running id i [] h = refl
running_of-set_running id i (a ∷ as') h = elim (Bool-cases (a.id === i)) [
  | inl e ↦ ground (arith, h a, e)
  | inr e ↦ ground (arith, running_of-set_running id i as' (λ b f. h b (ground (arith, e, f))), e)
]

pub reserved_of-set :
    (id i : String) (status : ReservationStatus) (rs : List Reservation)
    → is_active status ≡ false
    → reserved_of id (set_reservation i status rs) ≤ reserved_of id rs
reserved_of-set id i status [] h = omega arith
reserved_of-set id i status (r ∷ rs) h = ground (arith, reserved_of-set id i status rs h)

pub reserved_of-expire :
    (id i : String) (rs : List Reservation)
    → reserved_of id
        (map (λ q. if q.id === i then record q { status = ReservationStatus.expired } else q) rs)
      ≤ reserved_of id rs
reserved_of-expire id i [] = omega arith
reserved_of-expire id i (r ∷ rs) = ground (arith, reserved_of-expire id i rs)

-- The lists that `create` looks at hold the same.
pub active_on-twice :
    (id : String) (rs : List Reservation)
    → sum_by (λ r. r.capacity) (active_reservations (active_reservations (active_on id rs)))
      ≡ reserved_of id rs
active_on-twice id [] = refl
active_on-twice id (r ∷ rs) = ground (arith, active_on-twice id rs)

pub running_on-twice :
    (id : String) (as' : List Allocation)
    → sum_by (λ a. a.capacity) (active_allocations (active_allocations (running_on id as')))
      ≡ running_of id as'
running_on-twice id [] = refl
running_on-twice id (a ∷ as') = ground (arith, running_on-twice id as')
