-- ===== src/Resources/Reservation/Rivals.antt =====
-- Which reservations stand in the way of another.
use imip.Base.{
  ℕ, ◌+◌, ◌-◌, ◌<◌, ◌≡◌, refl, ap, ◌↔◌, ◌⊎◌, true, List, [], ◌∷◌, none, ltb, if◌then◌else◌, All,
  arith,
}
use imip.Resources.Types.{ResourceProfile, ResourceState, Reservation, ReservationRequest}
use imip.Resources.Availability.{is_active}
use imip.Resources.Allocation.Capacity.{IsBalanced}
use imip.Resources.Reservation.{
  or_else, overlaps, detect_reservation_conflict, apply_reservation_to_profile,
  release_reservation_from_profile,
}

-- An active reservation that overlaps gives way: its priority is lower, or it is the same and it has
-- the same owner.
abbrev pub GivesWay : ReservationRequest → ℕ → Reservation → Type 0
GivesWay request now r =
    is_active r.status ≡ true
    → overlaps r request now ≡ true
    → (r.priority < or_else request.priority 0)
      ⊎ ((r.priority ≡ or_else request.priority 0) × (r.owner ≡ request.owner))

-- There is no conflict exactly if every active reservation that overlaps the request has a lower
-- priority, or the same priority and the same owner.
pub detect_reservation_conflict_iff :
    (rs : List Reservation) (request : ReservationRequest) (now : ℕ)
    → (detect_reservation_conflict rs request now ≡ none) ↔ All (GivesWay request now) rs
unfolding detect_reservation_conflict
detect_reservation_conflict_iff [] request now = ((λ h. tt), (λ h. refl))
detect_reservation_conflict_iff (r ∷ rs) request now =
    let rest = detect_reservation_conflict_iff rs request now in
    (
      (λ h. ((λ a o. ground (arith, h, a, o)), rest.0 (ground (arith, h)))),
      (λ h. ground (arith, h.0, rest.1 h.1)),
    )

-- A reservation that is applied to a profile and released again leaves its capacities as they were, if
-- they were balanced; and the profile is then reserved exactly if other reservations are left.
pub release-apply_reservation :
    (p : ResourceProfile) (r : Reservation) (applied_at released_at : ℕ)
    → IsBalanced p
    → let q =
        release_reservation_from_profile
          (apply_reservation_to_profile p r applied_at)
          r
          released_at in
      (q.reserved_capacity ≡ p.reserved_capacity)
      × (q.available_capacity ≡ p.available_capacity)
      × (q.state
          ≡ (if ltb 0 p.reserved_capacity then ResourceState.reserved else ResourceState.available))
unfolding release_reservation_from_profile apply_reservation_to_profile
release-apply_reservation p r applied_at released_at h =
    let back : p.reserved_capacity + r.capacity - r.capacity ≡ p.reserved_capacity = omega arith in
    (
      back,
      omega (arith, h),
      ap (λ n. if ltb 0 n then ResourceState.reserved else ResourceState.available) back,
    )
