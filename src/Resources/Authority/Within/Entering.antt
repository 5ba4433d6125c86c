-- ===== src/Resources/Authority/Within/Entering.antt =====
-- A reservation or an allocation is entered only where it fits.
use imip.Base.{
  ℕ, ◌+◌, ◌≤◌, ◌<◌, ◌≡◌, ◌∙◌, refl, sym, ap, subst, String, [], ◌∷◌, ◌++◌, Option, some, Bool-cases,
  inl, inr, ◌===◌, ===_iff, Result, ok, err, All, length, if◌then◌else◌, arith, ◌>>=◌,
}
use mathlib.Core.Option.{some-injective}
use native.Mathlib.Decide.{dec_lt}
use imip.Base.Dict.{get}
use imip.Base.Keyed.{values-IsKeyed}
use imip.Base.Actions.{Keeps, continue, lift}
use imip.Resources.Types.{
  ResourceProfile, Reservation, ReservationRequest, Allocation, AllocationRequest, ResourceError,
}
use imip.Resources.Availability.{evaluate_availability, compute_effective_available}
use imip.Resources.Allocation.{AllocationEngineContext, named, allocate, running_on}
use imip.Resources.Allocation.Capacity.{allocate-IsAdmissible, evaluate-clear}
use imip.Resources.Reservation.{create_on, active_on}
use imip.Resources.Candidates.{sort_candidates_by_resource_id, resolve_for_reservation, create}
use imip.Resources.Registry.{all_profiles}
use imip.Resources.Authority.{ResourceAuthority, ResourceAuthorityOptions}
use imip.Resources.Authority.Requests.{
  engine_ctx, resolve_allocation, resolve_reservation, enter_allocation, enter_reservation,
  push_allocation, push_reservation,
}
use imip.Resources.Authority.Within.{IsWithin, maximum_of}
use imip.Resources.Authority.Within.Taken.{
  taken_of, running_of, reserved_of, running_of-append, reserved_of-append, active_on-twice,
  running_on-twice,
}
use imip.Resources.Authority.Within.Choosing.{
  All-sort, resolve_profile-All, resolve_for_reservation-All,
}

module _ (fresh : String) (ctx : AllocationEngineContext) (request : ReservationRequest)
    (p : ResourceProfile) (r : Reservation) (h : create_on fresh ctx request p ≡ ok r) where
  create_on-clear :
      (length (
          evaluate_availability ctx.power ctx.thermal p
            (active_on p.resource_id ctx.reservations)
            (running_on p.resource_id ctx.allocations)
            request.capacity)
        ≡ 0)
      × (r.resource_id ≡ p.resource_id)
      × (r.capacity ≡ request.capacity)
  unfolding create_on
  create_on-clear = (ground arith, ground arith, ground arith)

  create_on-fits :
      0 < r.capacity
      → reserved_of p.resource_id ctx.reservations
          + running_of p.resource_id ctx.allocations
          + r.capacity
        ≤ p.maximum_capacity
  unfolding compute_effective_available
  create_on-fits pos =
      let (clear, _, cap) = create_on-clear in
      let fits =
        (evaluate-clear ctx.power ctx.thermal p (active_on p.resource_id ctx.reservations)
          (running_on p.resource_id ctx.allocations) request.capacity clear).4 in
      omega (
        arith,
        fits (omega (arith, cap)),
        cap,
        active_on-twice p.resource_id ctx.reservations,
        running_on-twice p.resource_id ctx.allocations,
      )

module _ (ceiling : String → Option ℕ) (now : ℕ) (options : ResourceAuthorityOptions)
    (fresh : String) where
  abbrev Known : ResourceAuthority → ResourceProfile → Type 0
  Known s p = get p.resource_id s.registry ≡ some p

  profiles-Known :
      (s : ResourceAuthority)
      → IsWithin ceiling s
      → All (Known s) (engine_ctx now options s).profiles
  unfolding engine_ctx all_profiles sort_candidates_by_resource_id
  profiles-Known s w =
      All-sort (Known s) _ _ (values-IsKeyed (λ p. p.resource_id) s.registry w.keyed)

  -- What is added to one resource only must fit beside what is taken of it.
  grow :
      (s t : ResourceAuthority) (p : ResourceProfile) (n : ℕ)
      → IsWithin ceiling s
      → Known s p
      → t.registry ≡ s.registry
      → ((id : String) → taken_of t id ≤ taken_of s id + (if p.resource_id === id then n else 0))
      → (0 < n → taken_of s p.resource_id + n ≤ p.maximum_capacity)
      → IsWithin ceiling t
  grow s t p n w known same more fits = record {
    keyed = rw same w.keyed;
    ceilings = λ id. rw same (w.ceilings id);
    within = λ id m e. elim (Bool-cases (p.resource_id === id)) [
      | inl here ↦
          let named : p.resource_id ≡ id = (===_iff p.resource_id id).0 here in
          let top : some m ≡ some p.maximum_capacity =
            sym e
            ∙ sym (w.ceilings id)
            ∙ ap maximum_of (ap (λ i. get i s.registry) (sym named) ∙ known) in
          let top' : m ≡ p.maximum_capacity = some-injective _ _ top in
          let added : taken_of t id ≤ taken_of s id + n = ground (arith, more id, here) in
          let fits' : 0 < n → taken_of s id + n ≤ p.maximum_capacity =
            subst (λ i. 0 < n → taken_of s i + n ≤ p.maximum_capacity) named fits in
          elim (dec_lt 0 n) [
            | yes pos ↦ omega (arith, added, fits' pos, top')
            | no zero' ↦ omega (arith, added, w.within id m e, zero')
          ]
      | inr there ↦
          let added : taken_of t id ≤ taken_of s id = ground (arith, more id, there) in
          omega (arith, added, w.within id m e)
    ];
  }

  pub enter_allocation-Keeps :
      (request : AllocationRequest)
      → Keeps (IsWithin ceiling) (enter_allocation now options fresh request)
  unfolding enter_allocation continue lift engine_ctx push_allocation
  enter_allocation-Keeps request = record {
    keeps = λ s w. resolving s w (
        resolve_allocation now options (engine_ctx now options s) request
          (named request.resource_id));
  }
    where
      granted :
          (s : ResourceAuthority) (w : IsWithin ceiling s) (resolved : AllocationRequest)
          (a : Allocation)
          → allocate fresh (engine_ctx now options s) resolved ≡ ok a
          → IsWithin ceiling (record s { allocations = s.allocations ++ a ∷ [] })
      granted s w resolved a e =
          let (p, f, at, cap, adm) =
            allocate-IsAdmissible fresh (engine_ctx now options s) resolved a e in
          grow s _ p a.capacity w
            (resolve_profile-All (Known s) _ resolved p (profiles-Known s w) f) refl
            (λ id.
              subst
                (λ i.
                  taken_of (record s { allocations = s.allocations ++ a ∷ [] }) id
                  ≤ taken_of s id + (if i === id then a.capacity else 0))
                at (omega (arith, running_of-append id a s.allocations)))
            (λ pos. omega (arith, adm.fits (omega (arith, pos, cap)), cap))

      granting :
          (s : ResourceAuthority) (w : IsWithin ceiling s) (resolved : AllocationRequest)
          (o : Result ResourceError Allocation)
          → allocate fresh (engine_ctx now options s) resolved ≡ o
          → IsWithin ceiling (continue (push_allocation now options) (lift o s)).0
      granting s w resolved (ok a) e = granted s w resolved a e
      granting s w resolved (err x) e = w

      resolving :
          (s : ResourceAuthority) (w : IsWithin ceiling s)
          (o : Result ResourceError AllocationRequest)
          → IsWithin ceiling
              (continue
                (λ resolved s'.
                  continue
                    (push_allocation now options)
                    (lift (allocate fresh (engine_ctx now options s) resolved) s'))
                (lift o s)).0
      resolving s w (ok resolved) =
          granting s w resolved (allocate fresh (engine_ctx now options s) resolved) refl
      resolving s w (err x) = w

  pub enter_reservation-Keeps :
      (request : ReservationRequest)
      → Keeps (IsWithin ceiling) (enter_reservation now options fresh request)
  unfolding enter_reservation continue lift engine_ctx push_reservation create
  enter_reservation-Keeps request = record {
    keeps = λ s w. resolving s w (
        resolve_reservation now options (engine_ctx now options s) request
          (named request.resource_id));
  }
    where
      granted :
          (s : ResourceAuthority) (w : IsWithin ceiling s) (resolved : ReservationRequest)
          (r : Reservation) (p : ResourceProfile)
          → resolve_for_reservation options.precedes (engine_ctx now options s) resolved ≡ ok p
          → create_on fresh (engine_ctx now options s) resolved p ≡ ok r
          → IsWithin ceiling (record s { reservations = s.reservations ++ r ∷ [] })
      granted s w resolved r p f e =
          let (_, at, cap) = create_on-clear fresh (engine_ctx now options s) resolved p r e in
          grow s _ p r.capacity w
            (resolve_for_reservation-All (Known s) options.precedes (engine_ctx now options s)
              resolved p (profiles-Known s w) f)
            refl
            (λ id.
              subst
                (λ i.
                  taken_of (record s { reservations = s.reservations ++ r ∷ [] }) id
                  ≤ taken_of s id + (if i === id then r.capacity else 0))
                at (omega (arith, reserved_of-append id r s.reservations)))
            (λ pos.
              omega (arith, create_on-fits fresh (engine_ctx now options s) resolved p r e pos))

      granting :
          (s : ResourceAuthority) (w : IsWithin ceiling s) (resolved : ReservationRequest)
          (p : ResourceProfile) (o : Result ResourceError Reservation)
          → resolve_for_reservation options.precedes (engine_ctx now options s) resolved ≡ ok p
          → create_on fresh (engine_ctx now options s) resolved p ≡ o
          → IsWithin ceiling (continue (push_reservation now options) (lift o s)).0
      granting s w resolved p (ok r) f e = granted s w resolved r p f e
      granting s w resolved p (err x) f e = w

      finding :
          (s : ResourceAuthority) (w : IsWithin ceiling s) (resolved : ReservationRequest)
          (o : Result ResourceError ResourceProfile)
          → resolve_for_reservation options.precedes (engine_ctx now options s) resolved ≡ o
          → IsWithin ceiling
              (continue
                (push_reservation now options)
                (lift (o >>= create_on fresh (engine_ctx now options s) resolved) s)).0
      finding s w resolved (ok p) f =
          granting s w resolved p (create_on fresh (engine_ctx now options s) resolved p) f refl
      finding s w resolved (err x) f = w

      resolving :
          (s : ResourceAuthority) (w : IsWithin ceiling s)
          (o : Result ResourceError ReservationRequest)
          → IsWithin ceiling
              (continue
                (λ resolved s'.
                  continue
                    (push_reservation now options)
                    (lift (create options.precedes (engine_ctx now options s) fresh resolved) s'))
                (lift o s)).0
      resolving s w (ok resolved) =
          finding s w resolved
            (resolve_for_reservation options.precedes (engine_ctx now options s) resolved) refl
      resolving s w (err x) = w
