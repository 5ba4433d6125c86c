-- ===== src/Resources/Authority/Atomic.antt =====
-- A request for an allocation is granted as a whole, or leaves the authority as it was.
use imip.Base.{
  ℕ, ◌≡◌, ◌∙◌, refl, sym, ap, false, String, [], ◌∷◌, ◌++◌, some, Result, ok, err, All, arith,
  ◌===◌, if◌then◌else◌,
}
use imip.Base.Dict.{get, put, get-put, get-put_self}
use imip.Base.Keyed.{IsKeyed, values-IsKeyed}
use imip.Base.Actions.{Ends, continue, lift}
use imip.Resources.Types.{ResourceProfile, Allocation, AllocationRequest, ResourceError}
use imip.Resources.Allocation.{named, allocate, apply_allocation_to_profile}
use imip.Resources.Allocation.Capacity.{allocate-IsAdmissible}
use imip.Resources.Candidates.{sort_candidates_by_resource_id}
use imip.Resources.Ownership
use imip.Resources.Registry
use imip.Resources.Registry.{all_profiles}
use imip.Resources.Authority.{
  ResourceAuthority, ResourceAuthorityOptions, upsert, require_profile, publish, record_audit,
  append_history, publish_utilization_update,
}
use imip.Resources.Authority.Requests.{
  engine_ctx, resolve_allocation, push_allocation, enter_allocation, finish_allocation,
  request_allocation,
}
use imip.Resources.Authority.Within.Choosing.{All-sort, resolve_profile-All}

-- What a request that granted `a` has done.
pub record IsGranted (now : ℕ) (s : ResourceAuthority) (a : Allocation) (t : ResourceAuthority)
    : Type 0 where
  pub profile : ResourceProfile
  pub known : get a.resource_id s.registry ≡ some profile
  pub updated : get a.resource_id t.registry ≡ some (apply_allocation_to_profile profile a now)
  pub others :
      (id : String) → (a.resource_id === id) ≡ false → get id t.registry ≡ get id s.registry
  pub added : t.allocations ≡ s.allocations ++ a ∷ []
  pub reservations : t.reservations ≡ s.reservations
  pub owned :
      t.ownership ≡ Ownership.establish a.resource_id a.owner now a.lease_expiration s.ownership

module _ (now : ℕ) (options : ResourceAuthorityOptions) where
  finish-IsGranted :
      (authority : String) (s : ResourceAuthority) (a : Allocation) (p : ResourceProfile)
      → get a.resource_id s.registry ≡ some p
      → p.resource_id ≡ a.resource_id
      → Ends
          (IsGranted now s)
          (λ e t. t ≡ s)
          (finish_allocation now options authority a
            (record s { allocations = s.allocations ++ a ∷ [] }))
  unfolding finish_allocation continue require_profile lift Registry.require upsert Registry.upsert
      append_history record_audit publish publish_utilization_update
  finish-IsGranted authority s a p e same =
      rw (e, e')
        (record {
          profile = p;
          known = e;
          updated = e';
          others = λ id ne. get-put _ id _ s.registry ∙ kept id ne;
          added = refl;
          reservations = refl;
          owned = refl;
        })
    where
      q : ResourceProfile
      q = apply_allocation_to_profile p a now

      q_id : q.resource_id ≡ a.resource_id
      q_id = unfold apply_allocation_to_profile in same

      e' : get a.resource_id (put q.resource_id q s.registry) ≡ some q
      e' =
          ap (λ i. get a.resource_id (put i q s.registry)) q_id
          ∙ get-put_self a.resource_id q s.registry

      kept :
          (id : String)
          → (a.resource_id === id) ≡ false
          → (if q.resource_id === id then some q else get id s.registry) ≡ get id s.registry
      kept id ne = ground (arith, ap (λ i. i === id) q_id, ne)

  module _ (fresh : String) (request : AllocationRequest) (s : ResourceAuthority)
      (keyed : IsKeyed (λ p. p.resource_id) s.registry) where
    abbrev Known : ResourceProfile → Type 0
    Known p = get p.resource_id s.registry ≡ some p

    profiles-Known : All Known (engine_ctx now options s).profiles
    unfolding engine_ctx all_profiles sort_candidates_by_resource_id
    profiles-Known = All-sort Known _ _ (values-IsKeyed (λ p. p.resource_id) s.registry keyed)

    -- A request for an allocation, of an authority whose profiles stand under their ids, has one of two
    -- ends. It returns an allocation: then its resource was registered, its profile alone is changed, as
    -- `apply_allocation_to_profile` says, the allocation is added to the others, the reservations stay, and
    -- its owner owns the resource. Or it throws, and the state is the one before the call: no throw
    -- comes once the allocation is entered.
    pub request_allocation-IsAtomic :
        Ends (IsGranted now s) (λ e t. t ≡ s) (request_allocation now options fresh request s)
    unfolding request_allocation enter_allocation continue lift engine_ctx push_allocation
    request_allocation-IsAtomic = resolving (
        resolve_allocation now options (engine_ctx now options s) request
          (named request.resource_id))
      where
        granted :
            (resolved : AllocationRequest) (a : Allocation)
            → allocate fresh (engine_ctx now options s) resolved ≡ ok a
            → Ends
                (IsGranted now s)
                (λ e t. t ≡ s)
                (finish_allocation now options request.requesting_authority a
                  (record s { allocations = s.allocations ++ a ∷ [] }))
        granted resolved a e =
            let (p, f, at, cap, adm) =
              allocate-IsAdmissible fresh (engine_ctx now options s) resolved a e in
            let known : get p.resource_id s.registry ≡ some p =
              resolve_profile-All Known _ resolved p profiles-Known f in
            finish-IsGranted request.requesting_authority s a p
              (ap (λ i. get i s.registry) at ∙ known) (sym at)

        granting :
            (resolved : AllocationRequest) (o : Result ResourceError Allocation)
            → allocate fresh (engine_ctx now options s) resolved ≡ o
            → Ends
                (IsGranted now s)
                (λ e t. t ≡ s)
                (continue
                  (finish_allocation now options request.requesting_authority)
                  (continue (push_allocation now options) (lift o s)))
        granting resolved (ok a) e = granted resolved a e
        granting resolved (err x) e = refl

        resolving :
            (o : Result ResourceError AllocationRequest)
            → Ends
                (IsGranted now s)
                (λ e t. t ≡ s)
                (continue (finish_allocation now options request.requesting_authority) (
                  continue
                    (λ resolved s'.
                      continue
                        (push_allocation now options)
                        (lift (allocate fresh (engine_ctx now options s) resolved) s'))
                    (lift o s)))
        resolving (ok resolved) =
            granting resolved (allocate fresh (engine_ctx now options s) resolved) refl
        resolving (err x) = refl
