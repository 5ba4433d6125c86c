-- ===== src/Resources/Authority/Within/Choosing.antt =====
-- The resource that is chosen for a request is one of those that there are.
use imip.Base.{
  ◌≡◌, subst, Bool, String, List, [], ◌∷◌, some, Bool-cases, Option-cases, inl, inr, ◌===◌, ok,
  find, All, All-filter_of_All, arith,
}
use mathlib.Core.Option.{some-injective}
use imip.Resources.Types.{ResourceProfile, ReservationRequest, AllocationRequest}
use imip.Resources.Allocation.{AllocationEngineContext, named, resolve_profile}
use imip.Resources.Candidates.{
  insert_sorted, sort, first, viable_reservation, sort_candidates_by_resource_id,
  select_reservation_candidate, resolve_for_reservation,
}

module _ {A : Type 0} (P : A → Type 0) where
  All-insert_sorted :
      (before : A → A → Bool) (x : A) (xs : List A)
      → P x
      → All P xs
      → All P (insert_sorted before x xs)
  unfolding insert_sorted
  All-insert_sorted before x [] p h = (p, tt)
  All-insert_sorted before x (y ∷ ys) p h = elim (Bool-cases (before x y)) [
    | inl e ↦ rw e (p, h)
    | inr e ↦ rw e (h.0, All-insert_sorted before x ys p h.1)
  ]

  pub All-sort : (before : A → A → Bool) (xs : List A) → All P xs → All P (sort before xs)
  unfolding sort
  All-sort before [] h = tt
  All-sort before (x ∷ xs) h =
      All-insert_sorted before x (sort before xs) h.0 (All-sort before xs h.1)

  pub All-find : (p : A → Bool) (xs : List A) (x : A) → All P xs → find p xs ≡ some x → P x
  All-find p [] x h e = absurd (cc)
  All-find p (y ∷ ys) x h e = elim (Bool-cases (p y)) [
    | inl f ↦ subst P (some-injective _ _ (rw f at e)) h.0
    | inr f ↦ All-find p ys x h.1 (rw f at e)
  ]

-- A resource that is chosen or found is one of the context's.
pub resolve_profile-All :
    (P : ResourceProfile → Type 0) (ps : List ResourceProfile) (request : AllocationRequest)
    (p : ResourceProfile)
    → All P ps
    → resolve_profile ps request ≡ ok p
    → P p
unfolding resolve_profile
resolve_profile-All P ps request p h e = elim (Option-cases (named request.resource_id)) [
  | inl n ↦ absurd (ground (arith, e, n))
  | inr (id, n) ↦ elim (Option-cases (find (λ q. q.resource_id === id) ps)) [
    | inl f ↦ absurd (ground (arith, e, n, f))
    | inr (q, f) ↦
        subst P (ground (arith, e, n, f)) (All-find P (λ q'. q'.resource_id === id) ps q h f)
  ]
]

first-All :
    (P : ResourceProfile → Type 0) (ps : List ResourceProfile) (p : ResourceProfile)
    → All P ps
    → first ps ≡ some p
    → P p
first-All P [] p h e = absurd (cc)
first-All P (q ∷ ps) p h e = subst P (some-injective _ _ e) h.0

pub select_reservation-All :
    (P : ResourceProfile → Type 0) (precedes : String → String → Bool)
    (ctx : AllocationEngineContext) (request : ReservationRequest) (p : ResourceProfile)
    → All P ctx.profiles
    → select_reservation_candidate precedes ctx request ≡ some p
    → P p
unfolding select_reservation_candidate sort_candidates_by_resource_id
select_reservation-All P precedes ctx request p h e =
    first-All P _ p
      (All-filter_of_All P (viable_reservation precedes ctx request) _
        (All-sort P _ _ (All-filter_of_All P _ _ h)))
      e

pub resolve_for_reservation-All :
    (P : ResourceProfile → Type 0) (precedes : String → String → Bool)
    (ctx : AllocationEngineContext) (request : ReservationRequest) (p : ResourceProfile)
    → All P ctx.profiles
    → resolve_for_reservation precedes ctx request ≡ ok p
    → P p
unfolding resolve_for_reservation
resolve_for_reservation-All P precedes ctx request p h e =
    elim (Option-cases (named request.resource_id)) [
      | inl n ↦ elim (Option-cases (select_reservation_candidate precedes ctx request)) [
        | inl f ↦ absurd (ground (arith, e, n, f))
        | inr (q, f) ↦
            subst P (ground (arith, e, n, f)) (select_reservation-All P precedes ctx request q h f)
      ]
      | inr (id, n) ↦ elim (Option-cases (find (λ q. q.resource_id === id) ctx.profiles)) [
        | inl f ↦ absurd (ground (arith, e, n, f))
        | inr (q, f) ↦
            subst P (ground (arith, e, n, f))
              (All-find P (λ q'. q'.resource_id === id) ctx.profiles q h f)
      ]
    ]
