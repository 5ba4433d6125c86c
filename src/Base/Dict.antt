-- ===== src/Base/Dict.antt =====
-- The JavaScript `Map` from texts: the entries in the order in which their keys were first set.
use Prim.Native.String.{String}
use mathlib.Core.Path.{◌≡◌, refl, subst}
use mathlib.Core.Bool.{Bool, true, false}
use mathlib.Core.List.{List, [], ◌∷◌, ◌++◌}
use mathlib.Core.Option.{Option, none, some, some-injective}
use native.Mathlib.Omega.{arith}
use imip.Base.Bools.{if◌then◌else◌, ◌===◌, str_discrete}
use imip.Base.Lists.{All}

abbrev pub Dict {ℓ} : Type ℓ → Type ℓ
Dict V = List (String × V)

module _ {ℓ} {V : Type ℓ} where
  unfoldable pub get : String → Dict V → Option V
  get k [] = none
  get k ((j, v) ∷ m) = let rest = get k m in if j === k then some v else rest

  unfoldable pub has : String → Dict V → Bool
  unfolding get
  has k m = elim (get k m) [ none ↦ false | some _ ↦ true ]

  unfoldable pub put : String → V → Dict V → Dict V
  put k v [] = (k, v) ∷ []
  put k v ((j, w) ∷ m) = let rest = put k v m in if j === k then (k, v) ∷ m else (j, w) ∷ rest

  unfoldable pub delete : String → Dict V → Dict V
  delete k [] = []
  delete k ((j, w) ∷ m) = let rest = delete k m in if j === k then rest else (j, w) ∷ rest

  abbrev pub values : Dict V → List V
  values [] = []
  values ((k, v) ∷ m) = v ∷ values m

  abbrev pub keys : Dict V → List String
  keys [] = []
  keys ((k, v) ∷ m) = k ∷ keys m

  pub get-put :
      (k j : String) (v : V) (m : Dict V)
      → get j (put k v m) ≡ (if k === j then some v else get j m)
  unfolding get put
  get-put k j v [] = refl
  get-put k j v ((i, w) ∷ m) = ground (arith, get-put k j v m)

  pub get-put_self : (k : String) (v : V) (m : Dict V) → get k (put k v m) ≡ some v
  get-put_self k v m = ground (arith, get-put k k v m)

  pub get-delete :
      (k j : String) (m : Dict V) → get j (delete k m) ≡ (if k === j then none else get j m)
  unfolding get delete
  get-delete k j [] = ground arith
  get-delete k j ((i, w) ∷ m) = ground (arith, get-delete k j m)

  -- Setting a new key adds it at the end; setting a known one moves nothing.
  pub keys-put :
      (k : String) (v : V) (m : Dict V)
      → keys (put k v m) ≡ (if has k m then keys m else keys m ++ k ∷ [])
  unfolding put has get
  keys-put k v [] = refl
  keys-put k v ((i, w) ∷ m) = ground (arith, keys-put k v m)

  pub values-put_new :
      (k : String) (v : V) (m : Dict V) → get k m ≡ none → values (put k v m) ≡ values m ++ v ∷ []
  unfolding put get
  values-put_new k v [] h = refl
  values-put_new k v ((i, w) ∷ m) h = ground (arith, values-put_new k v m)

  pub All-values-put {κ} :
      (P : V → Type κ) (k : String) (v : V) (m : Dict V)
      → P v
      → All P (values m)
      → All P (values (put k v m))
  unfolding put
  All-values-put P k v [] p h = (p, tt)
  All-values-put P k v ((i, w) ∷ m) p h =
      elim (str_discrete i k)
        as (λ d. All P (
          values
            (if elim d [ yes _ ↦ true | no _ ↦ false ] then (k, v) ∷ m else (i, w) ∷ put k v m))) [
              | yes e ↦ (p, h.1)
              | no e ↦ (h.0, All-values-put P k v m p h.1)
            ]

  pub All-get {κ} :
      (P : V → Type κ) (k : String) (m : Dict V) {v : V} → All P (values m) → get k m ≡ some v → P v
  unfolding get
  All-get P k [] h e = absurd (cc)
  All-get P k ((i, w) ∷ m) {v} h e =
      elim (str_discrete i k)
          as (λ d.
            (if elim d [ yes _ ↦ true | no _ ↦ false ] then some w else get k m) ≡ some v → P v) [
              | yes _ ↦ (λ q. subst_some q h.0)
              | no _ ↦ (λ q. All-get P k m h.1 q)
            ]
        e
    where
      subst_some : some w ≡ some v → P w → P v
      subst_some q p = subst P (some-injective _ _ q) p
