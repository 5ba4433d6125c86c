-- ===== src/Base/Keyed.antt =====
-- A JavaScript `Map` that holds each value under the value's own id.
use imip.Base.Bools.{===-refl}
use imip.Base.Lists.{All}
use imip.Base.Dict.{Dict, get, put, values, get-put}
use Prim.Native.String.{String}
use mathlib.Core.Path.{◌≡◌, refl}
use mathlib.Core.List.{List, [], ◌∷◌}
use mathlib.Core.Option.{none, some}
use native.Mathlib.Omega.{arith}

module _ {V : Type 0} (id_of : V → String) where
  abbrev pub IsKeyed : Dict V → Type 0
  IsKeyed [] = Unit
  IsKeyed ((k, v) ∷ m) = (id_of v ≡ k) × (get k m ≡ none) × IsKeyed m

  pub put-IsKeyed :
      (k : String) (v : V) (m : Dict V) → id_of v ≡ k → IsKeyed m → IsKeyed (put k v m)
  unfolding put get
  put-IsKeyed k v [] e h = (e, refl, tt)
  put-IsKeyed k v ((i, w) ∷ m) e h = ground (arith, put-IsKeyed k v m e h.2, get-put k i v m)

  pub get-IsKeyed : (k : String) (m : Dict V) (v : V) → IsKeyed m → get k m ≡ some v → id_of v ≡ k
  unfolding get
  get-IsKeyed k [] v h e = cc
  get-IsKeyed k ((i, w) ∷ m) v h e = ground (arith, get-IsKeyed k m v h.2)

  get-tail :
      (i k : String) (v w : V) (m : Dict V)
      → get i m ≡ none
      → get k m ≡ some v
      → get k ((i, w) ∷ m) ≡ some v
  unfolding get
  get-tail i k v w m h e = ground arith

  get-head : (k : String) (v : V) (m : Dict V) → id_of v ≡ k → get (id_of v) ((k, v) ∷ m) ≡ some v
  unfolding get
  get-head k v m e = ground (arith, ===-refl k)

  All-tail :
      (i : String) (w : V) (m : Dict V)
      → get i m ≡ none
      → (vs : List V) → All (λ v. get (id_of v) m ≡ some v) vs
      → All (λ v. get (id_of v) ((i, w) ∷ m) ≡ some v) vs
  All-tail i w m h [] a = tt
  All-tail i w m h (v ∷ vs) a = (get-tail i (id_of v) v w m h a.0, All-tail i w m h vs a.1)

  -- Every value is found under its id.
  pub values-IsKeyed : (m : Dict V) → IsKeyed m → All (λ v. get (id_of v) m ≡ some v) (values m)
  values-IsKeyed [] h = tt
  values-IsKeyed ((k, v) ∷ m) h =
      (get-head k v m h.0, All-tail k v m h.1 (values m) (values-IsKeyed m h.2))
