-- ===== src/Base/Arrays.antt =====
-- Arrays that are written at an index: reading with a default, and exchanging two entries.
use Prim.Native.Nat.{ℕ, zero, suc, ◌<◌}
use mathlib.Core.Path.{◌≡◌, refl, ap, ◌∙◌}
use mathlib.Core.Logic.{∥∥₁_elim}
use native.Mathlib.Nat.{ℕ_set}
use mathlib.Core.List.{List, [], ◌∷◌, ◌++◌, Perm, Permᴰ, perm_middle, append-nil}
use mathlib.Core.List.Perm
use mathlib.Core.Option.{some}
use native.Mathlib.Omega.{arith}
use imip.Base.Bools.{if◌then◌else◌, ◌==◌}
use imip.Base.Lists.{length, get_elem?, set, length-set}

module _ {ℓ} {A : Type ℓ} where
  unfoldable pub read : A → List A → ℕ → A
  read d [] i = d
  read d (x ∷ xs) zero = x
  read d (x ∷ xs) (suc i) = read d xs i

  -- The list without its last entry, and that entry, of the list `x ∷ xs`.
  unfoldable pub split_last : A → List A → List A × A
  split_last x [] = ([], x)
  split_last x (y ∷ ys) = let (front, last) = split_last y ys in (x ∷ front, last)

  pub append-split_last :
      (x : A) (xs : List A) → (split_last x xs).0 ++ (split_last x xs).1 ∷ [] ≡ x ∷ xs
  unfolding split_last
  append-split_last x [] = refl
  append-split_last x (y ∷ ys) = ap (◌∷◌ x) (append-split_last y ys)

  pub length-perm : {xs ys : List A} → Perm xs ys → length xs ≡ length ys
  length-perm moved = ∥∥₁_elim moved (ℕ_set _ _) (λ p. along p)
    where
      along : {vs ws : List A} → Permᴰ vs ws → length vs ≡ length ws
      along (Permᴰ.trans first second) = along first ∙ along second
      along (Permᴰ.swap _ _) = refl
      along (Permᴰ.cons _ rest) = ap suc (along rest)
      along Permᴰ.nil = refl

  pub push-perm : (xs : List A) (x : A) → Perm (xs ++ x ∷ []) (x ∷ xs)
  push-perm xs x = rw (append-nil xs) at (perm_middle {a = x} xs [])

module _ {ℓ} {A : Type ℓ} (d : A) where
  unfoldable pub swapped : List A → ℕ → ℕ → List A
  swapped xs i j = set (set xs i (read d xs j)) j (read d xs i)

  pub get_elem?-read : (xs : List A) (i : ℕ) → i < length xs → get_elem? xs i ≡ some (read d xs i)
  unfolding read
  get_elem?-read [] i h = absurd (omega arith)
  get_elem?-read (x ∷ xs) zero h = refl
  get_elem?-read (x ∷ xs) (suc i) h = get_elem?-read xs i (omega arith)

  pub read-set :
      (xs : List A) (i j : ℕ) (v : A)
      → i < length xs
      → read d (set xs i v) j ≡ (if i == j then v else read d xs j)
  unfolding read
  read-set [] i j v h = absurd (omega arith)
  read-set (x ∷ xs) zero zero v h = refl
  read-set (x ∷ xs) (suc i) (suc j) v h = ground (arith, read-set xs i j v)
  read-set (x ∷ xs) i j v h = ground arith

  pub read-append : (xs ys : List A) (i : ℕ) → i < length xs → read d (xs ++ ys) i ≡ read d xs i
  unfolding read
  read-append [] ys i h = absurd (omega arith)
  read-append (x ∷ xs) ys zero h = refl
  read-append (x ∷ xs) ys (suc i) h = read-append xs ys i (omega arith)

  set-perm :
      (xs : List A) (i : ℕ) (v : A) → i < length xs → Perm (read d xs i ∷ set xs i v) (v ∷ xs)
  unfolding read
  set-perm [] i v h = absurd (omega arith)
  set-perm (x ∷ xs) zero v h = Perm.swap v x xs
  set-perm (x ∷ xs) (suc i) v h =
      Perm.trans (Perm.swap x (read d xs i) (set xs i v))
        (Perm.trans (Perm.cons x (set-perm xs i v (omega arith))) (Perm.swap v x xs))

  pub length-swapped : (xs : List A) (i j : ℕ) → length (swapped xs i j) ≡ length xs
  unfolding swapped
  length-swapped xs i j = simp length-set

  module _ (xs : List A) (i j : ℕ) (hi : i < length xs) (hj : j < length xs) where
    pub read-swapped :
        (c : ℕ)
        → read d (swapped xs i j) c
          ≡ (if j == c then read d xs i else if i == c then read d xs j else read d xs c)
    unfolding swapped
    read-swapped c = rw (
      read-set (set xs i (read d xs j)) j c (read d xs i) (rw length-set hj),
      read-set xs i c (read d xs j) hi,
    )

    pub swapped-perm : Perm (swapped xs i j) xs
    unfolding swapped
    swapped-perm =
        let once = set xs i (read d xs j) in
        let same : read d once j ≡ read d xs j = ground (arith, read-set xs i j (read d xs j)) in
        let outer = set-perm once j (read d xs i) (rw length-set hj) in
        Perm.cons_inv (Perm.trans (rw same at outer) (set-perm xs i (read d xs j) hi))
