-- ===== src/Base/Counts.antt =====
-- How often a text stands in a list: the multiset view in which orders are compared.
use Prim.Native.Nat.{ℕ, suc, ◌+◌, ◌-◌, ◌≤◌, ◌<◌}
use Prim.Native.String.{String}
use mathlib.Core.Path.{◌≡◌, refl, subst}
use mathlib.Core.Bool.{Bool, true}
use mathlib.Core.List.{List, [], ◌∷◌, ◌++◌, reverse, reverse-cons}
use native.Mathlib.Omega.{arith}
use imip.Base.Bools.{if◌then◌else◌, ◌===◌, str_discrete}
use imip.Base.Lists.{includes, length, filter}

abbrev pub count : String → List String → ℕ
count s [] = 0
count s (x ∷ xs) = let rest = count s xs in if x === s then suc rest else rest

pub count-append : (s : String) (xs ys : List String) → count s (xs ++ ys) ≡ count s xs + count s ys
count-append s [] ys = omega arith
count-append s (x ∷ xs) ys = ground (arith, count-append s xs ys)

pub includes-count : (xs : List String) (s : String) → includes xs s ≡ true → 0 < count s xs
includes-count [] s h = cc
includes-count (x ∷ xs) s h = ground (arith, includes-count xs s)

pub count-includes : (xs : List String) (s : String) → 0 < count s xs → includes xs s ≡ true
count-includes [] s h = absurd (omega arith)
count-includes (x ∷ xs) s h = ground (arith, count-includes xs s)

pub count-reverse : (s : String) (xs : List String) → count s (reverse xs) ≡ count s xs
count-reverse s [] = refl
count-reverse s (x ∷ xs) =
    ground (arith, reverse-cons x xs, count-append s (reverse xs) (x ∷ []), count-reverse s xs)

-- The list without the first `s`.
remove : String → List String → List String
remove s [] = []
remove s (x ∷ xs) = let rest = remove s xs in if x === s then xs else x ∷ rest

count-remove :
    (s n : String) (xs : List String)
    → count n (remove s xs) ≡ count n xs - (if s === n then 1 else 0)
unfolding remove
count-remove s n [] = omega arith
count-remove s n (x ∷ xs) = ground (arith, count-remove s n xs)

length-remove :
    (s : String) (xs : List String) → 0 < count s xs → suc (length (remove s xs)) ≡ length xs
unfolding remove
length-remove s [] h = absurd (omega arith)
length-remove s (x ∷ xs) h = ground (arith, length-remove s xs)

pub count-filter :
    (p : String → Bool) (n : String) (xs : List String)
    → count n (filter p xs) ≡ (if p n then count n xs else 0)
count-filter p n [] = ground arith
count-filter p n (x ∷ xs) = elim (str_discrete x n) [
  | yes e ↦
      subst (λ y. count y (filter p (x ∷ xs)) ≡ (if p y then count y (x ∷ xs) else 0)) e
        (ground (arith, count-filter p x xs))
  | no e ↦ ground (arith, count-filter p n xs)
]

-- What is counted less often everywhere is shorter; and if it is as long, it is the same bag.
pub length-le_of_counts :
    (xs ys : List String) → ((n : String) → count n xs ≤ count n ys) → length xs ≤ length ys
length-le_of_counts [] ys h = omega arith
length-le_of_counts (x ∷ xs) ys h =
    let here : 0 < count x ys = ground (arith, h x) in
    omega (
      arith,
      length-remove x ys here,
      length-le_of_counts xs (remove x ys) (λ n. ground (arith, h n, count-remove x n ys)),
    )

pub counts-eq_of_length :
    (xs ys : List String)
    → ((n : String) → count n xs ≤ count n ys)
    → length ys ≤ length xs
    → (n : String) → count n xs ≡ count n ys
counts-eq_of_length [] [] h l n = refl
counts-eq_of_length [] (y ∷ ys) h l n = absurd (omega arith)
counts-eq_of_length (x ∷ xs) ys h l n =
    let here : 0 < count x ys = ground (arith, h x) in
    let rest =
      counts-eq_of_length xs (remove x ys) (λ k. ground (arith, h k, count-remove x k ys))
        (omega (arith, length-remove x ys here)) n in
    ground (arith, rest, h n, count-remove x n ys)
