-- ===== src/Runtime/Graph/Degrees.antt =====
-- The two maps that the algorithm starts from, read at a component.
use imip.Base.{
  ℕ, ◌+◌, ◌-◌, ◌≤◌, ◌≡◌, refl, ◌&&◌, String, List, [], ◌∷◌, ◌++◌, includes, length, ◌==◌, ltb,
  if◌then◌else◌, ◌===◌, count, count-append, includes-count, arith,
}
use imip.Base.Dict
use imip.Base.Dict.{Dict, get, put, keys, values}
use imip.Runtime.Types.{ComponentDefinition}
use imip.Runtime.Graph.{degree, list_of, no_dependents, push_dependent, relax, count_degrees, link}

degree-put :
    (k n : String) (v : ℕ) (m : Dict ℕ) → degree n (put k v m) ≡ (if k === n then v else degree n m)
unfolding degree
degree-put k n v m = ground (arith, Dict.get-put k n v m)

list_of-put :
    (k n : String) (v : List String) (m : Dict (List String))
    → list_of n (put k v m) ≡ (if k === n then v else list_of n m)
unfolding list_of
list_of-put k n v m = ground (arith, Dict.get-put k n v m)

-- Each dependent loses one degree for each time that it is listed.
pub degree-relax :
    (ds ready : List String) (m : Dict ℕ) (n : String)
    → degree n (relax ds ready m).1 ≡ degree n m - count n ds
unfolding relax
degree-relax [] ready m n = omega arith
degree-relax (d ∷ ds) ready m n = ground (
  arith,
  degree-put d n (degree d m - 1) m,
  degree-relax ds (if degree d m - 1 == 0 then ready ++ d ∷ [] else ready)
      (put d (degree d m - 1) m) n,
)

-- It becomes ready, once, if that was the last of its degree.
pub count-relax :
    (ds ready : List String) (m : Dict ℕ) (n : String)
    → count n ds ≤ degree n m
    → count n (relax ds ready m).0
      ≡ count n ready + (if ltb 0 (count n ds) && count n ds == degree n m then 1 else 0)
unfolding relax
count-relax [] ready m n h = ground arith
count-relax (d ∷ ds) ready m n h = ground (
  arith,
  degree-put d n (degree d m - 1) m,
  count-append n ready (d ∷ []),
  count-relax ds (if degree d m - 1 == 0 then ready ++ d ∷ [] else ready) (put d (degree d m - 1) m)
      n,
)

pub no_dependents-empty :
    (names : List String) (m : Dict (List String)) (n : String)
    → list_of n m ≡ []
    → list_of n (no_dependents names m) ≡ []
unfolding no_dependents
no_dependents-empty [] m n h = h
no_dependents-empty (k ∷ ks) m n h =
    no_dependents-empty ks (put k [] m) n (ground (arith, list_of-put k n [] m))

count-push_dependent :
    (name : String) (deps : List String) (m : Dict (List String)) (x n : String)
    → count n (list_of x (push_dependent name deps m))
      ≡ count n (list_of x m) + (if name === n then count x deps else 0)
unfolding push_dependent
count-push_dependent name [] m x n = ground arith
count-push_dependent name (d ∷ ds) m x n = ground (
  arith,
  list_of-put d x (list_of d m ++ name ∷ []) m,
  count-append n (list_of d m) (name ∷ []),
  count-push_dependent name ds (put d (list_of d m ++ name ∷ []) m) x n,
)

module _ {W I : Type 0} where
  abbrev pub names_of : List (ComponentDefinition W I) → List String
  names_of [] = []
  names_of (d ∷ ds) = d.name ∷ names_of ds

  -- The dependencies of the component of that name.
  abbrev pub deps_of : String → List (ComponentDefinition W I) → List String
  deps_of n [] = []
  deps_of n (d ∷ ds) = let rest = deps_of n ds in if d.name === n then d.dependencies else rest

  pub degree-count_degrees :
      (ds : List (ComponentDefinition W I)) (m : Dict ℕ) (n : String)
      → count n (names_of ds) ≤ 1
      → degree n (count_degrees ds m)
        ≡ (if includes (names_of ds) n then length (deps_of n ds) else degree n m)
  unfolding count_degrees
  degree-count_degrees [] m n h = refl
  degree-count_degrees (d ∷ ds) m n h = ground (
    arith,
    degree-put d.name n (length d.dependencies) m,
    includes-count (names_of ds) n,
    degree-count_degrees ds (put d.name (length d.dependencies) m) n,
  )

  pub deps_of-unknown :
      (n : String) (ds : List (ComponentDefinition W I))
      → count n (names_of ds) ≡ 0
      → deps_of n ds ≡ []
  deps_of-unknown n [] h = refl
  deps_of-unknown n (d ∷ ds) h = ground (arith, deps_of-unknown n ds)

  pub count-link :
      (ds : List (ComponentDefinition W I)) (m : Dict (List String)) (x n : String)
      → count n (names_of ds) ≤ 1
      → count n (list_of x (link ds m)) ≡ count n (list_of x m) + count x (deps_of n ds)
  unfolding link
  count-link [] m x n h = omega arith
  count-link (d ∷ ds) m x n h = ground (
    arith,
    count-push_dependent d.name d.dependencies m x n,
    deps_of-unknown n ds,
    count-link ds (push_dependent d.name d.dependencies m) x n,
  )
