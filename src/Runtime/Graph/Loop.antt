-- ===== src/Runtime/Graph/Loop.antt =====
-- The invariant of the loop: what is in the order, what is ready, and what a degree counts.
use imip.Base.{
  ℕ, ◌+◌, ◌≤◌, ◌≡◌, refl, true, false, not, ◌&&◌, String, List, [], ◌∷◌, ◌++◌, includes, length,
  ◌==◌, if◌then◌else◌, ◌===◌, count, count-append, includes-count, arith, filter, All,
}
use mathlib.Core.List.{append_assoc, append-nil}
use imip.Base.Dict.{Dict}
use imip.Runtime.Types.{ComponentDefinition}
use imip.Runtime.Graph.{degree, list_of, relax}
use imip.Runtime.Graph.Degrees.{degree-relax, count-relax, names_of, deps_of}

-- How many of the dependencies are not yet in the order.
abbrev pub pending : List String → List String → ℕ
pending order deps = length (filter (λ d. not (includes order d)) deps)

includes-push :
    (order : List String) (x d : String)
    → includes (order ++ x ∷ []) d ≡ (if includes order d then true else x === d)
includes-push [] x d = ground arith
includes-push (y ∷ order) x d = ground (arith, includes-push order x d)

-- Taking `x` into the order settles the dependencies on `x`, and no others.
pub pending-push :
    (order deps : List String) (x : String)
    → includes order x ≡ false
    → pending (order ++ x ∷ []) deps + count x deps ≡ pending order deps
pending-push order [] x h = omega arith
pending-push order (d ∷ ds) x h = ground (arith, includes-push order x d, pending-push order ds x h)

pub pending_none :
    (order deps : List String) → pending order deps ≡ 0 → All (λ d. includes order d ≡ true) deps
pending_none order [] h = tt
pending_none order (d ∷ ds) h = ground (arith, pending_none order ds)

pub none_pending :
    (order deps : List String) → All (λ d. includes order d ≡ true) deps → pending order deps ≡ 0
none_pending order [] h = refl
none_pending order (d ∷ ds) h = ground (arith, none_pending order ds)

pub pending_start : (deps : List String) → pending [] deps ≡ length deps
pending_start [] = refl
pending_start (d ∷ ds) = ground (arith, pending_start ds)

module _ {W I : Type 0} (ds : List (ComponentDefinition W I)) where
  -- Each component of the list stands behind all of its dependencies.
  abbrev pub IsStartable : List String → List String → Type 0
  IsStartable before [] = Unit
  IsStartable before (n ∷ ns) =
      All (λ d. includes before d ≡ true) (deps_of n ds) × IsStartable (before ++ n ∷ []) ns

  IsStartable-push :
      (before order : List String) (x : String)
      → IsStartable before order
      → All (λ d. includes (before ++ order) d ≡ true) (deps_of x ds)
      → IsStartable before (order ++ x ∷ [])
  IsStartable-push before [] x s h = (rw append-nil at h, tt)
  IsStartable-push before (n ∷ order) x s h = (
    s.0,
    IsStartable-push (before ++ n ∷ []) order x s.1
        (rw (← append_assoc before (n ∷ []) order) at h),
  )

  -- 1 for a component with no pending dependency, and 0 for any other text.
  abbrev pub due : String → ℕ → ℕ
  due n d = if includes (names_of ds) n && d == 0 then 1 else 0

  pub record LoopInv (ready order : List String) (degrees : Dict ℕ) : Type 0 where
    pub once : (n : String) → count n order + count n ready ≡ due n (degree n degrees)
    pub counted :
        (n : String)
        → includes (names_of ds) n ≡ true
        → degree n degrees ≡ pending order (deps_of n ds)
    pub startable : IsStartable [] order

  module _ (dependents : Dict (List String))
      (linked : (x n : String)
        → count n (list_of x dependents)
          ≡ (if includes (names_of ds) n then count x (deps_of n ds) else 0))
      (x : String) (ready order : List String) (degrees : Dict ℕ)
      (v : LoopInv (x ∷ ready) order degrees) where
    fresh : includes order x ≡ false
    fresh = ground (arith, v.once x, includes-count order x)

    settle : (n : String) → count n (list_of x dependents) ≤ degree n degrees
    settle n = ground (arith, linked x n, v.counted n, pending-push order (deps_of n ds) x fresh)

    -- One round of the loop keeps the invariant.
    pub round-LoopInv :
        let relaxed = relax (list_of x dependents) ready degrees in
        LoopInv relaxed.0 (order ++ x ∷ []) relaxed.1
    round-LoopInv =
        let ks = list_of x dependents in
        record {
          once = λ n. ground (
            arith,
            v.once n,
            linked x n,
            settle n,
            degree-relax ks ready degrees n,
            count-relax ks ready degrees n (settle n),
            count-append n order (x ∷ []),
          );
          counted = λ n h. ground (
            arith,
            h,
            linked x n,
            v.counted n h,
            degree-relax ks ready degrees n,
            pending-push order (deps_of n ds) x fresh,
          );
          startable =
              IsStartable-push [] order x v.startable
                (pending_none order (deps_of x ds) (ground (arith, v.once x, v.counted x)));
        }
