-- ===== src/EventBus/Queue/Order.antt =====
-- The order in which events leave the queue, and the heap order of the array.
use imip.Base.{ℕ, zero, suc, ◌<◌, ◌≡◌, true, false, List, length, arith}
use imip.Base.Arrays.{read}
use imip.EventBus.Queue.{QueueItem, before, parent}

module _ {P : Type 0} where
  -- `b` does not leave before `a`.
  abbrev pub NotAfter : QueueItem P → QueueItem P → Type 0
  NotAfter a b = before b a ≡ false

  pub NotAfter-refl : (a : QueueItem P) → NotAfter a a
  unfolding before
  NotAfter-refl a = ground arith

  pub NotAfter-trans : (a b c : QueueItem P) → NotAfter a b → NotAfter b c → NotAfter a c
  unfolding before
  NotAfter-trans a b c p q = ground arith

  pub NotAfter-of_before : (a b : QueueItem P) → before a b ≡ true → NotAfter a b
  unfolding before
  NotAfter-of_before a b h = ground arith

  module _ (d : QueueItem P) where
    abbrev pub IsHeap : List (QueueItem P) → Type 0
    IsHeap a = (c : ℕ) → 0 < c → c < length a → NotAfter (read d a (parent c)) (read d a c)

    -- The edges from the parent of `i` to its children are in order, past `i`.
    abbrev pub IsBridged : List (QueueItem P) → ℕ → Type 0
    IsBridged a i =
        (c : ℕ)
        → 0 < c
        → c < length a
        → parent c ≡ i
        → 0 < i
        → NotAfter (read d a (parent i)) (read d a c)

    root_first_below :
        (k : ℕ) (a : List (QueueItem P)) (i : ℕ)
        → IsHeap a
        → i < k
        → i < length a
        → NotAfter (read d a 0) (read d a i)
    root_first_below zero a i h f p = absurd (omega arith)
    root_first_below (suc k) a i h f p = ground (
      arith,
      h i,
      NotAfter-refl (read d a 0),
      root_first_below k a (parent i) h,
      NotAfter-trans (read d a 0) (read d a (parent i)) (read d a i),
    )

    -- Nothing in a heap leaves before its root.
    pub root_first :
        (a : List (QueueItem P)) (i : ℕ)
        → IsHeap a
        → i < length a
        → NotAfter (read d a 0) (read d a i)
    root_first a i h p = root_first_below (suc i) a i h (omega arith) p
