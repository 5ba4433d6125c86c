-- ===== src/EventBus/Queue/Up.antt =====
-- `bubbleUp` of core/event_bus/src/queue.ts and the heap order above one entry.
use mathlib.Core.List.{Perm}
use mathlib.Core.List.Perm
use imip.Base.{
  ℕ, zero, suc, ◌<◌, ◌≡◌, ◌≢◌, true, List, length, arith, some, inl, inr, Bool-cases, ltb, ltb→lt,
}
use imip.Base.Arrays.{read, swapped, read-swapped, length-swapped, swapped-perm, get_elem?-read}
use imip.EventBus.Queue.{QueueItem, before, parent, bubble_up, exchange-swapped}
use imip.EventBus.Queue.Order.{NotAfter, NotAfter-trans, NotAfter-of_before, IsHeap, IsBridged}

module _ {P : Type 0} (d : QueueItem P) where
  -- Only the edge above `i` may be out of order.
  pub record UpInv (a : List (QueueItem P)) (i : ℕ) : Type 0 where
    pub inside : i < length a
    pub edges : (c : ℕ) → 0 < c → c < length a → c ≢ i → NotAfter (read d a (parent c)) (read d a c)
    pub bridged : IsBridged d a i

  module _ (a : List (QueueItem P)) (i : ℕ) (v : UpInv a i) (pos : 0 < i) where
    above : parent i < length a
    above = omega (arith, v.inside)

    swapped-UpInv :
        before (read d a i) (read d a (parent i)) ≡ true
        → UpInv (swapped d a i (parent i)) (parent i)
    swapped-UpInv below =
        let size = length-swapped d a i (parent i) in
        let at = read-swapped d a i (parent i) v.inside above in
        record {
          inside = rw size above;
          edges = λ c p q r. ground (
            arith,
            size,
            at c,
            at (parent c),
            v.edges c,
            v.bridged c,
            NotAfter-of_before (read d a i) (read d a (parent i)) below,
            NotAfter-trans (read d a i) (read d a (parent i)) (read d a c),
          );
          bridged = λ c p q r t. ground (
            arith,
            size,
            at c,
            at (parent (parent i)),
            v.edges c,
            v.edges (parent i),
            NotAfter-trans (read d a (parent (parent i))) (read d a (parent i)) (read d a c),
          );
        }

  abbrev pub Raised : List (QueueItem P) → ℕ → ℕ → Type 0
  Raised a i fuel = (b : List (QueueItem P)) × (bubble_up fuel a i ≡ some b) × IsHeap d b × Perm b a

  pub bubble_up-IsHeap :
      (fuel : ℕ) (a : List (QueueItem P)) (i : ℕ) → i < fuel → UpInv a i → Raised a i fuel
  unfolding bubble_up
  bubble_up-IsHeap zero a i f v = absurd (omega arith)
  bubble_up-IsHeap (suc fuel) a i f v = elim (Bool-cases (ltb 0 i)) [
    | inr root ↦ (a, rw root, (λ c p q. v.edges c p q (ground arith)), Perm.rfl)
    | inl pos ↦ elim (Bool-cases (before (read d a i) (read d a (parent i)))) [
      | inr stay ↦ (
        a,
        rw (
          pos,
          get_elem?-read d a i v.inside,
          get_elem?-read d a (parent i) (above a i v (ltb→lt 0 i pos)),
          stay,
        ),
        (λ c p q. ground (arith, v.edges c)),
        Perm.rfl,
      )
      | inl below ↦
          let up = above a i v (ltb→lt 0 i pos) in
          let (b, e, h, p) =
            bubble_up-IsHeap fuel (swapped d a i (parent i)) (parent i) (ground arith)
              (swapped-UpInv a i v (ltb→lt 0 i pos) below) in
          (
            b,
            rw
                (
                  pos,
                  get_elem?-read d a i v.inside,
                  get_elem?-read d a (parent i) up,
                  below,
                  exchange-swapped d a i (parent i) v.inside up,
                )
                e,
            h,
            Perm.trans p (swapped-perm d a i (parent i) v.inside up),
          )
    ]
  ]
