-- ===== src/EventBus/Queue/Down.antt =====
-- `bubbleDown` of core/event_bus/src/queue.ts and the heap order below one entry.
use mathlib.Core.List.{Perm}
use mathlib.Core.List.Perm
use imip.Base.{
  ℕ, zero, suc, ◌+◌, ◌-◌, ◌*◌, ◌<◌, ◌≡◌, ◌≢◌, ◌⊎◌, true, List, length, arith, some, inl, inr,
  Bool-cases, ltb, if◌then◌else◌, ltb→lt, ◌==◌,
}
use imip.Base.Arrays.{read, swapped, read-swapped, length-swapped, swapped-perm}
use imip.EventBus.Queue.{
  QueueItem, before, parent, bubble_down, smaller, exchange-swapped, smaller-read, smaller-past,
}
use imip.EventBus.Queue.Order.{
  NotAfter, NotAfter-refl, NotAfter-trans, NotAfter-of_before, IsHeap, IsBridged,
}

module _ {P : Type 0} (d : QueueItem P) where
  -- Only the edges below `i` may be out of order.
  pub record DownInv (a : List (QueueItem P)) (i : ℕ) : Type 0 where
    pub inside : i < length a
    pub edges :
        (c : ℕ) → 0 < c → c < length a → parent c ≢ i → NotAfter (read d a (parent c)) (read d a c)
    pub bridged : IsBridged d a i

  pick : List (QueueItem P) → ℕ → ℕ → ℕ
  pick a c s = if ltb c (length a) then (if before (read d a c) (read d a s) then c else s) else s

  smaller-pick :
      (a : List (QueueItem P)) (c s : ℕ) → s < length a → smaller a c s ≡ some (pick a c s)
  unfolding pick
  smaller-pick a c s h = ground (arith, smaller-read d a c s, smaller-past d a c s)

  pick-cases :
      (a : List (QueueItem P)) (c s : ℕ)
      → ((pick a c s ≡ s) × (c < length a → NotAfter (read d a s) (read d a c)))
        ⊎ ((pick a c s ≡ c) × (c < length a) × (before (read d a c) (read d a s) ≡ true))
  unfolding pick
  pick-cases a c s = elim (Bool-cases (ltb c (length a))) [
    | inr past ↦ inl (rw past, (λ h. absurd (ground arith)))
    | inl near ↦ elim (Bool-cases (before (read d a c) (read d a s))) [
      | inl b ↦ inr (rw (near, b), ltb→lt c (length a) near, b)
      | inr b ↦ inl (rw (near, b), (λ h. b))
    ]
  ]

  abbrev chosen : List (QueueItem P) → ℕ → ℕ
  chosen a i = pick a (i * 2 + 2) (pick a (i * 2 + 1) i)

  -- The entry with which `i` is exchanged: the first of the three to leave.
  record IsChoice (a : List (QueueItem P)) (i m : ℕ) : Type 0 where
    inside : m < length a
    least : (c : ℕ) → 0 < c → c < length a → parent c ≡ i → NotAfter (read d a m) (read d a c)
    child : (m ≡ i) ⊎ ((0 < m) × (parent m ≡ i) × (before (read d a m) (read d a i) ≡ true))

  before_trans : (x y z : QueueItem P) → before x y ≡ true → before y z ≡ true → before x z ≡ true
  unfolding before
  before_trans x y z p q = ground arith

  child_cases : (i c : ℕ) → 0 < c → parent c ≡ i → (c ≡ i * 2 + 1) ⊎ (c ≡ i * 2 + 2)
  child_cases i c p q = omega arith

  chosen-IsChoice : (a : List (QueueItem P)) (i : ℕ) → i < length a → IsChoice a i (chosen a i)
  chosen-IsChoice a i h =
      let l = i * 2 + 1 in
      let r = i * 2 + 2 in
      let m = pick a l i in
      record {
        inside = ground (arith, pick-cases a l i, pick-cases a r m);
        least = λ c p q e. ground (
          arith,
          child_cases i c p e,
          pick-cases a l i,
          pick-cases a r m,
          NotAfter-refl (read d a c),
          NotAfter-of_before (read d a l) (read d a i),
          NotAfter-of_before (read d a r) (read d a m),
          NotAfter-trans (read d a r) (read d a m) (read d a l),
        );
        child = ground (
          arith,
          pick-cases a l i,
          pick-cases a r m,
          before_trans (read d a r) (read d a l) (read d a i),
        );
      }

  module _ (a : List (QueueItem P)) (i m : ℕ) (v : DownInv a i) (s : IsChoice a i m) (pos : 0 < m)
      (e : parent m ≡ i) (below : before (read d a m) (read d a i) ≡ true) where
    swapped-DownInv : DownInv (swapped d a i m) m
    swapped-DownInv =
        let size = length-swapped d a i m in
        let at = read-swapped d a i m v.inside s.inside in
        record {
          inside = rw size s.inside;
          edges = λ c p q r. ground (
            arith,
            size,
            at c,
            at (parent c),
            v.edges c,
            v.bridged m,
            s.least c,
            NotAfter-of_before (read d a m) (read d a i) below,
          );
          bridged = λ c p q r t. ground (arith, size, at c, at (parent m), v.edges c);
        }

  abbrev pub Sunk : List (QueueItem P) → ℕ → ℕ → Type 0
  Sunk a i fuel = (b : List (QueueItem P)) × (bubble_down fuel a i ≡ some b) × IsHeap d b × Perm b a

  pub bubble_down-IsHeap :
      (fuel : ℕ) (a : List (QueueItem P)) (i : ℕ)
      → length a - i < fuel
      → DownInv a i
      → Sunk a i fuel
  unfolding bubble_down
  bubble_down-IsHeap zero a i f v = absurd (omega arith)
  bubble_down-IsHeap (suc fuel) a i f v =
      let s = chosen-IsChoice a i v.inside in
      let m = chosen a i in
      let left : pick a (i * 2 + 1) i < length a =
        ground (arith, pick-cases a (i * 2 + 1) i, v.inside) in
      elim (Bool-cases (m == i)) [
        | inl stay ↦ (
          a,
          rw (
            smaller-pick a (i * 2 + 1) i v.inside,
            smaller-pick a (i * 2 + 2) (pick a (i * 2 + 1) i) left,
            stay,
          ),
          (λ c p q. ground (arith, v.edges c, s.least c)),
          Perm.rfl,
        )
        | inr move ↦
            let pos : 0 < m = ground (arith, s.child) in
            let e : parent m ≡ i = ground (arith, s.child) in
            let below : before (read d a m) (read d a i) ≡ true = ground (arith, s.child) in
            let (b, q, h, p) =
              bubble_down-IsHeap fuel (swapped d a i m) m
                (omega (arith, length-swapped d a i m, s.inside))
                (swapped-DownInv a i m v s pos e below) in
            (
              b,
              rw
                  (
                    smaller-pick a (i * 2 + 1) i v.inside,
                    smaller-pick a (i * 2 + 2) (pick a (i * 2 + 1) i) left,
                    move,
                    exchange-swapped d a i m v.inside s.inside,
                  )
                  q,
              h,
              Perm.trans p (swapped-perm d a i m v.inside s.inside),
            )
      ]
