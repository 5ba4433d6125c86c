-- ===== src/EventBus/Queue/Service.antt =====
-- `enqueue` and `dequeue` of core/event_bus/src/queue.ts seen from outside, over the bag of the
-- items.
use mathlib.Core.Logic.{∥∥₁_elim}
use mathlib.Core.Logic.Or
use native.Mathlib.Bridge.{le_prop}
use native.Mathlib.Nat.{le_refl}
use mathlib.Core.List.{Perm, Mem, Memᴰ, mem-cons, mem-cons_of_mem, not-mem-nil}
use mathlib.Core.List.Perm
use imip.Base.{
  ℕ, suc, ◌+◌, ◌-◌, ◌≤◌, ◌<◌, ◌≡◌, refl, sym, List, [], ◌∷◌, ◌++◌, Option, none, some, length,
  arith, leb, Result, ok, err, length-append, Bool-cases, subst, inl, inr, some,
}
use imip.Base.Arrays.{
  read, split_last, append-split_last, push-perm, read-append, read-set, length-perm,
}
use imip.EventBus.Types.{EventEnvelope, EventBusError, queue_overflow}
use imip.EventBus.Queue.{
  QueueItem, PriorityEventQueue, parent, bubble_up, next_item, enqueue, dequeue_item, dequeue,
  refill, settled, size, new_queue,
}
use imip.EventBus.Queue.Order.{NotAfter, IsHeap, root_first}
use imip.EventBus.Queue.Up.{UpInv, Raised, bubble_up-IsHeap}
use imip.EventBus.Queue.Down.{DownInv, bubble_down-IsHeap}

module _ {P : Type 0} where
  -- The heap order, whatever stands for the entries past the end.
  abbrev pub IsOrdered : List (QueueItem P) → Type 0
  IsOrdered a = (d : QueueItem P) → IsHeap d a

  push-UpInv :
      (d : QueueItem P) (a : List (QueueItem P)) (x : QueueItem P)
      → IsHeap d a
      → UpInv d (a ++ x ∷ []) (length (a ++ x ∷ []) - 1)
  push-UpInv d a x h =
      let size = length-append a (x ∷ []) in
      record {
        inside = omega (arith, size);
        edges = λ c p q r.
            ground
              (arith, size, h c, read-append d a (x ∷ []) c, read-append d a (x ∷ []) (parent c));
        bridged = λ c p q r t. absurd (omega (arith, size));
      }

  -- The sifting after a push ends, and leaves the pushed item and the old ones in heap order.
  pub pushed-Raised :
      (d : QueueItem P) (a : List (QueueItem P)) (x : QueueItem P)
      → IsHeap d a
      → Raised d (a ++ x ∷ []) (length (a ++ x ∷ []) - 1) (length (a ++ x ∷ []))
  pushed-Raised d a x h =
      bubble_up-IsHeap d (length (a ++ x ∷ [])) (a ++ x ∷ []) (length (a ++ x ∷ []) - 1)
        (omega (arith, length-append a (x ∷ []))) (push-UpInv d a x h)

  front-IsHeap :
      (d : QueueItem P) (front : List (QueueItem P)) (last : QueueItem P)
      → IsHeap d (front ++ last ∷ [])
      → IsHeap d front
  front-IsHeap d front last h c p q = ground (
    arith,
    h c,
    length-append front (last ∷ []),
    read-append d front (last ∷ []) c,
    read-append d front (last ∷ []) (parent c),
  )

  root_set-DownInv :
      (d : QueueItem P) (x y : QueueItem P) (rest : List (QueueItem P))
      → IsHeap d (x ∷ rest)
      → DownInv d (y ∷ rest) 0
  root_set-DownInv d x y rest h = record {
    inside = omega arith;
    edges = λ c p q r.
        ground (arith, h c, read-set d (x ∷ rest) 0 c y, read-set d (x ∷ rest) 0 (parent c) y);
    bridged = λ c p q r t. absurd (omega arith);
  }

  -- The heap after its root has been taken out: in order, and holding the other items.
  refill-IsHeap :
      (d : QueueItem P) (front : List (QueueItem P)) (last top : QueueItem P)
      (rest : List (QueueItem P))
      → front ++ last ∷ [] ≡ top ∷ rest
      → IsHeap d (top ∷ rest)
      → IsHeap d (refill (front, last)) × Perm (top ∷ refill (front, last)) (top ∷ rest)
  unfolding refill
  refill-IsHeap d [] last top rest e h =
      let none_left : [] ≡ rest = cc in
      ((λ c p q. absurd (omega arith)), subst (λ r. Perm (top ∷ []) (top ∷ r)) none_left Perm.rfl)
  refill-IsHeap d (x ∷ front) last top rest e h =
      let others : front ++ last ∷ [] ≡ rest = cc in
      let kept : IsHeap d (x ∷ front) =
        front-IsHeap d (x ∷ front) last (subst (IsHeap d) (sym e) h) in
      let (b, done, heap, perm) =
        bubble_down-IsHeap d (suc (length front) + 1) (last ∷ front) 0 (omega arith)
          (root_set-DownInv d x last front kept) in
      rw done (
        heap,
        subst (λ r. Perm (top ∷ b) (top ∷ r)) others
            (Perm.cons top (Perm.trans perm (Perm.symm (push-perm front last)))),
      )

  Memᴰ-index {κ} :
      (Q : QueueItem P → Type κ) (d : QueueItem P) (a : List (QueueItem P)) {x : QueueItem P}
      → ((i : ℕ) → i < length a → Q (read d a i))
      → Memᴰ x a
      → Q x
  unfolding read
  Memᴰ-index Q d [] h m = elim m [ ]
  Memᴰ-index Q d (y ∷ a) h (Memᴰ.head e) = subst Q (sym e) (h 0 (omega arith))
  Memᴰ-index Q d (y ∷ a) h (Memᴰ.tail m) = Memᴰ-index Q d a (λ i p. h (suc i) (omega arith)) m

  first-Mem :
      (top : QueueItem P) (rest : List (QueueItem P)) {x : QueueItem P}
      → IsOrdered (top ∷ rest)
      → Mem x (top ∷ rest)
      → NotAfter top x
  unfolding read
  first-Mem top rest h m =
      ∥∥₁_elim m (hlevel) (
        Memᴰ-index (NotAfter top) top (top ∷ rest) (λ i p. root_first top (top ∷ rest) i (h top) p))

  pub record QueueInv (q : PriorityEventQueue P) : Type 0 where
    pub ordered : IsOrdered q.heap
    pub bounded : size q ≤ q.max_size
    pub numbered : (x : QueueItem P) → Mem x q.heap → x.sequence ≤ q.sequence_counter

  -- What `enqueue` promises.
  abbrev pub Enqueued :
      PriorityEventQueue P → EventEnvelope P → Result EventBusError (PriorityEventQueue P) → Type 0
  Enqueued q envelope (ok r) =
      (size q < q.max_size)
      × QueueInv r
      × Perm r.heap (next_item q envelope ∷ q.heap)
      × (r.sequence_counter ≡ q.sequence_counter + 1)
      × (r.max_size ≡ q.max_size)
  Enqueued q envelope (err e) = (q.max_size ≤ size q) × (e ≡ queue_overflow q.max_size)

  -- What `dequeue` promises.
  abbrev pub Dequeued :
      PriorityEventQueue P → Option (EventEnvelope P) × PriorityEventQueue P → Type 0
  Dequeued q (none, r) = (q.heap ≡ []) × (r ≡ q)
  Dequeued q (some envelope, r) =
      (item : QueueItem P) × (item.envelope ≡ envelope)
      × Perm (item ∷ r.heap) q.heap
      × ((x : QueueItem P) → Mem x q.heap → NotAfter item x)
      × QueueInv r
      × (r.sequence_counter ≡ q.sequence_counter)
      × (r.max_size ≡ q.max_size)

  pushed-IsHeap :
      (d : QueueItem P) (a : List (QueueItem P)) (x : QueueItem P)
      → IsHeap d a
      → let pushed = a ++ x ∷ [] in
        let heap = settled (bubble_up (length pushed) pushed (length pushed - 1)) pushed in
        IsHeap d heap × Perm heap (x ∷ a)
  pushed-IsHeap d a x h =
      let (b, done, heap, perm) = pushed-Raised d a x h in
      rw done (heap, Perm.trans perm (push-perm a x))

  -- Of a queue that keeps its invariant, `enqueue` throws if it is full, and then only; else it
  -- adds the item to the bag and keeps the invariant.
  pub enqueue-Enqueued :
      (q : PriorityEventQueue P) (envelope : EventEnvelope P)
      → QueueInv q
      → Enqueued q envelope (enqueue q envelope)
  unfolding enqueue
  enqueue-Enqueued q envelope v = elim (Bool-cases (leb q.max_size (size q))) [
    | inl full ↦ rw full (ground arith, refl)
    | inr room ↦
        let item = next_item q envelope in
        let (_, perm) = pushed-IsHeap item q.heap item (v.ordered item) in
        rw room (
          ground arith,
          record {
            ordered = λ d. (pushed-IsHeap d q.heap item (v.ordered d)).0;
            bounded = ground (arith, length-perm perm, room);
            numbered = λ x m.
                Or.elim le_prop (mem-cons.0 ((Perm.mem_iff perm).0 m)) (λ e. rw e (le_refl _))
                  (λ old. omega (arith, v.numbered x old));
          },
          perm,
          refl,
          refl,
        )
  ]

  -- What taking the root out of an array gives.
  abbrev Served : List (QueueItem P) → Option (QueueItem P × List (QueueItem P)) → Type 0
  Served a none = a ≡ []
  Served a (some (top, rest)) =
      IsOrdered rest × Perm (top ∷ rest) a × ((x : QueueItem P) → Mem x a → NotAfter top x)

  dequeue_item-Served : (a : List (QueueItem P)) → IsOrdered a → Served a (dequeue_item a)
  unfolding dequeue_item
  dequeue_item-Served [] h = refl
  dequeue_item-Served (top ∷ rest) h =
      let split = split_last top rest in
      let after = λ (d : QueueItem P).
        refill-IsHeap d split.0 split.1 top rest (append-split_last top rest) (h d) in
      ((λ d. (after d).0), (after top).1, (λ x m. first-Mem top rest h m))

  -- Of a queue that keeps its invariant, `dequeue` gives nothing only if it is empty; else it takes
  -- an item out of the bag before which none of the rest is due, and keeps the invariant.
  pub dequeue-Dequeued : (q : PriorityEventQueue P) → QueueInv q → Dequeued q (dequeue q)
  unfolding dequeue
  dequeue-Dequeued q v = go (dequeue_item q.heap) refl (dequeue_item-Served q.heap v.ordered)
    where
      go :
          (r : Option (QueueItem P × List (QueueItem P)))
          → dequeue_item q.heap ≡ r
          → Served q.heap r
          → Dequeued q (dequeue q)
      go none e s = rw (e, dequeue) (s, refl)
      go (some (top, rest)) e s =
          rw (e, dequeue)
            (
              top,
              refl,
              s.1,
              s.2,
              record {
                ordered = s.0;
                bounded = omega (arith, v.bounded, length-perm s.1);
                numbered = λ x m. v.numbered x ((Perm.mem_iff s.1).0 (mem-cons_of_mem top m));
              },
              refl,
              refl,
            )

  pub new_queue-QueueInv : (max_size : ℕ) → QueueInv (new_queue max_size)
  unfolding new_queue
  new_queue-QueueInv n = record {
    ordered = λ d c p q. absurd (omega arith);
    bounded = omega arith;
    numbered = λ x m. absurd (not-mem-nil m);
  }
