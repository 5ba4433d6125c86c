-- ===== src/EventBus/Queue.antt =====
-- core/event_bus/src/queue.ts: the binary heap of pending events. An access out of range, which
-- would hand `undefined` to `compare`, makes the model's result `none`.
pub mod Order
pub mod Up
pub mod Down
pub mod Service
use imip.Base.{
  ℕ, zero, suc, ◌+◌, ◌-◌, ◌*◌, ◌/◌, ◌≤◌, ◌<◌, ◌≡◌, Bool, true, false, List, [], ◌∷◌, ◌++◌, Option,
  none, some, length, get_elem?, set, ltb, leb, ◌==◌, if◌then◌else◌, Result, ok, err, arith, refl,
}
use imip.Base.Arrays.{read, split_last, swapped, get_elem?-read}
use imip.EventBus.Types.{EventPriority, EventEnvelope, EventBusError, queue_overflow}

unfoldable pub priority_rank : EventPriority → ℕ
priority_rank EventPriority.critical = 0
priority_rank EventPriority.high = 1
priority_rank EventPriority.normal = 2
priority_rank EventPriority.low = 3
priority_rank EventPriority.background = 4

pub record QueueItem (P : Type 0) : Type 0 where
  pub envelope : EventEnvelope P
  pub rank : ℕ
  pub sequence : ℕ

pub record PriorityEventQueue (P : Type 0) : Type 0 where
  pub heap : List (QueueItem P)
  pub sequence_counter : ℕ
  pub max_size : ℕ

infixl 5 ◌>>=◌
abbrev ◌>>=◌ {ℓ κ} : {A : Type ℓ} {B : Type κ} → Option A → (A → Option B) → Option B
none >>= f = none
some a >>= f = f a

abbrev pub parent : ℕ → ℕ
parent i = (i - 1) / 2

module _ {P : Type 0} where
  -- `compare(a, b) < 0`.
  unfoldable pub before : QueueItem P → QueueItem P → Bool
  before a b = if a.rank == b.rank then ltb a.sequence b.sequence else ltb a.rank b.rank

  unfoldable pub exchange : List (QueueItem P) → ℕ → ℕ → Option (List (QueueItem P))
  exchange heap i j = do x ← get_elem? heap i; y ← get_elem? heap j; some (set (set heap i y) j x)

  unfoldable pub bubble_up : ℕ → List (QueueItem P) → ℕ → Option (List (QueueItem P))
  bubble_up zero heap i = none
  bubble_up (suc fuel) heap i =
      let rise = exchange heap i (parent i) >>= λ h. bubble_up fuel h (parent i) in
      let step : Option (List (QueueItem P)) = do
        x ← get_elem? heap i
        y ← get_elem? heap (parent i)
        if before x y then rise else some heap
      in if ltb 0 i then step else some heap

  -- `if (c < this.heap.length && this.compare(this.heap[c], this.heap[smallest]) < 0) smallest = c`.
  unfoldable pub smaller : List (QueueItem P) → ℕ → ℕ → Option ℕ
  smaller heap c smallest =
      let test : Option ℕ = do
        x ← get_elem? heap c
        y ← get_elem? heap smallest
        some (if before x y then c else smallest)
      in if ltb c (length heap) then test else some smallest

  unfoldable pub bubble_down : ℕ → List (QueueItem P) → ℕ → Option (List (QueueItem P))
  bubble_down zero heap i = none
  bubble_down (suc fuel) heap i = do
    left ← smaller heap (i * 2 + 1) i
    smallest ← smaller heap (i * 2 + 2) left
    let sink = exchange heap i smallest >>= λ h. bubble_down fuel h smallest
    if smallest == i then some heap else sink

  -- The sifted heap; `none` stands for fuel that runs out or an access out of range.
  abbrev pub settled : Option (List (QueueItem P)) → List (QueueItem P) → List (QueueItem P)
  settled none heap = heap
  settled (some h) heap = h

  unfoldable pub new_queue : ℕ → PriorityEventQueue P
  new_queue max_size = record { heap = []; sequence_counter = 0; max_size = max_size }

  abbrev pub size : PriorityEventQueue P → ℕ
  size q = length q.heap

  abbrev pub next_item : PriorityEventQueue P → EventEnvelope P → QueueItem P
  next_item q envelope = record {
    envelope = envelope;
    rank = priority_rank envelope.priority;
    sequence = q.sequence_counter + 1;
  }

  unfoldable pub enqueue :
      PriorityEventQueue P → EventEnvelope P → Result EventBusError (PriorityEventQueue P)
  enqueue q envelope =
      let pushed = q.heap ++ next_item q envelope ∷ [] in
      if leb q.max_size (size q)
      then err (queue_overflow q.max_size)
      else ok (record q {
        heap = settled (bubble_up (length pushed) pushed (length pushed - 1)) pushed;
        sequence_counter = q.sequence_counter + 1;
      })

  -- The heap after `pop`, its first entry then overwritten by the popped one unless it is empty.
  refill : List (QueueItem P) × QueueItem P → List (QueueItem P)
  refill ([], last) = []
  refill (top ∷ rest, last) =
      settled (bubble_down (suc (length rest) + 1) (last ∷ rest) 0) (last ∷ rest)

  unfoldable pub dequeue_item : List (QueueItem P) → Option (QueueItem P × List (QueueItem P))
  unfolding refill
  dequeue_item [] = none
  dequeue_item (top ∷ rest) = some (top, refill (split_last top rest))

  unfoldable pub dequeue : PriorityEventQueue P → Option (EventEnvelope P) × PriorityEventQueue P
  dequeue q = elim (dequeue_item q.heap) [
    | none ↦ (none, q)
    | some (top, rest) ↦ (some top.envelope, record q { heap = rest })
  ]

  module _ (d : QueueItem P) (heap : List (QueueItem P)) (i j : ℕ) where
    pub exchange-swapped :
        i < length heap → j < length heap → exchange heap i j ≡ some (swapped d heap i j)
    unfolding exchange swapped
    exchange-swapped hi hj = rw (get_elem?-read d heap i hi, get_elem?-read d heap j hj)

    pub smaller-read :
        i < length heap
        → j < length heap
        → smaller heap i j ≡ some (if before (read d heap i) (read d heap j) then i else j)
    unfolding smaller
    smaller-read hi hj = ground (arith, get_elem?-read d heap i hi, get_elem?-read d heap j hj)

    pub smaller-past : length heap ≤ i → smaller heap i j ≡ some j
    unfolding smaller
    smaller-past h = ground arith
