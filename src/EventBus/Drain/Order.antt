-- ===== src/EventBus/Drain/Order.antt =====
-- `drainQueue` of core/event_bus/src/InstitutionalEventBus.ts: its end, and the order of dispatch.
use mathlib.Core.List.{Mem, Perm, Pairwise, mem-cons_self, mem-cons_of_mem}
use mathlib.Core.List.Perm
use imip.Base.{
  ℕ, zero, suc, ◌<◌, ◌≡◌, refl, sym, ap, ◌∙◌, subst, inl, inr, true, false, String, List, [], ◌∷◌,
  Option, none, some, map, ok, arith, Option-cases,
}
use imip.Base.Arrays.{length-perm}
use imip.Base.Dict.{Dict, has, get}
use imip.EventBus.Types.{EventDefinition, EventEnvelope, ProcessingStatus}
use imip.EventBus.Registry.{require}
use imip.EventBus.Queue.{QueueItem, PriorityEventQueue, dequeue, size}
use imip.EventBus.Queue.Order.{NotAfter}
use imip.EventBus.Queue.Service.{QueueInv, Dequeued, dequeue-Dequeued}
use imip.EventBus.Bus.{InstitutionalEventBus}
use imip.EventBus.Delivery.{HandlerOutcome, dispatch_now, recipients}
use imip.EventBus.Delivery.Keeps.{deliver-keeps}
use imip.EventBus.Drain.{Drained, emptied, drain_queue, drain_step, drain_one, resolved}

require_known :
    {P : Type 0} (name : String) (m : Dict (EventDefinition P))
    → has name m ≡ true
    → (d : EventDefinition P) × (require name m ≡ ok d)
unfolding has require
require_known name m h = elim (Option-cases (get name m)) [
  | inl e ↦ cc (rw (e, has) at h)
  | inr (d, e) ↦ (d, rw (e, require))
]

module _ {P : Type 0} where
  -- The drain ended, all that waited was dispatched, and in which order.
  pub record IsDrained (q : PriorityEventQueue P) (d : Drained P) : Type 0 where
    pub ended : d.ending ≡ emptied
    pub stopped : d.bus.draining ≡ false
    pub empty : d.bus.queue.heap ≡ []
    pub items : List (QueueItem P)
    pub in_order : Pairwise NotAfter items
    pub all_of : Perm items q.heap
    pub dispatched : map (λ p. p.0) d.dispatched ≡ map (λ x. x.envelope) items

  abbrev pub AllKnown : InstitutionalEventBus P → Type 0
  AllKnown b = (x : QueueItem P) → Mem x b.queue.heap → has x.envelope.event_type b.registry ≡ true

module _ {P : Type 0}
    (invoke : ℕ
      → EventEnvelope P
      → InstitutionalEventBus P
      → InstitutionalEventBus P × HandlerOutcome)
    (elapsed : EventEnvelope P → ℕ) where
  module _
      (quiet : (h : ℕ) (e : EventEnvelope P) (b : InstitutionalEventBus P)
        → ((invoke h e b).0.queue ≡ b.queue) × ((invoke h e b).0.registry ≡ b.registry)) where
    dispatch_now-quiet :
        (e : EventEnvelope P) (d : EventDefinition P) (b : InstitutionalEventBus P)
        → let after = (dispatch_now invoke (elapsed e) e d b).0 in
          (after.queue ≡ b.queue) × (after.registry ≡ b.registry)
    unfolding dispatch_now
    dispatch_now-quiet e d b =
        let sent : EventEnvelope P = record e { processing_status = ProcessingStatus.dispatched } in
        deliver-keeps invoke (λ c. (c.queue ≡ b.queue) × (c.registry ≡ b.registry))
          (λ h e' c q. ((quiet h e' c).0 ∙ q.0, (quiet h e' c).1 ∙ q.1)) (λ c r q. q)
          (recipients d sent b) sent b (refl, refl)

    -- With handlers that leave the queue and the registry alone, with waiting events that are all
    -- registered, and with more fuel than events wait, a drain ends; it empties the queue, and
    -- dispatches exactly the events that waited: by priority, and first come first served within
    -- one priority.
    pub drain_queue-IsDrained :
        (fuel : ℕ) (b : InstitutionalEventBus P)
        → size b.queue < fuel
        → QueueInv b.queue
        → AllKnown b
        → IsDrained b.queue (drain_queue invoke elapsed fuel b)
    unfolding drain_queue
    drain_queue-IsDrained zero b f v k = absurd (omega arith)
    drain_queue-IsDrained (suc fuel) b f v k =
        go (dequeue b.queue) refl (dequeue-Dequeued b.queue v) (λ c. drain_queue-IsDrained fuel c)
      where
        go :
            (r : Option (EventEnvelope P) × PriorityEventQueue P)
            → dequeue b.queue ≡ r
            → Dequeued b.queue r
            → ((c : InstitutionalEventBus P)
                → size c.queue < fuel
                → QueueInv c.queue
                → AllKnown c
                → IsDrained c.queue (drain_queue invoke elapsed fuel c))
            → IsDrained b.queue (drain_queue invoke elapsed (suc fuel) b)
        go (none, q) e s ih =
            rw (e, drain_step)
              (record {
                ended = refl;
                stopped = refl;
                empty = ap (λ z. z.heap) s.1 ∙ s.0;
                items = [];
                in_order = Pairwise.nil;
                all_of = subst (Perm []) (sym s.0) Perm.rfl;
                dispatched = refl;
              })
        go (some x, q) e s ih =
            let (item, same, perm, first, inv, _, _) = s in
            let inside = λ (y : QueueItem P) (m : Mem y (item ∷ q.heap)). (Perm.mem_iff perm).0 m in
            let known : has x.event_type b.registry ≡ true =
              subst (λ z. has z.event_type b.registry ≡ true) same
                (k item (inside item mem-cons_self)) in
            let (d, registered) = require_known x.event_type b.registry known in
            let after : InstitutionalEventBus P =
              (dispatch_now invoke (elapsed x) x d (record b { queue = q })).0 in
            let calm = dispatch_now-quiet x d (record b { queue = q }) in
            let c : InstitutionalEventBus P = resolved invoke elapsed x.event_id after in
            let smaller : size q < fuel = omega (arith, length-perm perm) in
            let d' : IsDrained q (drain_queue invoke elapsed fuel c) =
              subst (λ z. IsDrained z (drain_queue invoke elapsed fuel c)) calm.0
                (ih c (subst (λ z. size z < fuel) (sym calm.0) smaller)
                  (subst QueueInv (sym calm.0) inv)
                  (λ y m.
                    subst (λ m. has y.envelope.event_type m ≡ true) (sym calm.1)
                      (k y
                        (inside y (mem-cons_of_mem item (subst (λ z. Mem y z.heap) calm.0 m)))))) in
            rw (e, drain_step)
              (rw (registered, drain_one)
                (record {
                  ended = d'.ended;
                  stopped = d'.stopped;
                  empty = d'.empty;
                  items = item ∷ d'.items;
                  in_order =
                      Pairwise.cons
                        (λ y m.
                          first y (inside y (mem-cons_of_mem item ((Perm.mem_iff d'.all_of).0 m))))
                        d'.in_order;
                  all_of = Perm.trans (Perm.cons item d'.all_of) perm;
                  dispatched = cc (same, d'.dispatched);
                }))
