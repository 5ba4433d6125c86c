-- ===== src/EventBus/Delivery/Keeps.antt =====
-- Deliveries, and properties of the bus that its handlers respect.
use imip.Base.{ℕ, List, [], ◌∷◌, inl, inr, Option-cases}
use imip.EventBus.Types.{EventEnvelope, Subscription}
use imip.EventBus.Subscriptions.{SubscriptionRegistry, record_success, record_failure}
use imip.EventBus.Bus.{InstitutionalEventBus}
use imip.EventBus.Delivery.{HandlerOutcome, deliver, invoke_subscriber, delivered}

module _ {P : Type 0}
    (invoke : ℕ
      → EventEnvelope P
      → InstitutionalEventBus P
      → InstitutionalEventBus P × HandlerOutcome) where
  -- What the handlers guarantee of a part of the bus, kept by a whole delivery.
  module _ {ℓ} (Q : InstitutionalEventBus P → Type ℓ)
      (kept_by_handlers : (h : ℕ) (e : EventEnvelope P) (b : InstitutionalEventBus P)
        → Q b
        → Q (invoke h e b).0)
      (kept_by_counts : (b : InstitutionalEventBus P) (r : SubscriptionRegistry P)
        → Q b
        → Q (record b { subscriptions = r })) where
    delivered-keeps :
        (s : Subscription P) (b : InstitutionalEventBus P) (o : HandlerOutcome)
        → Q b
        → Q (delivered invoke s (b, o)).0
    delivered-keeps s b o q = elim (Option-cases o.error) [
      | inl e ↦ rw e (kept_by_counts b (record_success s.subscription_id b.subscriptions) q)
      | inr (m, e) ↦ rw e (kept_by_counts b (record_failure s.subscription_id b.subscriptions).0 q)
    ]

    invoke_subscriber-keeps :
        (s : Subscription P) (e : EventEnvelope P) (b : InstitutionalEventBus P)
        → Q b
        → Q (invoke_subscriber invoke s e b).0
    unfolding invoke_subscriber
    invoke_subscriber-keeps s e b q =
        let (after, o) = invoke s.handler e b in
        delivered-keeps s after o (kept_by_handlers s.handler e b q)

    pub deliver-keeps :
        (ss : List (Subscription P)) (e : EventEnvelope P) (b : InstitutionalEventBus P)
        → Q b
        → Q (deliver invoke ss e b).0
    unfolding deliver
    deliver-keeps [] e b q = q
    deliver-keeps (s ∷ ss) e b q =
        deliver-keeps ss e (invoke_subscriber invoke s e b).0 (invoke_subscriber-keeps s e b q)
