-- ===== src/EventBus/Publish.antt =====
-- core/event_bus/src/InstitutionalEventBus.ts: `publish` in both delivery modes. The bus stands beside
-- the result, for a call that throws may have changed it.
pub mod Modes
pub mod Errors
use imip.Base.{
  ℕ, zero, suc, ◌+◌, ◌-◌, Bool, true, false, not, ◌&&◌, ◌||◌, String, List, [], ◌∷◌, ◌++◌, Option,
  none, some, filter, includes, length, drop, ◌===◌, ltb, ◌==◌, if◌then◌else◌, Result, ok, err,
  throw_if, ◌>>=◌, ◌>>◌,
}
use imip.Base.Dict.{Dict}
use imip.EventBus.Types.{
  EventDefinition, EventEnvelope, EventCategory, EventBusError, EventAuditRecord, EventSeverity,
  EventHistoryFilter, ProcessingStatus, DeliveryMode, DeliveryTargeting, Outcome, PublishOptions,
  SubscribeOptions, Subscription, SelectorKind, SubscriberDeliveryResult, category_name,
  publisher_ownership_violation, payload_validation, missing_target_authorities,
  circular_publication, subscriber_not_allowed,
}
use imip.EventBus.Registry.{require, register}
use imip.EventBus.Queue
use imip.EventBus.Queue.{PriorityEventQueue, new_queue, enqueue, dequeue}
use imip.EventBus.Subscriptions.{
  SubscriptionRegistry, new_registry, add, remove, matches_for, record_success, record_failure,
  dead_count,
}
use imip.EventBus.Persistence.{EventPersistence, record_event}
use imip.EventBus.Bus.{InstitutionalEventBus, Stamp, is_directed, validate, envelope_of}
use imip.EventBus.Delivery.{HandlerOutcome, dispatch_now}

-- A synchronous publication ends with its audit, an asynchronous one waits under its event id.
pub data Published : Type 0 where
  audited : EventAuditRecord → Published
  queued : String → Published

abbrev pub is_sync : DeliveryMode → Bool
is_sync DeliveryMode.sync = true
is_sync DeliveryMode.async = false

unfoldable pub drop_last {ℓ} : {A : Type ℓ} → List A → List A
drop_last [] = []
drop_last (x ∷ []) = []
drop_last (x ∷ y ∷ ys) = x ∷ drop_last (y ∷ ys)

module _ {P : Type 0} where
  -- The microtask that drains the queue is queued unless one is under way.
  unfoldable pub schedule_drain : InstitutionalEventBus P → InstitutionalEventBus P
  schedule_drain bus = if bus.draining then bus else record bus { draining = true }

  unfoldable pub publish_async :
      EventEnvelope P
      → InstitutionalEventBus P
      → InstitutionalEventBus P × Result EventBusError Published
  unfolding schedule_drain
  publish_async envelope bus = elim (enqueue bus.queue envelope) [
    | err e ↦ (bus, err e)
    | ok queue ↦ (
      schedule_drain (record bus {
        queue = queue;
        pending_async_results = bus.pending_async_results ++ envelope.event_id ∷ [];
      }),
      ok (queued envelope.event_id),
    )
  ]

module _ {P : Type 0}
    (invoke : ℕ
      → EventEnvelope P
      → InstitutionalEventBus P
      → InstitutionalEventBus P × HandlerOutcome) where
  -- The stack is popped whether the dispatch succeeds or not.
  unfoldable pub publish_sync :
      ℕ
      → EventEnvelope P
      → EventDefinition P
      → InstitutionalEventBus P
      → InstitutionalEventBus P × Result EventBusError Published
  publish_sync elapsed_ms envelope definition bus =
      let entered : InstitutionalEventBus P = record bus {
        dispatch_stack = bus.dispatch_stack ++ envelope.event_type ∷ [];
      } in
      let (after, audit) = dispatch_now invoke elapsed_ms envelope definition entered in
      if includes bus.dispatch_stack envelope.event_type
      then (bus, err (circular_publication envelope.event_type bus.dispatch_stack))
      else (record after { dispatch_stack = drop_last after.dispatch_stack }, ok (audited audit))

  unfoldable pub publish :
      Stamp
      → String
      → String
      → P
      → PublishOptions
      → InstitutionalEventBus P
      → InstitutionalEventBus P × Result EventBusError Published
  publish stamp event_name publisher payload options bus =
      elim (validate event_name publisher payload options bus) [
        | err e ↦ (bus, err e)
        | ok definition ↦
            let envelope = envelope_of stamp definition event_name publisher payload options in
            let counted : InstitutionalEventBus P = record bus {
              total_published = bus.total_published + 1;
            } in
            if is_sync definition.delivery_mode
            then publish_sync stamp.elapsed_ms envelope definition counted
            else publish_async envelope counted
      ]
