-- ===== src/EventBus/Delivery.antt =====
-- core/event_bus/src/InstitutionalEventBus.ts: `dispatchNow` and `invokeSubscriber`. What a handler
-- does is the parameter `invoke`: it may call the bus again, so it takes the bus and gives it back,
-- with its failure and how long it took. Handlers run one after the other, each to its end.
pub mod Results
pub mod Keeps
use imip.Base.{
  ℕ, zero, suc, ◌+◌, ◌-◌, Bool, true, false, not, ◌&&◌, ◌||◌, String, List, [], ◌∷◌, ◌++◌, Option,
  none, some, filter, includes, length, drop, ◌===◌, ltb, ◌==◌, if◌then◌else◌, Result, ok, err,
  throw_if, ◌>>=◌, ◌>>◌,
}
use imip.Base.Dict.{Dict}
use imip.EventBus.Types.{
  EventDefinition, EventEnvelope, EventCategory, EventBusError, EventAuditRecord, EventSeverity,
  EventHistoryFilter, ProcessingStatus, DeliveryMode, DeliveryTargeting, Outcome, PublishOptions,
  SubscribeOptions, Subscription, SelectorKind, SubscriberDeliveryResult, category_name,
  publisher_ownership_violation, payload_validation, missing_target_authorities,
  circular_publication, subscriber_not_allowed,
}
use imip.EventBus.Registry.{require, register}
use imip.EventBus.Queue
use imip.EventBus.Queue.{PriorityEventQueue, new_queue, enqueue, dequeue}
use imip.EventBus.Subscriptions.{
  SubscriptionRegistry, new_registry, add, remove, matches_for, record_success, record_failure,
  dead_count,
}
use imip.EventBus.Persistence.{EventPersistence, record_event}
use imip.EventBus.Bus.{InstitutionalEventBus, Stamp, is_directed, validate, envelope_of}

abbrev pub duration_window : ℕ
duration_window = 1000

pub record HandlerOutcome : Type 0 where
  pub error : Option String
  pub duration_ms : ℕ

abbrev pub lists_authority : Option (List String) → String → Bool
lists_authority none authority = false
lists_authority (some authorities) authority = includes authorities authority

module _ {P : Type 0} where
  abbrev pub accepts : Option (EventEnvelope P → Bool) → EventEnvelope P → Bool
  accepts none envelope = true
  accepts (some test) envelope = test envelope

  abbrev pub is_target : EventDefinition P → EventEnvelope P → Subscription P → Bool
  is_target definition envelope s =
      not (is_directed definition.targeting)
      || lists_authority envelope.target_authorities s.subscriber_authority

  unfoldable pub recipients :
      EventDefinition P → EventEnvelope P → InstitutionalEventBus P → List (Subscription P)
  recipients definition envelope bus =
      filter (λ s. accepts s.filter envelope)
        (filter (is_target definition envelope)
          (matches_for envelope.event_type (category_name definition.category) bus.subscriptions))

abbrev pub failures : List SubscriberDeliveryResult → ℕ
failures results = length (filter (λ r. not r.success) results)

unfoldable pub outcome_of : ℕ → ℕ → Outcome
outcome_of matched failed =
    if matched == 0
    then Outcome.no_subscribers
    else if ltb 0 matched && failed == matched
    then Outcome.failed
    else if ltb 0 failed
    then Outcome.partial
    else Outcome.completed

abbrev pub windowed : List ℕ → List ℕ
windowed durations = if ltb duration_window (length durations) then drop 1 durations else durations

module _ {P : Type 0}
    (invoke : ℕ
      → EventEnvelope P
      → InstitutionalEventBus P
      → InstitutionalEventBus P × HandlerOutcome) where
  abbrev pub delivered :
      Subscription P
      → InstitutionalEventBus P × HandlerOutcome
      → InstitutionalEventBus P × SubscriberDeliveryResult
  delivered s (bus, outcome) = elim outcome.error [
    | none ↦ (
      record bus { subscriptions = record_success s.subscription_id bus.subscriptions },
      record {
        subscription_id = s.subscription_id;
        subscriber_authority = s.subscriber_authority;
        success = true;
        duration_ms = outcome.duration_ms;
        error = none;
      },
    )
    | some message ↦ (
      record bus { subscriptions = (record_failure s.subscription_id bus.subscriptions).0 },
      record {
        subscription_id = s.subscription_id;
        subscriber_authority = s.subscriber_authority;
        success = false;
        duration_ms = outcome.duration_ms;
        error = some message;
      },
    )
  ]

  unfoldable pub invoke_subscriber :
      Subscription P
      → EventEnvelope P
      → InstitutionalEventBus P
      → InstitutionalEventBus P × SubscriberDeliveryResult
  invoke_subscriber s envelope bus = delivered s (invoke s.handler envelope bus)

  unfoldable pub deliver :
      List (Subscription P)
      → EventEnvelope P
      → InstitutionalEventBus P
      → InstitutionalEventBus P × List SubscriberDeliveryResult
  deliver [] envelope bus = (bus, [])
  deliver (s ∷ ss) envelope bus =
      let first = invoke_subscriber s envelope bus in
      let rest = deliver ss envelope first.0 in (rest.0, first.1 ∷ rest.1)

  unfoldable pub dispatch_now :
      ℕ
      → EventEnvelope P
      → EventDefinition P
      → InstitutionalEventBus P
      → InstitutionalEventBus P × EventAuditRecord
  dispatch_now elapsed_ms envelope definition bus =
      let sent : EventEnvelope P = record envelope {
        processing_status = ProcessingStatus.dispatched;
      } in
      let matched = recipients definition sent bus in
      let (after, results) = deliver matched sent bus in
      let failed = failures results in
      let all_failed = ltb 0 (length matched) && failed == length matched in
      let settled : EventEnvelope P = record sent {
        processing_status =
            if all_failed then ProcessingStatus.failed else ProcessingStatus.completed;
        processing_duration_ms = some elapsed_ms;
      } in
      let audit : EventAuditRecord = record {
        event_id = envelope.event_id;
        event_type = envelope.event_type;
        publisher = envelope.publisher;
        timestamp = envelope.timestamp;
        correlation_id = envelope.correlation_id;
        causation_id = envelope.causation_id;
        subscriber_results = results;
        overall_duration_ms = elapsed_ms;
        outcome = outcome_of (length matched) failed;
      } in
      (
        record after {
          total_dispatched = after.total_dispatched + 1;
          total_failed_deliveries = after.total_failed_deliveries + failed;
          recent_dispatch_durations = windowed (after.recent_dispatch_durations ++ elapsed_ms ∷ []);
          persistence = record_event settled audit after.persistence;
        },
        audit,
      )
