-- ===== src/EventBus/Bus.antt =====
-- core/event_bus/src/InstitutionalEventBus.ts: the state, the subscribing calls, and the tests of
-- `publish`. A call that throws hands back an error. `Stamp` holds what the clock, `randomUUID` and
-- the measuring of one call give.
pub mod Validation
use imip.Base.{
  ℕ, zero, suc, ◌+◌, ◌-◌, Bool, true, false, not, ◌&&◌, ◌||◌, String, List, [], ◌∷◌, ◌++◌, Option,
  none, some, filter, includes, length, drop, ◌===◌, ltb, ◌==◌, if◌then◌else◌, Result, ok, err,
  throw_if, ◌>>=◌, ◌>>◌,
}
use imip.Base.Dict.{Dict}
use imip.EventBus.Types.{
  EventDefinition, EventEnvelope, EventCategory, EventBusError, EventAuditRecord, EventSeverity,
  EventHistoryFilter, ProcessingStatus, DeliveryMode, DeliveryTargeting, Outcome, PublishOptions,
  SubscribeOptions, Subscription, SelectorKind, SubscriberDeliveryResult, category_name,
  publisher_ownership_violation, payload_validation, missing_target_authorities,
  circular_publication, subscriber_not_allowed,
}
use imip.EventBus.Registry.{require, register}
use imip.EventBus.Queue
use imip.EventBus.Queue.{PriorityEventQueue, new_queue, enqueue, dequeue}
use imip.EventBus.Subscriptions.{
  SubscriptionRegistry, new_registry, add, remove, matches_for, record_success, record_failure,
  dead_count,
}
use imip.EventBus.Persistence.{EventPersistence, record_event}

pub record InstitutionalEventBus (P : Type 0) : Type 0 where
  pub registry : Dict (EventDefinition P)
  pub subscriptions : SubscriptionRegistry P
  pub queue : PriorityEventQueue P
  pub persistence : EventPersistence P
  pub dispatch_stack : List String
  pub pending_async_results : List String
  pub recent_dispatch_durations : List ℕ
  pub draining : Bool
  pub total_published : ℕ
  pub total_dispatched : ℕ
  pub total_failed_deliveries : ℕ

pub record Stamp : Type 0 where
  pub event_id : String
  pub now : ℕ
  pub elapsed_ms : ℕ

abbrev or_else {ℓ} : {A : Type ℓ} → Option A → A → A
or_else none d = d
or_else (some a) d = a

abbrev pub is_directed : DeliveryTargeting → Bool
is_directed DeliveryTargeting.directed = true
is_directed DeliveryTargeting.broadcast = false

abbrev pub no_targets : Option (List String) → Bool
no_targets none = true
no_targets (some authorities) = length authorities == 0

abbrev excludes : Option (List String) → String → Bool
excludes none authority = false
excludes (some allowed) authority = not (includes allowed authority)

abbrev refused_with : String → Option (List String) → Result EventBusError (Unit {0})
refused_with event_name none = ok tt
refused_with event_name (some errors) =
    throw_if (ltb 0 (length errors)) (payload_validation event_name errors)

module _ {P : Type 0} where
  unfoldable pub new_bus : ℕ → EventPersistence P → InstitutionalEventBus P
  new_bus max_queue_size persistence = record {
    registry = [];
    subscriptions = new_registry;
    queue = new_queue max_queue_size;
    persistence = persistence;
    dispatch_stack = [];
    pending_async_results = [];
    recent_dispatch_durations = [];
    draining = false;
    total_published = 0;
    total_dispatched = 0;
    total_failed_deliveries = 0;
  }

  unfoldable pub register_event_type :
      EventDefinition P → InstitutionalEventBus P → Result EventBusError (InstitutionalEventBus P)
  register_event_type d bus = do
    registry ← register d bus.registry
    ok (record bus { registry = registry })

  unfoldable pub subscribe_to_event :
      Stamp
      → String
      → ℕ
      → SubscribeOptions P
      → InstitutionalEventBus P
      → Result EventBusError (InstitutionalEventBus P × String)
  subscribe_to_event stamp event_name handler options bus = do
    definition ← require event_name bus.registry
    throw_if (excludes definition.allowed_subscribers options.subscriber_authority)
        (subscriber_not_allowed event_name options.subscriber_authority)
    let added =
        add stamp.event_id stamp.now event_name SelectorKind.event handler
          options.subscriber_authority options.filter bus.subscriptions
    ok (record bus { subscriptions = added.0 }, added.1.subscription_id)

  unfoldable pub subscribe_to_category :
      Stamp
      → EventCategory
      → ℕ
      → SubscribeOptions P
      → InstitutionalEventBus P
      → InstitutionalEventBus P × String
  subscribe_to_category stamp category handler options bus =
      let added =
        add stamp.event_id stamp.now (category_name category) SelectorKind.category handler
          options.subscriber_authority options.filter bus.subscriptions in
      (record bus { subscriptions = added.0 }, added.1.subscription_id)

  -- The function that a subscribing call hands back.
  unfoldable pub unsubscribe : String → InstitutionalEventBus P → InstitutionalEventBus P
  unsubscribe id bus = record bus { subscriptions = (remove id bus.subscriptions).0 }

  abbrev pub check_payload :
      String → Option (P → Option (List String)) → P → Result EventBusError (Unit {0})
  check_payload event_name none payload = ok tt
  check_payload event_name (some validator) payload = refused_with event_name (validator payload)

  -- The tests of `publish` before it builds the envelope.
  unfoldable pub validate :
      String
      → String
      → P
      → PublishOptions
      → InstitutionalEventBus P
      → Result EventBusError (EventDefinition P)
  unfolding require
  validate event_name publisher payload options bus = do
    definition ← require event_name bus.registry
    throw_if (not (definition.publisher_authority === publisher))
        (publisher_ownership_violation event_name publisher definition.publisher_authority)
    check_payload event_name definition.payload_validator payload
    throw_if (is_directed definition.targeting && no_targets options.target_authorities)
        (missing_target_authorities event_name)
    ok definition

  abbrev pub envelope_of :
      Stamp → EventDefinition P → String → String → P → PublishOptions → EventEnvelope P
  envelope_of stamp definition event_name publisher payload options = record {
    event_id = stamp.event_id;
    event_type = event_name;
    event_version = definition.version;
    timestamp = stamp.now;
    publisher = publisher;
    correlation_id = or_else options.correlation_id stamp.event_id;
    causation_id = options.causation_id;
    severity = or_else options.severity EventSeverity.info;
    priority = definition.priority;
    payload = payload;
    processing_status = ProcessingStatus.pending;
    trace_id = options.trace_id;
    parent_event_id = options.parent_event_id;
    retry_count = none;
    processing_duration_ms = none;
    target_authorities = options.target_authorities;
  }
