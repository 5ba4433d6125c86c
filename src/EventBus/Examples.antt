-- ===== src/EventBus/Examples.antt =====
-- Runs of the event bus: a clock that ticks in the background, and an alarm that is delivered at once.
use mathlib.Core.List.{Mem, mem-cons, not-mem-nil}
use mathlib.Core.Logic.Or
use imip.Base.{
  str_discrete, ℕ, zero, suc, ◌≤◌, ◌<◌, ◌≡◌, refl, ◌⊎◌, ◌↔◌, Bool, true, false, String, List, [],
  ◌∷◌, ◌++◌, none, some, filter, ok, err, arith, ◌==◌, if◌then◌else◌, leb,
}
use imip.Base.Arrays.{read}
use imip.Base.Dict.{get, has, values}
use imip.EventBus.Types.{
  EventDefinition, EventEnvelope, EventBusError, EventAuditRecord, EventPriority, EventCategory,
  DeliveryMode, DeliveryTargeting, PublishOptions, Subscription, SelectorKind, Outcome,
}
use imip.EventBus.Registry.{register_all, register_all-keeps}
use imip.EventBus.Queue.{parent, QueueItem, PriorityEventQueue, enqueue, dequeue, before}
use imip.EventBus.Queue.Service.{QueueInv, Enqueued, Dequeued, enqueue-Enqueued, dequeue-Dequeued}
use imip.EventBus.Subscriptions.{
  SubscriptionRegistry, add, matches_for, record_failure, selects_event, selects_category,
}
use imip.EventBus.Subscriptions.Failures.{fail_times, get-fail_times, record_failure-crosses}
use imip.EventBus.Subscriptions.Matching.{
  RegistryInv, matches_for-registration_order, add-IsNumbered, IsNumbered,
}
use imip.EventBus.Persistence.{MemoryEventPersistence, memory}
use imip.EventBus.Persistence.Ring.{remember_all, latest, remember_all-latest}
use imip.EventBus.Bus.{InstitutionalEventBus, Stamp, validate, envelope_of}
use imip.EventBus.Bus.Validation.{IsPublishable, validate_iff}
use imip.EventBus.Delivery.{HandlerOutcome, dispatch_now}
use imip.EventBus.Delivery.Results.{IsDelivered, dispatch_now-IsDelivered}
use imip.EventBus.Publish.{publish}
use imip.EventBus.Publish.Modes.{BusInv, publish-BusInv}
use imip.EventBus.Publish.Errors.{publish_error-effects, publish-dispatch_stack}
use imip.EventBus.Drain.{drain_queue}
use imip.EventBus.Drain.Order.{IsDrained, drain_queue-IsDrained}

abbrev definition_of : String → DeliveryMode → EventPriority → EventDefinition ℕ
definition_of name mode priority = record {
  id = name;
  name = name;
  category = EventCategory.runtime;
  description = "";
  publisher_authority = "Clock";
  allowed_subscribers = none;
  priority = priority;
  delivery_mode = mode;
  targeting = DeliveryTargeting.broadcast;
  payload_validator = none;
  version = "1";
  deprecated = none;
  version_deprecated = none;
}

abbrev tick : EventDefinition ℕ
tick = definition_of "tick" DeliveryMode.async EventPriority.low

abbrev alarm : EventDefinition ℕ
alarm = definition_of "alarm" DeliveryMode.sync EventPriority.critical

abbrev no_options : PublishOptions
no_options = record {
  correlation_id = none;
  causation_id = none;
  severity = none;
  trace_id = none;
  parent_event_id = none;
  target_authorities = none;
}

abbrev stamp : Stamp
stamp = record { event_id = "e1"; now = 7; elapsed_ms = 2 }

abbrev tick_event : EventEnvelope ℕ
tick_event = envelope_of stamp tick "tick" "Clock" 5 no_options

abbrev alarm_event : EventEnvelope ℕ
alarm_event = envelope_of stamp alarm "alarm" "Clock" 6 no_options

abbrev subscription_of : String → String → ℕ → ℕ → Subscription ℕ
subscription_of id selector handler sequence = record {
  subscription_id = id;
  selector = selector;
  selector_kind = SelectorKind.event;
  subscriber_authority = "Logger";
  handler = handler;
  filter = none;
  consecutive_failures = 0;
  dead = false;
  registered_at = 1;
  sequence = sequence;
}

abbrev two_subscriptions : SubscriptionRegistry ℕ
two_subscriptions = record {
  subscriptions =
      ("s1", subscription_of "s1" "alarm" 0 1) ∷ ("s2", subscription_of "s2" "alarm" 1 2) ∷ [];
  sequence_counter = 2;
}

abbrev two_items : PriorityEventQueue ℕ
two_items = record {
  heap =
      record { envelope = alarm_event; rank = 0; sequence = 2 }
      ∷ record { envelope = tick_event; rank = 3; sequence = 1 }
      ∷ [];
  sequence_counter = 2;
  max_size = 3;
}

abbrev bus : InstitutionalEventBus ℕ
bus = record {
  registry = ("tick", tick) ∷ ("alarm", alarm) ∷ [];
  subscriptions = two_subscriptions;
  queue = two_items;
  persistence = memory (record { entries = []; max_size = 1 });
  dispatch_stack = [];
  pending_async_results = "e1" ∷ [];
  recent_dispatch_durations = [];
  draining = true;
  total_published = 2;
  total_dispatched = 0;
  total_failed_deliveries = 0;
}

-- The first handler succeeds, the other fails.
abbrev invoke :
    ℕ → EventEnvelope ℕ → InstitutionalEventBus ℕ → InstitutionalEventBus ℕ × HandlerOutcome
invoke handler envelope b =
    (b, record { error = if handler == 0 then none else some "no disk"; duration_ms = 1 })

abbrev elapsed : EventEnvelope ℕ → ℕ
elapsed envelope = 1

two_items-ordered :
    (d : QueueItem ℕ) (c : ℕ)
    → 0 < c
    → c < 2
    → before (read d two_items.heap c) (read d two_items.heap (parent c)) ≡ false
unfolding before read
two_items-ordered d zero p q = absurd (omega arith)
two_items-ordered d (suc zero) p q = refl
two_items-ordered d (suc (suc c)) p q = absurd (omega arith)

of_two :
    {A : Type 0} (f : A → Bool) (x a b : A)
    → f a ≡ true
    → f b ≡ true
    → Mem x (a ∷ b ∷ [])
    → f x ≡ true
of_two f x a b p q m =
    Or.elim (hlevel) (mem-cons.0 m) (λ e. rw e p)
      (λ m'. Or.elim (hlevel) (mem-cons.0 m') (λ e. rw e q) (λ m''. absurd (not-mem-nil m'')))

two_items-QueueInv : QueueInv two_items
two_items-QueueInv = record {
  ordered = two_items-ordered;
  bounded = omega arith;
  numbered = λ x m. leb→le (of_two (λ y. leb y.sequence 2) x _ _ refl refl m);
}
  where
    leb→le : {n : ℕ} → leb n 2 ≡ true → n ≤ 2
    leb→le h = ground arith

enqueue-Enqueued_example : Enqueued two_items tick_event (enqueue two_items tick_event)
enqueue-Enqueued_example = enqueue-Enqueued two_items tick_event two_items-QueueInv

dequeue-Dequeued_example : Dequeued two_items (dequeue two_items)
dequeue-Dequeued_example = dequeue-Dequeued two_items two_items-QueueInv

all_known : (x : QueueItem ℕ) → Mem x two_items.heap → has x.envelope.event_type bus.registry ≡ true
unfolding has get str_discrete
all_known x m =
    of_two (λ y. has y.envelope.event_type bus.registry) x
      (record { envelope = alarm_event; rank = 0; sequence = 2 })
      (record { envelope = tick_event; rank = 3; sequence = 1 }) refl refl m

drain_queue-IsDrained_example : IsDrained two_items (drain_queue invoke elapsed 3 bus)
drain_queue-IsDrained_example =
    drain_queue-IsDrained invoke elapsed (λ h e b. (refl, refl)) 3 bus (omega arith)
      two_items-QueueInv all_known

dispatch_now-IsDelivered_example :
    IsDelivered alarm_event alarm bus (dispatch_now invoke 2 alarm_event alarm bus).1
dispatch_now-IsDelivered_example = dispatch_now-IsDelivered invoke 2 alarm_event alarm bus

bus-BusInv : BusInv bus
bus-BusInv = record {
  queue_inv = two_items-QueueInv;
  window = omega arith;
  bounded = omega arith;
  registered = all_known;
  scheduled = λ h. absurd (true-not_false h);
}
  where
    true-not_false : true ≡ false → ⊥
    true-not_false h = cc

publish-BusInv_example : BusInv (publish invoke stamp "tick" "Clock" 5 no_options bus).0
publish-BusInv_example =
    publish-BusInv invoke stamp "tick" "Clock" 5 no_options bus (λ h e b v. v) bus-BusInv

alarm-IsPublishable : IsPublishable bus "alarm" "Clock" 6 no_options alarm
unfolding get str_discrete
alarm-IsPublishable = record { registered = refl; owned = refl; accepted = tt; targeted = tt }

validate_iff_example :
    (validate "alarm" "Clock" 6 no_options bus ≡ ok alarm)
    ↔ IsPublishable bus "alarm" "Clock" 6 no_options alarm
validate_iff_example = validate_iff bus "alarm" "Clock" 6 no_options alarm

-- Nobody but the clock may tick.
forged :
    (publish invoke stamp "tick" "Thief" 5 no_options bus).1
    ≡ err (EventBusError.publisher_ownership_violation "tick" "Thief" "Clock")
unfolding publish validate get str_discrete
forged = refl

publish_error-effects_example :
    let after = (publish invoke stamp "tick" "Thief" 5 no_options bus).0 in
    (((d : EventDefinition ℕ) → IsPublishable bus "tick" "Thief" 5 no_options d → ⊥)
      × (after ≡ bus))
    ⊎ ((d : EventDefinition ℕ) × IsPublishable bus "tick" "Thief" 5 no_options d
        × (after ≡ record bus { total_published = 3 }))
publish_error-effects_example =
    publish_error-effects invoke stamp "tick" "Thief" 5 no_options bus forged

publish-dispatch_stack_example :
    (publish invoke stamp "alarm" "Clock" 6 no_options bus).0.dispatch_stack ≡ []
publish-dispatch_stack_example =
    publish-dispatch_stack invoke stamp "alarm" "Clock" 6 no_options bus (λ h e b. refl)

s1_there : get "s1" two_subscriptions.subscriptions ≡ some (subscription_of "s1" "alarm" 0 1)
unfolding get str_discrete
s1_there = refl

get-fail_times_example :
    get "s1" (fail_times 4 "s1" two_subscriptions).subscriptions
    ≡ some (record (subscription_of "s1" "alarm" 0 1) { consecutive_failures = 4; dead = true })
get-fail_times_example =
    get-fail_times 4 "s1" two_subscriptions (subscription_of "s1" "alarm" 0 1) s1_there refl refl

record_failure-crosses_example :
    (record_failure "s1" (fail_times 2 "s1" two_subscriptions)).1 ≡ true
record_failure-crosses_example =
    record_failure-crosses 2 "s1" two_subscriptions (subscription_of "s1" "alarm" 0 1) s1_there refl
      refl

two_subscriptions-RegistryInv : RegistryInv two_subscriptions
two_subscriptions-RegistryInv = record {
  ascending = (omega arith, (omega arith, tt));
  below = (omega arith, (omega arith, tt));
}

matches_for-registration_order_example :
    matches_for "alarm" "runtime" two_subscriptions
    ≡ filter (selects_event "alarm") (values two_subscriptions.subscriptions)
      ++ filter (selects_category "runtime") (values two_subscriptions.subscriptions)
matches_for-registration_order_example =
    matches_for-registration_order "alarm" "runtime" two_subscriptions two_subscriptions-RegistryInv

s3_new : get "s3" two_subscriptions.subscriptions ≡ none
unfolding get str_discrete
s3_new = refl

two_subscriptions-IsNumbered : IsNumbered two_subscriptions
two_subscriptions-IsNumbered = record {
  rising = (omega arith, (omega arith, tt));
  below = (omega arith, (omega arith, tt));
}

add-IsNumbered_example :
    let more = (add "s3" 9 "tick" SelectorKind.event 2 "Logger" none two_subscriptions).0 in
    IsNumbered more × RegistryInv more
add-IsNumbered_example =
    add-IsNumbered "s3" 9 "tick" SelectorKind.event 2 "Logger" none two_subscriptions s3_new
      two_subscriptions-IsNumbered

abbrev audit_of : EventEnvelope ℕ → EventAuditRecord
audit_of e = record {
  event_id = e.event_id;
  event_type = e.event_type;
  publisher = e.publisher;
  timestamp = e.timestamp;
  correlation_id = e.correlation_id;
  causation_id = e.causation_id;
  subscriber_results = [];
  overall_duration_ms = 0;
  outcome = Outcome.no_subscribers;
}

abbrev two_events : List (EventEnvelope ℕ × EventAuditRecord)
two_events = (tick_event, audit_of tick_event) ∷ (alarm_event, audit_of alarm_event) ∷ []

abbrev one_slot : MemoryEventPersistence ℕ
one_slot = record { entries = []; max_size = 1 }

remember_all-latest_example : (remember_all two_events one_slot).entries ≡ latest 1 two_events
remember_all-latest_example = remember_all-latest two_events one_slot (omega arith)

tick_there : get "tick" (("tick", tick) ∷ []) ≡ some tick
unfolding get str_discrete
tick_there = refl

register_all-keeps_example :
    get "tick" (register_all (alarm ∷ tick ∷ []) (("tick", tick) ∷ [])).0 ≡ some tick
register_all-keeps_example =
    register_all-keeps (alarm ∷ tick ∷ []) (("tick", tick) ∷ []) "tick" tick_there
