-- ===== src/EventBus/Drain.antt =====
-- core/event_bus/src/InstitutionalEventBus.ts: `drainQueue`. Handlers may publish while the queue is
-- drained, so the loop has fuel; `elapsed` is how long the dispatch of an envelope takes.
pub mod Order
use imip.Base.{
  ℕ, zero, suc, ◌≡◌, Bool, true, false, not, String, List, [], ◌∷◌, Option, none, some, filter,
  ◌===◌, Result, ok, err,
}
use imip.EventBus.Types.{EventEnvelope, EventDefinition, EventAuditRecord, EventBusError}
use imip.EventBus.Registry.{require}
use imip.EventBus.Queue.{PriorityEventQueue, dequeue}
use imip.EventBus.Bus.{InstitutionalEventBus}
use imip.EventBus.Delivery.{HandlerOutcome, dispatch_now}

pub data DrainEnd : Type 0 where
  emptied out_of_fuel : DrainEnd
  threw : EventBusError → DrainEnd

-- The bus, the events that were dispatched with their audits, in order, and how the loop ended.
pub record Drained (P : Type 0) : Type 0 where
  pub bus : InstitutionalEventBus P
  pub dispatched : List (EventEnvelope P × EventAuditRecord)
  pub ending : DrainEnd

module _ {P : Type 0}
    (invoke : ℕ
      → EventEnvelope P
      → InstitutionalEventBus P
      → InstitutionalEventBus P × HandlerOutcome)
    (elapsed : EventEnvelope P → ℕ) where
  -- `pendingAsyncResults.delete(eventId)`, after the promise is resolved.
  abbrev pub resolved : String → InstitutionalEventBus P → InstitutionalEventBus P
  resolved event_id bus = record bus {
    pending_async_results = filter (λ id. not (id === event_id)) bus.pending_async_results;
  }

  abbrev pub after_dispatch : EventEnvelope P → EventAuditRecord → Drained P → Drained P
  after_dispatch envelope audit rest = record rest {
    dispatched = (envelope, audit) ∷ rest.dispatched;
  }

  unfoldable pub drain_one :
      (InstitutionalEventBus P → Drained P)
      → EventEnvelope P
      → InstitutionalEventBus P
      → Result EventBusError (EventDefinition P)
      → Drained P
  drain_one rest envelope bus (err e) = record { bus = bus; dispatched = []; ending = threw e }
  drain_one rest envelope bus (ok definition) =
      let (after, audit) = dispatch_now invoke (elapsed envelope) envelope definition bus in
      after_dispatch envelope audit (rest (resolved envelope.event_id after))

  unfoldable pub drain_step :
      (InstitutionalEventBus P → Drained P)
      → InstitutionalEventBus P
      → Option (EventEnvelope P) × PriorityEventQueue P
      → Drained P
  unfolding drain_one
  drain_step rest bus (none, queue) = record {
    bus = record bus { queue = queue; draining = false };
    dispatched = [];
    ending = emptied;
  }
  drain_step rest bus (some envelope, queue) =
      drain_one rest envelope (record bus { queue = queue })
        (require envelope.event_type bus.registry)

  unfoldable pub drain_queue : ℕ → InstitutionalEventBus P → Drained P
  unfolding drain_step
  drain_queue zero bus = record { bus = bus; dispatched = []; ending = out_of_fuel }
  drain_queue (suc fuel) bus = drain_step (λ b. drain_queue fuel b) bus (dequeue bus.queue)
