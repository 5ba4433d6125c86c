-- ===== src/EventBus/Publish/Modes.antt =====
-- The invariant of the bus, and the two delivery modes of `publish`.
use imip.Base.{
  ℕ, ◌+◌, ◌≤◌, ◌≡◌, refl, inl, inr, true, false, String, List, [], ◌∷◌, ◌++◌, some, arith, length,
  includes, Bool-cases, Result, ok, err, length-append,
}
use mathlib.Core.List.{Mem, mem-cons}
use mathlib.Core.List.Perm
use mathlib.Core.Logic.Or
use imip.Base.Dict.{Dict, has, get}
use imip.EventBus.Types.{
  EventDefinition, EventEnvelope, EventBusError, EventAuditRecord, PublishOptions, ProcessingStatus,
}
use imip.EventBus.Queue.{QueueItem, PriorityEventQueue, enqueue}
use imip.EventBus.Queue.Service.{QueueInv, Enqueued, enqueue-Enqueued}
use imip.EventBus.Bus.{InstitutionalEventBus, Stamp, validate, envelope_of}
use imip.EventBus.Bus.Validation.{validate_iff}
use imip.EventBus.Delivery.{
  HandlerOutcome, dispatch_now, deliver, recipients, windowed, duration_window,
}
use imip.EventBus.Delivery.Keeps.{deliver-keeps}
use imip.EventBus.Persistence.{EventPersistence, noop, memory, record_event}
use imip.EventBus.Persistence.Ring.{IsWithin, remember-IsWithin}
use imip.EventBus.Publish.{publish, publish_sync, publish_async, schedule_drain, is_sync}

abbrev pub IsBounded : {P : Type 0} → EventPersistence P → Type 0
IsBounded noop = Unit
IsBounded (memory m) = IsWithin m

-- What holds of the bus between two calls, and of each bus that a handler is given.
pub record BusInv {P : Type 0} (bus : InstitutionalEventBus P) : Type 0 where
  pub queue_inv : QueueInv bus.queue
  pub window : length bus.recent_dispatch_durations ≤ duration_window
  pub bounded : IsBounded bus.persistence
  pub registered :
      (x : QueueItem P) → Mem x bus.queue.heap → has x.envelope.event_type bus.registry ≡ true
  -- An event waits only while a drain is under way.
  pub scheduled : bus.draining ≡ false → bus.queue.heap ≡ []

record_event-IsBounded :
    {P : Type 0} (e : EventEnvelope P) (a : EventAuditRecord) (p : EventPersistence P)
    → IsBounded p
    → IsBounded (record_event e a p)
unfolding record_event
record_event-IsBounded e a noop h = tt
record_event-IsBounded e a (memory m) h = remember-IsWithin e a m h

windowed-le :
    (ds : List ℕ) (d : ℕ)
    → length ds ≤ duration_window
    → length (windowed (ds ++ d ∷ [])) ≤ duration_window
windowed-le [] d h = omega arith
windowed-le (x ∷ ds) d h = ground (arith, length-append ds (d ∷ []))

module _ {P : Type 0}
    (invoke : ℕ
      → EventEnvelope P
      → InstitutionalEventBus P
      → InstitutionalEventBus P × HandlerOutcome) where
  module _
      (handlers_keep : (h : ℕ) (e : EventEnvelope P) (b : InstitutionalEventBus P)
        → BusInv b
        → BusInv (invoke h e b).0) where
    pub dispatch_now-BusInv :
        (elapsed : ℕ) (e : EventEnvelope P) (d : EventDefinition P) (b : InstitutionalEventBus P)
        → BusInv b
        → BusInv (dispatch_now invoke elapsed e d b).0
    unfolding dispatch_now
    dispatch_now-BusInv elapsed e d b v =
        let sent : EventEnvelope P = record e { processing_status = ProcessingStatus.dispatched } in
        let after = (deliver invoke (recipients d sent b) sent b).0 in
        let w : BusInv after =
          deliver-keeps invoke BusInv handlers_keep
            (λ c r u. record {
              queue_inv = u.queue_inv;
              window = u.window;
              bounded = u.bounded;
              registered = u.registered;
              scheduled = u.scheduled;
            })
            (recipients d sent b) sent b v in
        record {
          queue_inv = w.queue_inv;
          window = windowed-le after.recent_dispatch_durations elapsed w.window;
          bounded = record_event-IsBounded _ _ after.persistence w.bounded;
          registered = w.registered;
          scheduled = w.scheduled;
        }

    publish_sync-BusInv :
        (elapsed : ℕ) (e : EventEnvelope P) (d : EventDefinition P) (b : InstitutionalEventBus P)
        → BusInv b
        → BusInv (publish_sync invoke elapsed e d b).0
    unfolding publish_sync
    publish_sync-BusInv elapsed e d b v =
        let entered : InstitutionalEventBus P = record b {
          dispatch_stack = b.dispatch_stack ++ e.event_type ∷ [];
        } in
        let w : BusInv (dispatch_now invoke elapsed e d entered).0 =
          dispatch_now-BusInv elapsed e d entered (record {
            queue_inv = v.queue_inv;
            window = v.window;
            bounded = v.bounded;
            registered = v.registered;
            scheduled = v.scheduled;
          }) in
        elim (Bool-cases (includes b.dispatch_stack e.event_type)) [
          | inl busy ↦ rw busy v
          | inr free ↦ rw free (record {
            queue_inv = w.queue_inv;
            window = w.window;
            bounded = w.bounded;
            registered = w.registered;
            scheduled = w.scheduled;
          })
        ]

module _ {P : Type 0} where
  schedule_drain-BusInv :
      (b : InstitutionalEventBus P)
      → QueueInv b.queue
      → length b.recent_dispatch_durations ≤ duration_window
      → IsBounded b.persistence
      → ((x : QueueItem P) → Mem x b.queue.heap → has x.envelope.event_type b.registry ≡ true)
      → BusInv (schedule_drain b)
  unfolding schedule_drain
  schedule_drain-BusInv b q w p r = elim (Bool-cases b.draining) [
    | inl on ↦
        rw on
          (record { queue_inv = q; window = w; bounded = p; registered = r; scheduled = λ h. cc })
    | inr off ↦
        rw off
          (record { queue_inv = q; window = w; bounded = p; registered = r; scheduled = λ h. cc })
  ]

  publish_async-BusInv :
      (e : EventEnvelope P) (b : InstitutionalEventBus P)
      → has e.event_type b.registry ≡ true
      → BusInv b
      → BusInv (publish_async e b).0
  unfolding publish_async
  publish_async-BusInv e b known v =
      go (enqueue b.queue e) refl (enqueue-Enqueued b.queue e v.queue_inv)
    where
      go :
          (r : Result EventBusError (PriorityEventQueue P))
          → enqueue b.queue e ≡ r
          → Enqueued b.queue e r
          → BusInv (publish_async e b).0
      go (err x) q s = rw (q, publish_async) v
      go (ok queue) q s =
          let (_, w, perm, _, _) = s in
          rw (q, publish_async)
            (schedule_drain-BusInv
              (record b {
                queue = queue;
                pending_async_results = b.pending_async_results ++ e.event_id ∷ [];
              })
              w v.window v.bounded
              (λ x m.
                Or.elim (hlevel) (mem-cons.0 ((Perm.mem_iff perm).0 m)) (λ i. rw i known)
                  (v.registered x)))

  known_of_get :
      (name : String) (m : Dict (EventDefinition P)) {d : EventDefinition P}
      → get name m ≡ some d
      → has name m ≡ true
  unfolding has
  known_of_get name m e = rw (e, has)

module _ {P : Type 0}
    (invoke : ℕ
      → EventEnvelope P
      → InstitutionalEventBus P
      → InstitutionalEventBus P × HandlerOutcome) where
  -- If the bus keeps its invariant, and each handler keeps it, then so does every publication,
  -- whether it returns or throws.
  pub publish-BusInv :
      (stamp : Stamp) (event_name publisher : String) (payload : P) (options : PublishOptions)
      (bus : InstitutionalEventBus P)
      → ((h : ℕ) (e : EventEnvelope P) (b : InstitutionalEventBus P)
          → BusInv b
          → BusInv (invoke h e b).0)
      → BusInv bus
      → BusInv (publish invoke stamp event_name publisher payload options bus).0
  unfolding publish
  publish-BusInv stamp event_name publisher payload options bus keep v =
      go (validate event_name publisher payload options bus) refl
    where
      counted : InstitutionalEventBus P
      counted = record bus { total_published = bus.total_published + 1 }

      v' : BusInv counted
      v' = record {
        queue_inv = v.queue_inv;
        window = v.window;
        bounded = v.bounded;
        registered = v.registered;
        scheduled = v.scheduled;
      }

      go :
          (r : Result EventBusError (EventDefinition P))
          → validate event_name publisher payload options bus ≡ r
          → BusInv (publish invoke stamp event_name publisher payload options bus).0
      go (err x) q = rw (q, publish) v
      go (ok d) q =
          let e = envelope_of stamp d event_name publisher payload options in
          let known =
            known_of_get event_name bus.registry
              ((validate_iff bus event_name publisher payload options d).0 q).registered in
          elim (Bool-cases (is_sync d.delivery_mode)) [
            | inl now ↦
                rw (q, publish)
                  (rw now (publish_sync-BusInv invoke keep stamp.elapsed_ms e d counted v'))
            | inr later ↦ rw (q, publish) (rw later (publish_async-BusInv e counted known v'))
          ]
