-- ===== src/EventBus/Publish/Errors.antt =====
-- Publications that throw, and the dispatch stack.
use imip.Base.{
  ℕ, ◌+◌, ◌≡◌, refl, sym, ap, ◌∙◌, ◌⊎◌, inl, inr, String, List, [], ◌∷◌, ◌++◌, includes, Bool-cases,
  Result, ok, err, arith,
}
use imip.EventBus.Types.{
  EventDefinition, EventEnvelope, EventBusError, PublishOptions, ProcessingStatus,
}
use imip.EventBus.Queue.{PriorityEventQueue, enqueue}
use imip.EventBus.Bus.{InstitutionalEventBus, Stamp, validate, envelope_of}
use imip.EventBus.Bus.Validation.{validate_iff, IsPublishable}
use imip.EventBus.Delivery.{HandlerOutcome, dispatch_now, recipients}
use imip.EventBus.Delivery.Keeps.{deliver-keeps}
use imip.EventBus.Publish.{publish, publish_sync, publish_async, drop_last, is_sync}

drop_last-push {ℓ} : {A : Type ℓ} (xs : List A) (x : A) → drop_last (xs ++ x ∷ []) ≡ xs
unfolding drop_last
drop_last-push [] x = refl
drop_last-push (y ∷ []) x = refl
drop_last-push (y ∷ z ∷ zs) x = ap (◌∷◌ y) (drop_last-push (z ∷ zs) x)

publish_async-error :
    {P : Type 0} (e : EventEnvelope P) (b : InstitutionalEventBus P) {x : EventBusError}
    → (publish_async e b).1 ≡ err x
    → (publish_async e b).0 ≡ b
unfolding publish_async
publish_async-error {P} e b {x} h = go (enqueue b.queue e) refl h
  where
    go :
        (r : Result EventBusError (PriorityEventQueue P))
        → enqueue b.queue e ≡ r
        → (publish_async e b).1 ≡ err x
        → (publish_async e b).0 ≡ b
    go (err y) q k = rw (q, publish_async)
    go (ok queue) q k = cc (rw (q, publish_async) at k)

publish_async-dispatch_stack :
    {P : Type 0} (e : EventEnvelope P) (b : InstitutionalEventBus P)
    → (publish_async e b).0.dispatch_stack ≡ b.dispatch_stack
unfolding publish_async
publish_async-dispatch_stack e b = ground arith

module _ {P : Type 0}
    (invoke : ℕ
      → EventEnvelope P
      → InstitutionalEventBus P
      → InstitutionalEventBus P × HandlerOutcome) where
  publish_sync-error :
      (elapsed : ℕ) (e : EventEnvelope P) (d : EventDefinition P) (b : InstitutionalEventBus P)
      {x : EventBusError}
      → (publish_sync invoke elapsed e d b).1 ≡ err x
      → (publish_sync invoke elapsed e d b).0 ≡ b
  unfolding publish_sync
  publish_sync-error elapsed e d b h = elim (Bool-cases (includes b.dispatch_stack e.event_type)) [
    | inl busy ↦ rw busy
    | inr free ↦ cc (rw free at h)
  ]

  module _ (stamp : Stamp) (event_name publisher : String) (payload : P) (options : PublishOptions)
      (bus : InstitutionalEventBus P) where
    abbrev counted : InstitutionalEventBus P
    counted = record bus { total_published = bus.total_published + 1 }

    -- A publication that throws is one of two: no definition lets it pass the tests of `publish`, and the
    -- bus is as it was; or some definition does, and its only effect is that it is counted. No handler
    -- runs, nothing is queued, recorded or counted as dispatched.
    pub publish_error-effects :
        {x : EventBusError}
        → (publish invoke stamp event_name publisher payload options bus).1 ≡ err x
        → let after = (publish invoke stamp event_name publisher payload options bus).0 in
          (((d : EventDefinition P) → IsPublishable bus event_name publisher payload options d → ⊥)
            × (after ≡ bus))
          ⊎ ((d : EventDefinition P) × IsPublishable bus event_name publisher payload options d
              × (after ≡ record bus { total_published = bus.total_published + 1 }))
    unfolding publish
    publish_error-effects h = go (validate event_name publisher payload options bus) refl
      where
        go :
            (r : Result EventBusError (EventDefinition P))
            → validate event_name publisher payload options bus ≡ r
            → let after = (publish invoke stamp event_name publisher payload options bus).0 in
              (((d : EventDefinition P)
                  → IsPublishable bus event_name publisher payload options d
                  → ⊥)
                × (after ≡ bus))
              ⊎ ((d : EventDefinition P) × IsPublishable bus event_name publisher payload options d
                  × (after ≡ record bus { total_published = bus.total_published + 1 }))
        go (err y) q =
            rw (q, publish)
              (inl (
                (λ d p. cc (sym q ∙ (validate_iff bus event_name publisher payload options d).1 p)),
                refl,
              ))
        go (ok d) q =
            let e = envelope_of stamp d event_name publisher payload options in
            let passed = (validate_iff bus event_name publisher payload options d).0 q in
            elim (Bool-cases (is_sync d.delivery_mode)) [
              | inl now ↦
                  rw (q, publish)
                    (rw now (
                      inr (
                        d,
                        passed,
                        publish_sync-error stamp.elapsed_ms e d counted
                            (rw now at (rw (q, publish) at h)),
                      )))
              | inr later ↦
                  rw (q, publish)
                    (rw later (
                      inr (
                        d,
                        passed,
                        publish_async-error e counted (rw later at (rw (q, publish) at h)),
                      )))
            ]

    dispatch_now-dispatch_stack :
        ((h : ℕ) (e : EventEnvelope P) (b : InstitutionalEventBus P)
          → (invoke h e b).0.dispatch_stack ≡ b.dispatch_stack)
        → (elapsed : ℕ) (e : EventEnvelope P) (d : EventDefinition P) (b : InstitutionalEventBus P)
        → (dispatch_now invoke elapsed e d b).0.dispatch_stack ≡ b.dispatch_stack
    unfolding dispatch_now
    dispatch_now-dispatch_stack keep elapsed e d b =
        let sent : EventEnvelope P = record e { processing_status = ProcessingStatus.dispatched } in
        deliver-keeps invoke (λ c. c.dispatch_stack ≡ b.dispatch_stack)
          (λ h e' c q. keep h e' c ∙ q) (λ c r q. q) (recipients d sent b) sent b refl

    publish_sync-dispatch_stack :
        ((h : ℕ) (e : EventEnvelope P) (b : InstitutionalEventBus P)
          → (invoke h e b).0.dispatch_stack ≡ b.dispatch_stack)
        → (e : EventEnvelope P) (d : EventDefinition P) (b : InstitutionalEventBus P)
        → (publish_sync invoke stamp.elapsed_ms e d b).0.dispatch_stack ≡ b.dispatch_stack
    unfolding publish_sync
    publish_sync-dispatch_stack keep e d b =
        elim (Bool-cases (includes b.dispatch_stack e.event_type)) [
          | inl busy ↦ rw busy
          | inr free ↦ rw free (
              ap drop_last (
                dispatch_now-dispatch_stack keep stamp.elapsed_ms e d
                  (record b { dispatch_stack = b.dispatch_stack ++ e.event_type ∷ [] }))
              ∙ drop_last-push b.dispatch_stack e.event_type)
        ]

    -- If the handlers leave the dispatch stack as they find it, so does every publication.
    pub publish-dispatch_stack :
        ((h : ℕ) (e : EventEnvelope P) (b : InstitutionalEventBus P)
          → (invoke h e b).0.dispatch_stack ≡ b.dispatch_stack)
        → (publish invoke stamp event_name publisher payload options bus).0.dispatch_stack
          ≡ bus.dispatch_stack
    unfolding publish
    publish-dispatch_stack keep = go (validate event_name publisher payload options bus) refl
      where
        go :
            (r : Result EventBusError (EventDefinition P))
            → validate event_name publisher payload options bus ≡ r
            → (publish invoke stamp event_name publisher payload options bus).0.dispatch_stack
              ≡ bus.dispatch_stack
        go (err y) q = rw (q, publish)
        go (ok d) q =
            let e = envelope_of stamp d event_name publisher payload options in
            elim (Bool-cases (is_sync d.delivery_mode)) [
              | inl now ↦ rw (q, publish) (rw now (publish_sync-dispatch_stack keep e d counted))
              | inr later ↦ rw (q, publish) (rw later (publish_async-dispatch_stack e counted))
            ]
