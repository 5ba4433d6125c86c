-- ===== src/EventBus/Delivery/Results.antt =====
-- Who receives an event, and what the audit says of it.
use imip.Base.{
  ℕ, suc, ◌≡◌, ◌≢◌, ◌≤◌, ◌<◌, refl, ap, sym, ◌∙◌, ◌⊎◌, inl, inr, Bool, true, false, not, String,
  List, [], ◌∷◌, map, arith, length, All, any, length-filter-le, length-map,
}
use imip.EventBus.Types.{
  EventDefinition, EventEnvelope, EventAuditRecord, Outcome, Subscription, SubscriberDeliveryResult,
  ProcessingStatus,
}
use imip.EventBus.Bus.{InstitutionalEventBus}
use imip.EventBus.Delivery.{
  HandlerOutcome, recipients, deliver, invoke_subscriber, dispatch_now, failures, outcome_of,
}

abbrev pub failed_result : SubscriberDeliveryResult → Bool
failed_result r = not r.success

-- The outcome, told from the results.
abbrev pub Describes : Outcome → List SubscriberDeliveryResult → Type 0
Describes Outcome.no_subscribers results = results ≡ []
Describes Outcome.completed results = (results ≢ []) × All (λ r. r.success ≡ true) results
Describes Outcome.failed results = (results ≢ []) × All (λ r. r.success ≡ false) results
Describes Outcome.partial results =
    (any failed_result results ≡ true) × (any (λ r. r.success) results ≡ true)

none_failed :
    (rs : List SubscriberDeliveryResult) → failures rs ≡ 0 → All (λ r. r.success ≡ true) rs
none_failed [] h = tt
none_failed (r ∷ rs) h = ground (arith, none_failed rs)

All-failed :
    (rs : List SubscriberDeliveryResult) → failures rs ≡ length rs → All (λ r. r.success ≡ false) rs
All-failed [] h = tt
All-failed (r ∷ rs) h = ground (arith, All-failed rs, length-filter-le failed_result rs)

some_failed : (rs : List SubscriberDeliveryResult) → 0 < failures rs → any failed_result rs ≡ true
some_failed [] h = absurd (omega arith)
some_failed (r ∷ rs) h = ground (arith, some_failed rs)

some_succeeded :
    (rs : List SubscriberDeliveryResult) → failures rs < length rs → any (λ r. r.success) rs ≡ true
some_succeeded [] h = absurd (omega arith)
some_succeeded (r ∷ rs) h = ground (arith, some_succeeded rs)

outcome_cases :
    (n k : ℕ)
    → k ≤ suc n
    → ((outcome_of (suc n) k ≡ Outcome.failed) × (k ≡ suc n))
      ⊎ ((outcome_of (suc n) k ≡ Outcome.partial) × (0 < k) × (k < suc n))
      ⊎ ((outcome_of (suc n) k ≡ Outcome.completed) × (k ≡ 0))
unfolding outcome_of
outcome_cases n k h = ground arith

outcome_of-Describes :
    (rs : List SubscriberDeliveryResult) → Describes (outcome_of (length rs) (failures rs)) rs
unfolding outcome_of
outcome_of-Describes [] = refl
outcome_of-Describes (r ∷ rs) =
    let all = r ∷ rs in
    elim (outcome_cases (length rs) (failures all) (length-filter-le failed_result all)) [
      | inl (e, k) ↦ rw e ((λ q. cc), All-failed all k)
      | inr (inl (e, low, high)) ↦ rw e (some_failed all low, some_succeeded all high)
      | inr (inr (e, k)) ↦ rw e ((λ q. cc), none_failed all k)
    ]

module _ {P : Type 0} where
  abbrev pub ids : List (Subscription P) → List (String × String)
  ids = map (λ s. (s.subscription_id, s.subscriber_authority))

abbrev pub result_ids : List SubscriberDeliveryResult → List (String × String)
result_ids = map (λ r. (r.subscription_id, r.subscriber_authority))

length_of_ids :
    {P : Type 0} (ss : List (Subscription P)) (rs : List SubscriberDeliveryResult)
    → ids ss ≡ result_ids rs
    → length ss ≡ length rs
length_of_ids ss rs e = sym (length-map _ ss) ∙ ap length e ∙ length-map _ rs

module _ {P : Type 0} where
  -- What an audit promises of the dispatch of `envelope` on `bus`.
  pub record IsDelivered (envelope : EventEnvelope P) (definition : EventDefinition P)
      (bus : InstitutionalEventBus P) (audit : EventAuditRecord) : Type 0 where
    pub each_once :
        result_ids audit.subscriber_results
        ≡ ids (
            recipients definition
              (record envelope { processing_status = ProcessingStatus.dispatched })
              bus)
    pub described : Describes audit.outcome audit.subscriber_results
    pub of_event : (audit.event_id ≡ envelope.event_id) × (audit.event_type ≡ envelope.event_type)

module _ {P : Type 0}
    (invoke : ℕ
      → EventEnvelope P
      → InstitutionalEventBus P
      → InstitutionalEventBus P × HandlerOutcome) where
  invoke_subscriber-id :
      (s : Subscription P) (e : EventEnvelope P) (bus : InstitutionalEventBus P)
      → let r = (invoke_subscriber invoke s e bus).1 in
        (r.subscription_id ≡ s.subscription_id) × (r.subscriber_authority ≡ s.subscriber_authority)
  unfolding invoke_subscriber
  invoke_subscriber-id s e bus = ground arith

  deliver-ids :
      (ss : List (Subscription P)) (e : EventEnvelope P) (bus : InstitutionalEventBus P)
      → result_ids (deliver invoke ss e bus).1 ≡ ids ss
  unfolding deliver
  deliver-ids [] e bus = refl
  deliver-ids (s ∷ ss) e bus =
      ground
        (arith, invoke_subscriber-id s e bus, deliver-ids ss e (invoke_subscriber invoke s e bus).0)

  -- A dispatch gives every recipient exactly one result in the audit, in order, whichever handlers
  -- fail and whatever they do to the bus; and the outcome of the audit tells whether none, all or
  -- some of the deliveries failed.
  pub dispatch_now-IsDelivered :
      (elapsed_ms : ℕ) (envelope : EventEnvelope P) (definition : EventDefinition P)
      (bus : InstitutionalEventBus P)
      → IsDelivered envelope definition bus
          (dispatch_now invoke elapsed_ms envelope definition bus).1
  unfolding dispatch_now
  dispatch_now-IsDelivered elapsed_ms envelope definition bus =
      let sent : EventEnvelope P = record envelope {
        processing_status = ProcessingStatus.dispatched;
      } in
      let matched = recipients definition sent bus in
      let results = (deliver invoke matched sent bus).1 in
      let each = deliver-ids matched sent bus in
      let count : length matched ≡ length results = length_of_ids matched results (sym each) in
      record {
        each_once = each;
        described = rw count (outcome_of-Describes results);
        of_event = (refl, refl);
      }
