-- ===== src/EventBus/Bus/Validation.antt =====
-- Who may publish what.
use imip.Base.{
  ◌≡◌, refl, ◌↔◌, ◌⊎◌, false, ◌&&◌, String, List, [], ◌∷◌, Option, none, some, ok, arith,
}
use imip.Base.Dict.{get}
use imip.EventBus.Types.{EventDefinition, DeliveryTargeting, PublishOptions}
use imip.EventBus.Bus.{InstitutionalEventBus, validate, check_payload, is_directed, no_targets}

-- The validator, if there is one, finds no fault with the payload.
abbrev pub IsPayloadAccepted : {P : Type 0} → Option (P → Option (List String)) → P → Type 0
IsPayloadAccepted none payload = Unit
IsPayloadAccepted (some validator) payload =
    (validator payload ≡ none) ⊎ (validator payload ≡ some [])

-- Directed delivery names an authority.
abbrev pub HasTargets : DeliveryTargeting → Option (List String) → Type 0
HasTargets DeliveryTargeting.broadcast targets = Unit
HasTargets DeliveryTargeting.directed none = ⊥
HasTargets DeliveryTargeting.directed (some []) = ⊥
HasTargets DeliveryTargeting.directed (some (a ∷ as')) = Unit

pub record IsPublishable {P : Type 0} (bus : InstitutionalEventBus P)
    (event_name publisher : String) (payload : P) (options : PublishOptions) (d : EventDefinition P)
    : Type 0 where
  pub registered : get event_name bus.registry ≡ some d
  pub owned : d.publisher_authority ≡ publisher
  pub accepted : IsPayloadAccepted d.payload_validator payload
  pub targeted : HasTargets d.targeting options.target_authorities

targets_iff :
    (t : DeliveryTargeting) (o : Option (List String))
    → ((is_directed t && no_targets o) ≡ false) ↔ HasTargets t o
targets_iff DeliveryTargeting.broadcast o = ((λ h. tt), (λ h. refl))
targets_iff DeliveryTargeting.directed none = ((λ h. cc), (λ h. elim h [ ]))
targets_iff DeliveryTargeting.directed (some []) = ((λ h. cc), (λ h. elim h [ ]))
targets_iff DeliveryTargeting.directed (some (a ∷ as')) = ((λ h. tt), (λ h. ground arith))

module _ {P : Type 0} where
  payload_iff :
      (event_name : String) (v : Option (P → Option (List String))) (payload : P)
      → (check_payload event_name v payload ≡ ok tt) ↔ IsPayloadAccepted v payload
  payload_iff event_name none payload = ((λ h. tt), (λ h. refl))
  payload_iff event_name (some v) payload = (ground arith, ground arith)

  module _ (bus : InstitutionalEventBus P) (event_name publisher : String) (payload : P)
      (options : PublishOptions) (d : EventDefinition P) where
    validate-IsPublishable :
        validate event_name publisher payload options bus ≡ ok d
        → IsPublishable bus event_name publisher payload options d
    unfolding validate
    validate-IsPublishable h = record {
      registered = ground arith;
      owned = ground arith;
      accepted = (payload_iff event_name d.payload_validator payload).0 (ground arith);
      targeted = (targets_iff d.targeting options.target_authorities).0 (ground arith);
    }

    IsPublishable-validate :
        IsPublishable bus event_name publisher payload options d
        → validate event_name publisher payload options bus ≡ ok d
    unfolding validate
    IsPublishable-validate h = ground (
      arith,
      (payload_iff event_name d.payload_validator payload).1 h.accepted,
      (targets_iff d.targeting options.target_authorities).1 h.targeted,
      h.registered,
      h.owned,
    )

    -- The tests of `publish` let a publication pass, with the definition `d`, exactly when the
    -- event type is registered as `d`, the publisher owns it, its validator, if any, accepts the
    -- payload, and a directed event names a target.
    pub validate_iff :
        (validate event_name publisher payload options bus ≡ ok d)
        ↔ IsPublishable bus event_name publisher payload options d
    validate_iff = (validate-IsPublishable, IsPublishable-validate)
