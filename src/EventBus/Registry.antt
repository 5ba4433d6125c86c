-- ===== src/EventBus/Registry.antt =====
-- core/event_bus/src/registry.ts: the definitions of the event types, by name.
use imip.Base.{
  ◌≡◌, String, List, [], ◌∷◌, Option, none, some, filter, ◌===◌, Result, ok, err, throw_if,
  or_throw, ◌>>◌, arith, Bool-cases, inl, inr,
}
use imip.Base.Dict
use imip.Base.Dict.{Dict, get, has, put}
use imip.EventBus.Types.{
  EventDefinition, EventCategory, EventBusError, duplicate_event_definition, unregistered_event,
  category_name,
}

module _ {P : Type 0} where
  unfoldable pub register :
      EventDefinition P → Dict (EventDefinition P) → Result EventBusError (Dict (EventDefinition P))
  register d definitions = do
    throw_if (has d.name definitions) (duplicate_event_definition d.name)
    ok (put d.name d definitions)

  -- The loop stops at the first refusal; what it registered before stays.
  unfoldable pub register_all :
      List (EventDefinition P)
      → Dict (EventDefinition P)
      → Dict (EventDefinition P) × Option EventBusError
  unfolding register
  register_all [] definitions = (definitions, none)
  register_all (d ∷ ds) definitions = elim (register d definitions) [
    | ok more ↦ register_all ds more
    | err e ↦ (definitions, some e)
  ]

  unfoldable pub require :
      String → Dict (EventDefinition P) → Result EventBusError (EventDefinition P)
  require name definitions = or_throw (get name definitions) (unregistered_event name)

  unfoldable pub by_category : EventCategory → Dict (EventDefinition P) → List (EventDefinition P)
  by_category category definitions =
      filter (λ d. category_name d.category === category_name category) (Dict.values definitions)

  -- A definition that is registered stays as it is, whatever is registered later.
  pub register-keeps :
      (d : EventDefinition P) (definitions : Dict (EventDefinition P))
      {more : Dict (EventDefinition P)} (name : String) {old : EventDefinition P}
      → register d definitions ≡ ok more
      → get name definitions ≡ some old
      → get name more ≡ some old
  unfolding register has
  register-keeps d definitions name h e = ground (arith, Dict.get-put d.name name d definitions)

  -- A definition that is registered stays as it is when a batch is registered, also one that is
  -- refused half way.
  pub register_all-keeps :
      (ds : List (EventDefinition P)) (definitions : Dict (EventDefinition P)) (name : String)
      {old : EventDefinition P}
      → get name definitions ≡ some old
      → get name (register_all ds definitions).0 ≡ some old
  unfolding register_all has
  register_all-keeps [] definitions name e = e
  register_all-keeps (d ∷ ds) definitions name e = elim (Bool-cases (has d.name definitions)) [
    | inl known ↦ rw (known, register_all) e
    | inr new ↦
        rw (new, register_all)
          (register_all-keeps ds (put d.name d definitions) name
            (register-keeps d definitions name (rw (new, register)) e))
  ]
