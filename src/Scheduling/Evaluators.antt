-- ===== src/Scheduling/Evaluators.antt =====
-- core/scheduling_authority/src/evaluators.ts. `available` says whether the hardware authority knows a
-- device and calls it available.
use imip.Base.{
  ℕ, Bool, true, not, String, List, [], ◌∷◌, map, filter, length, ◌==◌, Option, none, some,
}
use imip.Scheduling.Types.{ScheduleDefinition, DelayReason, refused, device}

-- `approved` or `available`, and the reasons, which count only if it is not.
pub record Evaluation : Type 0 where
  pub approved : Bool
  pub reasons : List DelayReason

abbrev pub Evaluator : Type 0
Evaluator = ScheduleDefinition → ℕ → Evaluation

unfoldable pub permissive_policy_evaluator : Evaluator
permissive_policy_evaluator schedule now = record {
  approved = true;
  reasons = refused "No Policy Authority configured" ∷ [];
}

unfoldable pub permissive_resource_evaluator : Evaluator
permissive_resource_evaluator schedule now = record {
  approved = true;
  reasons = refused "No resource evaluator configured" ∷ [];
}

abbrev listed : Option (List String) → List String
listed none = []
listed (some names) = names

unfoldable pub hardware_resource_evaluator : (String → Bool) → Evaluator
hardware_resource_evaluator available schedule now =
    let unavailable = filter (λ id. not (available id)) (listed schedule.required_devices) in
    record { approved = length unavailable == 0; reasons = map device unavailable }
