-- ===== src/Runtime/Requests/Apart.antt =====
-- The operations that are about one component only, and what they leave alone.
use imip.Base.{
  ◌≡◌, refl, ◌∙◌, String, [], Option, none, some, Result, ok, err, Bool-cases, inl, inr, ℕ,
  Option-cases,
}
use imip.Base.Dict.{Dict, get}
use imip.Runtime.Types.{ComponentDefinition, RuntimeError}
use imip.Runtime.Graph
use imip.Runtime.Graph.{shutdown_order}
use imip.Runtime.Startup.{dep_map}
use imip.Runtime.Orchestrator.{
  Orchestrator, Outcome, Action, continue, lift, publish_runtime_event, register_component,
}
use imip.Runtime.Requests.{
  rebuild, after_rebuild, shut_existing, shut_held, check_rebuilt, rebuild_component,
  restart_component, restart_named,
}

module _ {W I : Type 0} where
  -- Nothing that a restart of one component does touches the state or the certificate.
  pub record Apart {A : Type 0} (m : Action W I A) : Type 0 where
    pub kept :
        (o : Orchestrator W I)
        → ((m o).0.state ≡ o.state) × ((m o).0.last_certification ≡ o.last_certification)

  continue-Apart :
      {A B : Type 0} {m : Action W I A} {f : A → Action W I B}
      → Apart m
      → ((a : A) → Apart (f a))
      → Apart (λ o. continue f (m o))
  unfolding continue
  continue-Apart {A = A} {m = m} {f = f} p q = record { kept = λ o. go o (m o) (p.kept o) }
    where
      go :
          (o : Orchestrator W I) (r : Outcome W I A)
          → (r.0.state ≡ o.state) × (r.0.last_certification ≡ o.last_certification)
          → ((continue f r).0.state ≡ o.state)
            × ((continue f r).0.last_certification ≡ o.last_certification)
      go o (o', ok a) h = (((q a).kept o').0 ∙ h.0, ((q a).kept o').1 ∙ h.1)
      go o (o', err e) h = h

  shut_existing-Apart : (d : ComponentDefinition W I) (name : String) → Apart (shut_existing d name)
  unfolding shut_existing shut_held
  shut_existing-Apart d name = record { kept = λ o. go o (get name o.instances) }
    where
      go :
          (o : Orchestrator W I) (held : Option I)
          → ((shut_held d held o).state ≡ o.state)
            × ((shut_held d held o).last_certification ≡ o.last_certification)
      go o none = (refl, refl)
      go o (some i) = (refl, refl)

  rebuild-Apart : (d : ComponentDefinition W I) (name : String) → Apart (rebuild d name)
  unfolding rebuild after_rebuild
  rebuild-Apart d name = record {
    kept = λ o. go o (d.create (dep_map d.dependencies o.instances []) o.world);
  }
    where
      go :
          (o : Orchestrator W I) (made : W × Result String I)
          → ((after_rebuild d name made o).0.state ≡ o.state)
            × ((after_rebuild d name made o).0.last_certification ≡ o.last_certification)
      go o (w, ok i) = (refl, refl)
      go o (w, err m) = (refl, refl)

  pub register_component-Apart : (d : ComponentDefinition W I) → Apart (register_component d)
  unfolding register_component lift
  register_component-Apart d =
      continue-Apart (record { kept = λ o. go o (Graph.register d o.graph) })
        (λ graph. record { kept = λ o. (refl, refl) })
    where
      go :
          (o : Orchestrator W I) (r : Result RuntimeError (Dict (ComponentDefinition W I)))
          → ((lift r o).0.state ≡ o.state)
            × ((lift r o).0.last_certification ≡ o.last_certification)
      go o (ok g) = (refl, refl)
      go o (err e) = (refl, refl)

module _ {W I : Type 0} (now : W → ℕ) where
  check_rebuilt-Apart :
      (d : ComponentDefinition W I) (name : String) (i : I) → Apart (check_rebuilt now d name i)
  unfolding check_rebuilt
  check_rebuilt-Apart d name i = record {
    kept = λ o. elim (Bool-cases (d.check_readiness i o.world).ready) [
      | inl e ↦ rw e (refl, refl)
      | inr e ↦ rw e (refl, refl)
    ];
  }

  rebuild_component-Apart :
      (d : ComponentDefinition W I) (name : String) → Apart (rebuild_component now d name)
  unfolding rebuild_component
  rebuild_component-Apart d name =
      continue-Apart (shut_existing-Apart d name)
        (λ _. continue-Apart (rebuild-Apart d name) (λ i. check_rebuilt-Apart d name i))

  pub restart_named-Apart : (name : String) → Apart (restart_named {I = I} now name)
  unfolding restart_named publish_runtime_event restart_component
  restart_named-Apart name =
      continue-Apart (record { kept = λ o. (refl, refl) })
        (λ _. continue-Apart found (λ _. record { kept = λ o. (refl, refl) }))
    where
      found : Apart (restart_component {I = I} now name)
      found = record {
        kept = λ o. elim (Option-cases (get name o.graph)) [
          | inl e ↦ rw (e, restart_component) (refl, refl)
          | inr (d, e) ↦ rw (e, restart_component) ((rebuild_component-Apart d name).kept o)
        ];
      }
