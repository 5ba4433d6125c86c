-- ===== src/Runtime/Requests/Stuck.antt =====
-- A boot of core/runtime_bootstrap/src/RuntimeOrchestrator.ts without a startup order.
use imip.Base.{
  ◌===◌, ◌≡◌, refl, sym, ap, ◌∙◌, subst, true, false, List, [], ◌∷◌, Option, none, some, ok, err,
  Bool-cases, inl, inr, ℕ,
}
use imip.Base.Dict.{Dict}
use imip.Runtime.Types.{
  ComponentDefinition, CertificationResult, BootOptions, Thrown, by_runtime, RuntimeError,
  RuntimeState, booting, initializing, operational, paused, maintenance, restarting, shutting_down,
  recovering,
}
use imip.Runtime.Lifecycle.{may_move, assert_runtime_transition}
use imip.Runtime.Graph.{startup_order}
use imip.Runtime.Orchestrator.{
  Orchestrator, Outcome, Action, continue, lift, transition, assert_transition,
}
use imip.Runtime.Orchestrator.Ends.{
  Ends, Leads, continue-Leads, At, transition-Leads, publish-Leads,
}
use imip.Runtime.Booting.{find_order, run_boot_sequence, boot}
use imip.Runtime.Requests.{
  request_shutdown, restart_platform, restart_all, request_restart, request_maintenance, pause,
  resume, recover, Request, perform, perform_all, registering, booting_with, restarting_with,
  shutting_it_down, going_to_maintenance, pausing, resuming, recovering_it,
}
use imip.Runtime.Requests.Apart.{restart_named-Apart, register_component-Apart}

module _ {W I : Type 0} where
  -- The action throws, and leaves the state as it is.
  abbrev Refused : {A : Type 0} → RuntimeState → Action W I A → Type 0
  Refused s m = (graph : _) (c : _) → Leads (At graph s c) m (λ _ _. ⊥) (λ _ o. o.state ≡ s)

  never :
      {A : Type 0} {m : Action W I A} {Q : A → Orchestrator W I → Type 0}
      {E : Thrown → Orchestrator W I → Type 0}
      → Leads (λ _. ⊥) m Q E
  never = record { ends = λ o b. absurd b }

  transition-Refused : (s t : RuntimeState) → may_move s t ≡ false → Refused s (transition t)
  unfolding transition assert_transition continue lift assert_runtime_transition
  transition-Refused s t m graph c = record {
    ends = λ o at.
        let e : may_move o.state t ≡ false = ap (λ x. may_move x t) at.state_eq ∙ m in
        rw e at.state_eq;
  }

  assert-Refused : (s t : RuntimeState) → may_move s t ≡ false → Refused s (assert_transition t)
  unfolding assert_transition lift assert_runtime_transition
  assert-Refused s t m graph c = record {
    ends = λ o at.
        let e : may_move o.state t ≡ false = ap (λ x. may_move x t) at.state_eq ∙ m in
        rw e at.state_eq;
  }

module _ {W I : Type 0} (now : W → ℕ) where
  Refused-state :
      {A : Type 0} (m : Action W I A) (o : Orchestrator W I) (s : RuntimeState)
      → o.state ≡ s
      → Refused s m
      → (m o).0.state ≡ s
  Refused-state {A = A} m o s h r = go (m o) (
      (r o.graph o.last_certification).ends o
        (record { graph_eq = refl; state_eq = h; certificate_eq = refl }))
    where
      go : (x : Outcome W I A) → Ends (λ _ _. ⊥) (λ _ o'. o'.state ≡ s) x → x.0.state ≡ s
      go (o', ok a) b = absurd b
      go (o', err e) b = b

  restart_all-Refused :
      (options : BootOptions) → Refused initializing (restart_all {I = I} now options)
  unfolding restart_all restart_platform may_move
  restart_all-Refused options graph c =
      continue-Leads
        (continue-Leads (publish-Leads _) (λ _.
          continue-Leads (transition-Refused initializing restarting refl graph c) (λ _. never)))
        (λ _. never)

  perform-initializing :
      (r : Request W I) (o : Orchestrator W I)
      → o.state ≡ initializing
      → (perform now r o).state ≡ initializing
  unfolding perform boot request_shutdown request_maintenance pause resume recover request_restart
      may_move
  perform-initializing (registering d) o h = ((register_component-Apart d).kept o).0 ∙ h
  perform-initializing (booting_with options) o h =
      Refused-state (boot now options) o initializing h
        (λ g c. continue-Leads (assert-Refused initializing booting refl g c) (λ _. never))
  perform-initializing (restarting_with none options) o h =
      Refused-state (restart_all now options) o initializing h (restart_all-Refused options)
  perform-initializing (restarting_with (some name) options) o h = elim (Bool-cases (name === "")) [
    | inl e ↦
        rw (e, perform)
          (Refused-state (restart_all now options) o initializing h (restart_all-Refused options))
    | inr e ↦ rw (e, perform) (((restart_named-Apart now name).kept o).0 ∙ h)
  ]
  perform-initializing shutting_it_down o h =
      Refused-state (request_shutdown now) o initializing h
        (λ g c. continue-Leads (assert-Refused initializing shutting_down refl g c) (λ _. never))
  perform-initializing going_to_maintenance o h =
      Refused-state (request_maintenance now) o initializing h
        (λ g c. continue-Leads (transition-Refused initializing maintenance refl g c) (λ _. never))
  perform-initializing pausing o h =
      Refused-state pause o initializing h
        (λ g c. continue-Leads (transition-Refused initializing paused refl g c) (λ _. never))
  perform-initializing resuming o h =
      Refused-state resume o initializing h
        (λ g c. continue-Leads (transition-Refused initializing operational refl g c) (λ _. never))
  perform-initializing recovering_it o h =
      Refused-state (recover now) o initializing h
        (λ g c. continue-Leads (assert-Refused initializing recovering refl g c) (λ _. never))

  perform_all-initializing :
      (rs : List (Request W I)) (o : Orchestrator W I)
      → o.state ≡ initializing
      → (perform_all now rs o).state ≡ initializing
  unfolding perform_all
  perform_all-initializing [] o h = h
  perform_all-initializing (r ∷ rs) o h =
      perform_all-initializing rs (perform now r o) (perform-initializing r o h)

  -- No order, so the boot throws in `initializing`.
  abbrev Wedged : RuntimeError → Thrown → Orchestrator W I → Type 0
  Wedged e x o = (x ≡ by_runtime e) × (o.state ≡ initializing)

  find_order-Wedged :
      (graph : Dict (ComponentDefinition W I)) (c : Option CertificationResult) (e : RuntimeError)
      → startup_order graph ≡ err e
      → Leads (At graph initializing c) find_order (λ _ _. ⊥) (Wedged e)
  unfolding find_order lift
  find_order-Wedged graph c e h = record {
    ends = λ o at.
        subst (λ r. Ends (λ _ _. ⊥) (Wedged e) (lift r o)) (sym (ap startup_order at.graph_eq ∙ h))
          (refl, at.state_eq);
  }

  run_boot_sequence-Wedged :
      (options : BootOptions) (graph : Dict (ComponentDefinition W I))
      (c : Option CertificationResult) (e : RuntimeError)
      → startup_order graph ≡ err e
      → Leads (At graph booting c) (run_boot_sequence now options) (λ _ _. ⊥) (Wedged e)
  unfolding run_boot_sequence may_move
  run_boot_sequence-Wedged options graph c e h = continue-Leads (publish-Leads _) (λ _.
      continue-Leads (transition-Leads initializing refl) (λ _.
        continue-Leads (publish-Leads _)
          (λ _. continue-Leads (find_order-Wedged graph c e h) (λ _. never))))

  -- If the registered components have no startup order, because a dependency is missing or there is a
  -- cycle, then a boot throws that error, and no sequence of calls after it, of whatever kind, gets
  -- the platform out of the state `initializing`.
  pub boot-stuck :
      (options : BootOptions) (o : Orchestrator W I) (e : RuntimeError)
      → may_move o.state booting ≡ true
      → startup_order o.graph ≡ err e
      → ((boot now options o).1 ≡ err (by_runtime e))
        × ((rs : List (Request W I))
            → (perform_all now rs (boot now options o).0).state ≡ initializing)
  unfolding boot assert_transition lift assert_runtime_transition continue
  boot-stuck options o e m h =
      let w = wedged (boot now options o) (
        rw m (
          (continue-Leads (transition-Leads booting m)
              (λ _. run_boot_sequence-Wedged options o.graph o.last_certification e h)).ends
            o (record { graph_eq = refl; state_eq = refl; certificate_eq = refl }))) in
      (w.0, λ rs. perform_all-initializing rs _ w.1)
    where
      wedged :
          (x : Outcome W I CertificationResult)
          → Ends (λ _ _. ⊥) (Wedged e) x
          → (x.1 ≡ err (by_runtime e)) × (x.0.state ≡ initializing)
      wedged (o', ok a) b = absurd b
      wedged (o', err y) b = (ap err b.0, b.1)
