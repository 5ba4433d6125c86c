-- ===== src/Runtime/Requests/Outcomes.antt =====
-- How a boot of core/runtime_bootstrap/src/RuntimeOrchestrator.ts ends.
use imip.Base.{
  filter, includes, [], ◌++◌, ◌≡◌, refl, sym, ap, ◌∙◌, true, String, List, Option, some, Result, ok,
  err, ◌⊎◌, inl, inr, ℕ, not, ◌&&◌, length, ltb,
}
use imip.Base.Dict.{Dict}
use imip.Runtime.Types.{
  bootstrap_failed, OperationCertification, ComponentDefinition, ComponentFailure,
  CertificationResult, BootOptions, Thrown, by_runtime, RuntimeError, RuntimeState, booting,
  initializing, validating, ready, operational, faulted,
}
use imip.Runtime.Lifecycle.{may_move, assert_runtime_transition}
use imip.Runtime.Graph.{startup_order}
use imip.Runtime.Startup.{Startup}
use imip.Runtime.Orchestrator.{Orchestrator, continue, lift, assert_transition, record_operation}
use imip.Runtime.Orchestrator.Ends.{
  Ends, Leads, continue-Leads, if-Leads, At, transition-Leads, publish-Leads,
}
use imip.Runtime.Booting.{
  record_done, boot_fails, start_components, verify_components, certify, eligible_names,
  go_operational, certify_boot, verify_boot, find_order, run_boot_sequence, boot,
}

module _ {W I : Type 0} (now : W → ℕ) (graph : Dict (ComponentDefinition W I)) where
  init_next : may_move booting initializing ≡ true
  unfolding may_move
  init_next = refl

  validate_next : may_move initializing validating ≡ true
  unfolding may_move
  validate_next = refl

  from_initializing : may_move initializing faulted ≡ true
  unfolding may_move
  from_initializing = refl

  from_validating : may_move validating faulted ≡ true
  unfolding may_move
  from_validating = refl

  by_table : may_move validating ready ≡ true
  unfolding may_move
  by_table = refl

  from_ready : may_move ready operational ≡ true
  unfolding may_move
  from_ready = refl

  -- A boot that returns.
  pub record IsUp (certificate : CertificationResult) (o : Orchestrator W I) : Type 0 where
    pub is_operational : o.state ≡ operational
    pub is_certified : certificate.certified ≡ true
    pub is_kept : o.last_certification ≡ some certificate

  -- A boot that throws: `faulted`, or, where there is no startup order, still `initializing`.
  abbrev pub IsDown : Thrown → Orchestrator W I → Type 0
  IsDown e o =
      (o.state ≡ faulted)
      ⊎ ((o.state ≡ initializing)
          × (r : RuntimeError) × (e ≡ by_runtime r)
          × (startup_order graph ≡ err r))

  pub record_done-Leads :
      {E : Thrown → Orchestrator W I → Type 0} {s : RuntimeState} {c : Option CertificationResult}
      (operation : String) (order initialized skipped : List String)
      (failures : List ComponentFailure) (status : OperationCertification) (final : RuntimeState)
      → Leads
          (At graph s c)
          (record_done now operation order initialized skipped failures status final)
          (λ _. At graph s c)
          E
  unfolding record_done record_operation
  record_done-Leads operation order initialized skipped failures status final = record {
    ends = λ o at. record {
      graph_eq = at.graph_eq;
      state_eq = at.state_eq;
      certificate_eq = at.certificate_eq;
    };
  }

  boot_fails-IsDown :
      {A : Type 0} {Q : A → Orchestrator W I → Type 0} {s : RuntimeState}
      {c : Option CertificationResult} (order initialized skipped : List String)
      (failures : List ComponentFailure) (error : Thrown)
      → may_move s faulted ≡ true
      → Leads (At graph s c) (boot_fails now order initialized skipped failures error) Q IsDown
  unfolding boot_fails
  boot_fails-IsDown order initialized skipped failures error m =
      continue-Leads (transition-Leads faulted m) (λ _. continue-Leads (publish-Leads _) (λ _.
        continue-Leads (record_done-Leads _ _ _ _ _ _ _)
          (λ _. record { ends = λ o at. inl at.state_eq })))

  go_operational-IsUp :
      (order : List String) (s : Startup W I) (certificate : CertificationResult)
      → certificate.certified ≡ true
      → Leads
          (At graph validating (some certificate))
          (go_operational now order s certificate)
          IsUp
          IsDown
  unfolding go_operational
  go_operational-IsUp order s certificate e = continue-Leads (publish-Leads _) (λ _.
      continue-Leads (transition-Leads ready by_table) (λ _.
        continue-Leads (transition-Leads operational from_ready) (λ _.
          continue-Leads
            (record {
              ends = λ o at. record {
                graph_eq = at.graph_eq;
                state_eq = at.state_eq;
                certificate_eq = at.certificate_eq;
              };
            })
            (λ _. continue-Leads (publish-Leads _) (λ _. continue-Leads (publish-Leads _) (λ _.
              continue-Leads (record_done-Leads _ _ _ _ _ _ _) (λ _. record {
                ends = λ o at. record {
                  is_operational = at.state_eq;
                  is_certified = e;
                  is_kept = at.certificate_eq;
                };
              })))))))

  module _ {E : Thrown → Orchestrator W I → Type 0} {s : RuntimeState}
      {c : Option CertificationResult} where
    eligible_names-Leads :
        (names : List String) → Leads (At graph s c) (eligible_names names) (λ _. At graph s c) E
    unfolding eligible_names
    eligible_names-Leads names = record { ends = λ o at. at }

    pub certify-Leads :
        (names : List String)
        → Leads (At graph s c) (certify now names) (λ certificate. At graph s (some certificate)) E
    unfolding certify
    certify-Leads names = record {
      ends =
          λ o at. record { graph_eq = at.graph_eq; state_eq = at.state_eq; certificate_eq = refl };
    }

    verify_components-Leads :
        (names : List String)
        → Leads (At graph s c) (verify_components now names) (λ _. At graph s c) E
    unfolding verify_components
    verify_components-Leads names = record {
      ends = λ o at. record {
        graph_eq = at.graph_eq;
        state_eq = at.state_eq;
        certificate_eq = at.certificate_eq;
      };
    }

    start_components-Leads :
        (order : List String)
        → Leads (At graph s c) (start_components now order) (λ _. At graph s c) E
    unfolding start_components
    start_components-Leads order = record {
      ends = λ o at. record {
        graph_eq = at.graph_eq;
        state_eq = at.state_eq;
        certificate_eq = at.certificate_eq;
      };
    }

  find_order-Leads :
      {c : Option CertificationResult}
      → Leads (At graph initializing c) find_order (λ _. At graph initializing c) IsDown
  unfolding find_order lift
  find_order-Leads {c = c} = record { ends = λ o at. go o at (startup_order o.graph) refl }
    where
      go :
          (o : Orchestrator W I)
          → At graph initializing c o
          → (r : Result RuntimeError (List String)) → startup_order o.graph ≡ r
          → Ends (λ _. At graph initializing c) IsDown (lift r o)
      go o at (ok order) e = at
      go o at (err x) e = inr (at.state_eq, x, refl, sym (ap startup_order at.graph_eq) ∙ e)

  certify_boot-IsUp :
      {c : Option CertificationResult} (order : List String) (s : Startup W I)
      → Leads (At graph validating c) (certify_boot now order s) IsUp IsDown
  unfolding certify_boot
  certify_boot-IsUp order s = continue-Leads (eligible_names-Leads s.initialized) (λ names.
      continue-Leads (certify-Leads names) (λ certificate.
        if-Leads certificate.certified (go_operational-IsUp order s certificate)
          (λ _. boot_fails-IsDown _ _ _ _ _ from_validating)))

  verify_boot-IsUp :
      {c : Option CertificationResult} (options : BootOptions) (order : List String)
      (s : Startup W I)
      → Leads (At graph initializing c) (verify_boot now options order s) IsUp IsDown
  unfolding verify_boot
  verify_boot-IsUp options order s =
      continue-Leads (transition-Leads validating validate_next) (λ _.
        continue-Leads (verify_components-Leads s.initialized) (λ failures.
          continue-Leads (publish-Leads _) (λ _.
            if-Leads (ltb 0 (length failures) && not options.allow_partial_startup)
              (λ _.
                boot_fails-IsDown order s.initialized [] (s.failures ++ failures)
                  (by_runtime (bootstrap_failed failures)) from_validating)
              (λ _. certify_boot-IsUp order s))))

  pub run_boot_sequence-IsUp :
      {c : Option CertificationResult} (options : BootOptions)
      → Leads (At graph booting c) (run_boot_sequence now options) IsUp IsDown
  unfolding run_boot_sequence
  run_boot_sequence-IsUp options = continue-Leads (publish-Leads _) (λ _.
      continue-Leads (transition-Leads initializing init_next) (λ _.
        continue-Leads (publish-Leads _) (λ _. continue-Leads find_order-Leads (λ order.
          continue-Leads (start_components-Leads order) (λ s. continue-Leads (publish-Leads _) (λ _.
            if-Leads (ltb 0 (length s.failures) && not options.allow_partial_startup)
              (λ _.
                boot_fails-IsDown order s.initialized
                  (filter (λ n. not (includes s.initialized n)) order) s.failures
                  (by_runtime (bootstrap_failed s.failures)) from_initializing)
              (λ _. verify_boot-IsUp options order s)))))))

-- A boot from a state that allows it either returns, with the platform operational and the returned
-- certificate granted and kept as the last one; or it throws, with the platform faulted, or, when it
-- throws the error of the dependency graph, still initializing.
pub boot-Ends :
    {W I : Type 0} (now : W → ℕ) (options : BootOptions) (o : Orchestrator W I)
    → may_move o.state booting ≡ true
    → Ends (IsUp now o.graph) (IsDown now o.graph) (boot now options o)
unfolding boot assert_transition lift assert_runtime_transition continue
boot-Ends now options o m = rw m (
    (continue-Leads (transition-Leads booting m)
        (λ _. run_boot_sequence-IsUp now o.graph options)).ends
      o (record { graph_eq = refl; state_eq = refl; certificate_eq = refl }))
