-- ===== src/Runtime/Requests/Keeping.antt =====
-- The operations of the orchestrator, and the certificate of the platform.
use imip.Base.{refl, String, List, Option, Result, ok, err, inl, inr, ℕ}
use imip.Base.Dict.{Dict}
use imip.Runtime.Types.{
  ComponentDefinition, CertificationResult, BootOptions, Thrown, RuntimeError, RuntimeState,
  stopped, booting, operational, paused, maintenance, restarting, shutting_down, recovering,
  faulted,
}
use imip.Runtime.Graph.{shutdown_order}
use imip.Runtime.Orchestrator.{Orchestrator, lift}
use imip.Runtime.Orchestrator.Ends.{
  Ends, Leads, continue-Leads, if-Leads, At, transition-Leads, publish-Leads,
}
use imip.Runtime.Booting.{boot}
use imip.Runtime.Requests.{
  find_shutdown_order, stop_components, request_shutdown, tear_down_components, restart_platform,
  restart_all, request_maintenance, pause, resume, recheck_held, finish_recovery, recover,
}
use imip.Runtime.Requests.Outcomes.{
  IsUp, IsDown, run_boot_sequence-IsUp, record_done-Leads, certify-Leads,
}
use imip.Runtime.Requests.Licensing.{
  At-IsLicensed, IsLicence, IsLicensed, Keeping, assert-step, failed_again, given, leaf, rebooting,
  recovered, stays, stopping, to_maintenance, to_operational, to_paused, transition-step,
  unlicensed, weaken,
}

module _ {W I : Type 0} where
  pub pause-Keeping :
      {graph : Dict (ComponentDefinition W I)} {s : RuntimeState} {c : Option CertificationResult}
      → IsLicence s c
      → Keeping graph s c pause
  unfolding pause
  pause-Keeping {s = s} l = continue-Leads (transition-step paused l) (λ _. given (λ m.
      stays (record { granted = λ _. l.granted (to_paused s m); resting = refl })
        (publish-Leads _)))

  pub resume-Keeping :
      {graph : Dict (ComponentDefinition W I)} {s : RuntimeState} {c : Option CertificationResult}
      → IsLicence s c
      → Keeping graph s c resume
  unfolding resume
  resume-Keeping {s = s} l = continue-Leads (transition-step operational l) (λ _. given (λ m.
      stays (record { granted = λ _. l.granted (to_operational s m l.resting); resting = refl })
        (publish-Leads _)))

  module _ (now : W → ℕ) where
    pub maintenance-Keeping :
        {graph : Dict (ComponentDefinition W I)} {s : RuntimeState} {c : Option CertificationResult}
        → IsLicence s c
        → Keeping graph s c (request_maintenance now)
    unfolding request_maintenance
    maintenance-Keeping {s = s} l = continue-Leads (transition-step maintenance l) (λ _. given (λ m.
        stays (record { granted = λ _. l.granted (to_maintenance s m); resting = refl })
          (record_done-Leads now _ _ _ _ _ _ _ _)))

    IsUp-IsLicensed :
        {graph : Dict (ComponentDefinition W I)} (a : CertificationResult) (o : Orchestrator W I)
        → IsUp now graph a o
        → IsLicensed o
    IsUp-IsLicensed a o up =
        rw (up.is_operational, up.is_kept)
          (record { granted = λ _. up.is_certified; resting = refl })

    IsDown-IsLicensed :
        (graph : Dict (ComponentDefinition W I)) (e : Thrown) (o : Orchestrator W I)
        → IsDown now graph e o
        → IsLicensed o
    IsDown-IsLicensed graph e o (inl h) = rw h (unlicensed refl refl)
    IsDown-IsLicensed graph e o (inr h) = rw h.0 (unlicensed refl refl)

    pub boot-Keeping :
        {graph : Dict (ComponentDefinition W I)} {s : RuntimeState} {c : Option CertificationResult}
        (options : BootOptions)
        → IsLicence s c
        → Keeping graph s c (boot now options)
    unfolding boot
    boot-Keeping {graph = graph} options l = continue-Leads (assert-step booting l) (λ _.
        continue-Leads (transition-step booting l) (λ _. given (λ m.
          weaken IsUp-IsLicensed (IsDown-IsLicensed graph)
            (run_boot_sequence-IsUp now graph options))))

    -- Looking up an order, from a state that is neither live nor passing.
    find-step :
        {graph : Dict (ComponentDefinition W I)} {s : RuntimeState} {c : Option CertificationResult}
        → IsLicence s c
        → Leads (At graph s c) find_shutdown_order (λ _. At graph s c) (λ _. IsLicensed)
    unfolding find_shutdown_order lift
    find-step {graph = graph} {s = s} {c = c} l = record {
      ends = λ o at. go o at (shutdown_order o.graph);
    }
      where
        go :
            (o : Orchestrator W I)
            → At graph s c o
            → (r : Result RuntimeError (List String))
            → Ends (λ _. At graph s c) (λ _. IsLicensed) (lift r o)
        go o at (ok order) = at
        go o at (err e) = At-IsLicensed l at

    pub shutdown-Keeping :
        {graph : Dict (ComponentDefinition W I)} {s : RuntimeState} {c : Option CertificationResult}
        → IsLicence s c
        → Keeping graph s c (request_shutdown now)
    unfolding request_shutdown stop_components
    shutdown-Keeping l = continue-Leads (assert-step shutting_down l) (λ _.
        continue-Leads (transition-step shutting_down l) (λ _. given (λ m.
          continue-Leads (publish-Leads _) (λ _.
            continue-Leads (find-step (unlicensed refl refl)) (λ order.
              continue-Leads
                (leaf (λ o at. record {
                  graph_eq = at.graph_eq;
                  state_eq = at.state_eq;
                  certificate_eq = at.certificate_eq;
                }))
                (λ _. continue-Leads (transition-Leads stopped stopping) (λ _.
                  continue-Leads (publish-Leads _) (λ _.
                    stays (unlicensed refl refl) (record_done-Leads now _ _ _ _ _ _ _ _)))))))))

    pub restart_all-Keeping :
        {graph : Dict (ComponentDefinition W I)} {s : RuntimeState} {c : Option CertificationResult}
        (options : BootOptions)
        → IsLicence s c
        → Keeping graph s c (restart_all now options)
    unfolding restart_all restart_platform tear_down_components
    restart_all-Keeping {graph = graph} options l =
        continue-Leads
          (continue-Leads (publish-Leads _) (λ _.
            continue-Leads (transition-step restarting l) (λ _. given (λ m.
              continue-Leads (find-step (unlicensed refl refl)) (λ order.
                continue-Leads
                  (leaf (λ o at. record {
                    graph_eq = at.graph_eq;
                    state_eq = at.state_eq;
                    certificate_eq = at.certificate_eq;
                  }))
                  (λ _. continue-Leads (transition-Leads booting rebooting) (λ _.
                    weaken IsUp-IsLicensed (IsDown-IsLicensed graph)
                      (run_boot_sequence-IsUp now graph options))))))))
          (λ _. record { ends = λ o h. h })

    pub recover-Keeping :
        {graph : Dict (ComponentDefinition W I)} {s : RuntimeState} {c : Option CertificationResult}
        → IsLicence s c
        → Keeping graph s c (recover now)
    unfolding recover recheck_held finish_recovery
    recover-Keeping {graph = graph} l = continue-Leads (assert-step recovering l) (λ _.
        continue-Leads (transition-step recovering l) (λ _. given (λ m.
          continue-Leads
            (leaf (λ o at. record {
              graph_eq = at.graph_eq;
              state_eq = at.state_eq;
              certificate_eq = at.certificate_eq;
            }))
            (λ names. continue-Leads (certify-Leads now graph names) (λ certificate.
              if-Leads certificate.certified
                (λ e. continue-Leads (transition-Leads operational recovered) (λ _.
                  continue-Leads
                    (leaf (λ o at. record {
                      graph_eq = at.graph_eq;
                      state_eq = at.state_eq;
                      certificate_eq = at.certificate_eq;
                    }))
                    (λ _. continue-Leads (publish-Leads _) (λ _.
                      stays (record { granted = λ _. e; resting = refl })
                        (record { ends = λ o at. at })))))
                (λ e. continue-Leads (transition-Leads faulted failed_again) (λ _.
                  continue-Leads (publish-Leads _)
                    (λ _. stays (unlicensed refl refl) (record { ends = λ o at. at })))))))))
