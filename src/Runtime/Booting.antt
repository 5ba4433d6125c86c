-- ===== src/Runtime/Booting.antt =====
-- core/runtime_bootstrap/src/RuntimeOrchestrator.ts: `boot`, in the parts that its early throws divide it
-- into.
use imip.Base.{
  ℕ, not, ◌&&◌, String, List, [], ◌++◌, some, filter, includes, length, ltb, ok, if◌then◌else◌,
}
use imip.Runtime.Types.{
  ComponentFailure, CertificationResult, BootOptions, OperationCertification, was_certified,
  was_blocked, RuntimeState, booting, initializing, validating, ready, operational, faulted,
  bootstrap_started, bootstrap_completed, initialization_started, initialization_completed,
  readiness_verified, runtime_certified, runtime_operational, runtime_faulted, Thrown, by_runtime,
  bootstrap_failed, certification_failed,
}
use imip.Runtime.Board.{record_of}
use imip.Runtime.Certification.{certify_runtime}
use imip.Runtime.Graph.{startup_order}
use imip.Runtime.Startup.{begin, Startup, start_all, verify_all}
use imip.Runtime.Orchestrator.{
  Action, ◌>>=◌, ◌>>◌, return, throw, lift, change, assert_transition, transition,
  publish_runtime_event, record_operation,
}

module _ {W I : Type 0} where
  unfoldable pub eligible_names : List String → Action W I (List String)
  eligible_names names =
      λ o. (o, ok (filter (λ name. (record_of name o.board).readiness_status.ready) names))

  unfoldable pub find_order : Action W I (List String)
  find_order = λ o. lift (startup_order o.graph) o

module _ {W I : Type 0} (now : W → ℕ) where
  -- `recordOperation`, stamped with the time of the world.
  unfoldable pub record_done :
      String
      → List String
      → List String
      → List String
      → List ComponentFailure
      → OperationCertification
      → RuntimeState
      → Action W I (Unit {0})
  record_done operation order initialized skipped failures status final = λ o.
      record_operation
        (record {
          operation = operation;
          timestamp = now o.world;
          dependencies_validated = order;
          components_initialized = initialized;
          components_skipped = skipped;
          failures = failures;
          certification_status = status;
          final_state = final;
        })
        o

  -- A boot that does not go through: `faulted`, told, recorded and thrown.
  unfoldable pub boot_fails :
      {A : Type 0}
      → List String
      → List String
      → List String
      → List ComponentFailure
      → Thrown
      → Action W I A
  boot_fails order initialized skipped failures error = do
    transition faulted
    publish_runtime_event runtime_faulted
    record_done "boot" order initialized skipped failures was_blocked faulted
    throw error

  -- The loop that creates and initializes.
  unfoldable pub start_components : List String → Action W I (Startup W I)
  start_components order = λ o.
      let s = start_all now o.graph order (begin o.board o.instances o.world) in
      (record o { board = s.board; instances = s.instances; world = s.world }, ok s)

  unfoldable pub verify_components : List String → Action W I (List ComponentFailure)
  verify_components names = λ o.
      let v =
        verify_all now o.graph o.instances o.world names
          (record { board = o.board; failures = [] }) in
      (record o { board = v.board }, ok v.failures)

  -- Certification of the components of those names, which the board keeps.
  unfoldable pub certify : List String → Action W I CertificationResult
  certify names = λ o.
      let c = certify_runtime names (now o.world) o.board in
      (record o { board = c.0; last_certification = some c.1 }, ok c.1)

  -- The end of a boot, once it is certified.
  unfoldable pub go_operational :
      List String → Startup W I → CertificationResult → Action W I CertificationResult
  go_operational order s certification = do
    publish_runtime_event runtime_certified
    transition ready
    transition operational
    change (λ o. record o { booted_at = some (now o.world) })
    publish_runtime_event runtime_operational
    publish_runtime_event bootstrap_completed
    record_done "boot" order s.initialized [] s.failures was_certified operational
    return certification

  unfoldable pub certify_boot : List String → Startup W I → Action W I CertificationResult
  certify_boot order s = do
    eligible ← eligible_names s.initialized
    certification ← certify eligible
    if certification.certified
        then go_operational order s certification
        else boot_fails order s.initialized [] s.failures
            (by_runtime (certification_failed certification.reasons))

  unfoldable pub verify_boot :
      BootOptions → List String → Startup W I → Action W I CertificationResult
  verify_boot options order s = do
    transition validating
    unready_ones ← verify_components s.initialized
    publish_runtime_event readiness_verified
    if ltb 0 (length unready_ones) && not options.allow_partial_startup
        then boot_fails order s.initialized [] (s.failures ++ unready_ones)
            (by_runtime (bootstrap_failed unready_ones))
        else certify_boot order s

  unfoldable pub run_boot_sequence : BootOptions → Action W I CertificationResult
  run_boot_sequence options = do
    publish_runtime_event bootstrap_started
    transition initializing
    publish_runtime_event initialization_started
    order ← find_order
    s ← start_components order
    publish_runtime_event initialization_completed
    if ltb 0 (length s.failures) && not options.allow_partial_startup
        then boot_fails order s.initialized (filter (λ n. not (includes s.initialized n)) order)
            s.failures (by_runtime (bootstrap_failed s.failures))
        else verify_boot options order s

  unfoldable pub boot : BootOptions → Action W I CertificationResult
  boot options = do assert_transition booting; transition booting; run_boot_sequence options
