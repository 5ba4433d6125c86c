-- ===== src/Runtime/Requests.antt =====
-- core/runtime_bootstrap/src/RuntimeOrchestrator.ts: the operations of the orchestrator.
pub mod Apart
pub mod Licensing
pub mod Keeping
pub mod Licence
pub mod Stuck
pub mod Outcomes
use imip.Base.{
  ℕ, ◌+◌, Bool, true, false, not, ◌&&◌, String, List, [], ◌∷◌, ◌++◌, map, Option, none, some,
  filter, includes, length, ltb, Result, ok, err, if◌then◌else◌, ◌===◌,
}
use imip.Base.Dict
use imip.Base.Dict.{Dict, get, has, put, values}
use imip.Runtime.Types.{
  ComponentDefinition, ComponentFailure, CertificationResult, BootOptions, RuntimeOperationRecord,
  OperationCertification, was_certified, was_blocked, not_applicable, RuntimeState, stopped,
  booting, initializing, validating, ready, operational, paused, maintenance, restarting,
  shutting_down, recovering, faulted, RuntimeEventName, bootstrap_started, bootstrap_completed,
  initialization_started, initialization_completed, readiness_verified, runtime_certified,
  runtime_operational, runtime_paused, runtime_resumed, shutdown_requested, shutdown_completed,
  restart_requested, runtime_recovered, runtime_faulted, Thrown, by_runtime, by_component,
  bootstrap_failed, certification_failed, component_not_found, unready,
}
use imip.Runtime.Board.{
  record_of, record_restart, mark_failed, mark_initialized, update_readiness, update_health,
}
use imip.Runtime.Certification.{certify_runtime}
use imip.Runtime.Graph.{startup_order, shutdown_order}
use imip.Runtime.Startup.{
  Startup, Verification, Teardown, dep_map, start_all, verify_all, stop_all, tear_down_all,
  recheck_all,
}
use imip.Runtime.Orchestrator.{
  Orchestrator, Outcome, Action, continue, ◌>>=◌, ◌>>◌, return, throw, lift, change,
  assert_transition, transition, publish_runtime_event, record_operation, register_component,
}
use imip.Runtime.Booting.{record_done, certify, run_boot_sequence, boot}

module _ {W I : Type 0} where
  unfoldable pub find_shutdown_order : Action W I (List String)
  find_shutdown_order = λ o. lift (shutdown_order o.graph) o

  -- After `create`: what it gave is held, and initialized.
  unfoldable pub after_rebuild :
      ComponentDefinition W I → String → W × Result String I → Action W I I
  after_rebuild d name (w, err message) o = (record o { world = w }, err (by_component message))
  after_rebuild d name (w, ok instance_of) o =
      let started = d.initialize instance_of (dep_map d.dependencies o.instances []) w in
      (
        record o { world = started.0; instances = put name instance_of o.instances },
        elim started.1 [ none ↦ ok instance_of | some message ↦ err (by_component message) ],
      )

  unfoldable pub rebuild : ComponentDefinition W I → String → Action W I I
  rebuild d name =
      λ o. after_rebuild d name (d.create (dep_map d.dependencies o.instances []) o.world) o

  -- The shutdown of an instance that is held, whatever it throws.
  unfoldable pub shut_held :
      ComponentDefinition W I → Option I → Orchestrator W I → Orchestrator W I
  shut_held d none o = o
  shut_held d (some instance_of) o = record o { world = (d.shutdown instance_of o.world).0 }

  unfoldable pub shut_existing : ComponentDefinition W I → String → Action W I (Unit {0})
  shut_existing d name = change (λ o. shut_held d (get name o.instances) o)

  unfoldable pub pause : Action W I (Unit {0})
  pause = do transition paused; publish_runtime_event runtime_paused

  unfoldable pub resume : Action W I (Unit {0})
  resume = do transition operational; publish_runtime_event runtime_resumed

  unfoldable pub finish_recovery : CertificationResult → Action W I CertificationResult
  finish_recovery certification =
      if certification.certified
      then (do
        transition operational
        change (λ o. record o { recovery_count = o.recovery_count + 1 })
        publish_runtime_event runtime_recovered
        return certification)
      else (do transition faulted; publish_runtime_event runtime_faulted; return certification)

module _ {W I : Type 0} (now : W → ℕ) where
  unfoldable pub stop_components : List String → Action W I (List ComponentFailure)
  stop_components order = λ o.
      let t =
        stop_all now o.graph o.instances order
          (record { board = o.board; world = o.world; failures = [] }) in
      (record o { board = t.board; world = t.world }, ok t.failures)

  unfoldable pub request_shutdown : Action W I (Unit {0})
  request_shutdown = do
    assert_transition shutting_down
    transition shutting_down
    publish_runtime_event shutdown_requested
    order ← find_shutdown_order
    failures ← stop_components order
    transition stopped
    publish_runtime_event shutdown_completed
    record_done now "shutdown" order [] [] failures not_applicable stopped

  unfoldable pub tear_down_components : List String → Action W I (Unit {0})
  tear_down_components order = λ o.
      let t =
        tear_down_all now o.graph o.instances order
          (record { board = o.board; world = o.world; failures = [] }) in
      (record o { board = t.board; world = t.world; instances = [] }, ok tt)

  unfoldable pub restart_platform : BootOptions → Action W I CertificationResult
  restart_platform options = do
    publish_runtime_event restart_requested
    transition restarting
    order ← find_shutdown_order
    tear_down_components order
    transition booting
    run_boot_sequence now options

  unfoldable pub check_rebuilt : ComponentDefinition W I → String → I → Action W I (Unit {0})
  check_rebuilt d name instance_of = λ o.
      let readiness = d.check_readiness instance_of o.world in
      let checked = record_restart name (
        update_health name (d.check_health instance_of o.world)
          (update_readiness name readiness o.board)) in
      let message = unready readiness.reasons in
      if readiness.ready
      then (record o { board = mark_initialized name (now o.world) checked }, ok tt)
      else (
        record o { board = mark_failed name message (now o.world) checked },
        err (by_runtime (bootstrap_failed (record { component = name; message = message } ∷ []))),
      )

  unfoldable pub rebuild_component : ComponentDefinition W I → String → Action W I (Unit {0})
  rebuild_component d name = do
    shut_existing d name
    instance_of ← rebuild d name
    check_rebuilt d name instance_of

  unfoldable pub restart_component : String → Action W I (Unit {0})
  restart_component name = λ o. elim (get name o.graph) [
    | none ↦ (o, err (by_runtime (component_not_found name)))
    | some d ↦ rebuild_component d name o
  ]

  unfoldable pub restart_named : String → Action W I (Option CertificationResult)
  restart_named name = do
    publish_runtime_event restart_requested
    restart_component name
    return none

  unfoldable pub restart_all : BootOptions → Action W I (Option CertificationResult)
  restart_all options = do certification ← restart_platform options; return (some certification)

  -- The empty name counts as no name.
  unfoldable pub request_restart :
      Option String → BootOptions → Action W I (Option CertificationResult)
  request_restart none options = restart_all options
  request_restart (some name) options =
      if name === "" then restart_all options else restart_named name

  unfoldable pub request_maintenance : Action W I (Unit {0})
  request_maintenance = do
    transition maintenance
    record_done now "maintenance" [] [] [] [] not_applicable maintenance

  -- The names of the definitions whose instances are held, once these have been checked again.
  unfoldable pub recheck_held : Action W I (List String)
  recheck_held = λ o.
      let held = filter (λ d. has d.name o.instances) (values o.graph) in
      (
        record o { board = recheck_all now held o.instances o.world o.board },
        ok (map (λ d. d.name) held),
      )

  unfoldable pub recover : Action W I CertificationResult
  recover = do
    assert_transition recovering
    transition recovering
    names ← recheck_held
    certification ← certify now names
    finish_recovery certification

-- The calls a client can make of an orchestrator.
pub data Request (W I : Type 0) : Type 0 where
  registering : ComponentDefinition W I → Request W I
  booting_with : BootOptions → Request W I
  restarting_with : Option String → BootOptions → Request W I
  shutting_it_down going_to_maintenance pausing resuming recovering_it : Request W I

module _ {W I : Type 0} (now : W → ℕ) where
  -- The orchestrator after a call, whether it returns or throws.
  unfoldable pub perform : Request W I → Orchestrator W I → Orchestrator W I
  perform (registering d) o = (register_component d o).0
  perform (booting_with options) o = (boot now options o).0
  perform (restarting_with name options) o = (request_restart now name options o).0
  perform shutting_it_down o = (request_shutdown now o).0
  perform going_to_maintenance o = (request_maintenance now o).0
  perform pausing o = (pause o).0
  perform resuming o = (resume o).0
  perform recovering_it o = (recover now o).0

  unfoldable pub perform_all : List (Request W I) → Orchestrator W I → Orchestrator W I
  unfolding perform
  perform_all [] o = o
  perform_all (r ∷ rs) o = perform_all rs (perform r o)
