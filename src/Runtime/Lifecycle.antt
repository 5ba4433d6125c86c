-- ===== src/Runtime/Lifecycle.antt =====
-- core/runtime_bootstrap/src/lifecycleStateMachine.ts.
use imip.Base.{Bool, true, List, [], ◌∷◌, any, Result, ok, err, if◌then◌else◌, decided}
use imip.Runtime.Types.{
  RuntimeState, stopped, booting, initializing, validating, ready, operational, paused, maintenance,
  restarting, shutting_down, recovering, faulted, RuntimeError, illegal_transition,
}

unfoldable pub RuntimeState-discrete : Discrete RuntimeState
RuntimeState-discrete = hlevel

unfoldable pub runtime_state_transitions : RuntimeState → List RuntimeState
runtime_state_transitions stopped = booting ∷ []
runtime_state_transitions booting = initializing ∷ faulted ∷ []
runtime_state_transitions initializing = validating ∷ faulted ∷ []
runtime_state_transitions validating = ready ∷ faulted ∷ []
runtime_state_transitions ready = operational ∷ faulted ∷ []
runtime_state_transitions operational =
    paused ∷ maintenance ∷ restarting ∷ shutting_down ∷ faulted ∷ []
runtime_state_transitions paused = operational ∷ shutting_down ∷ faulted ∷ []
runtime_state_transitions maintenance = operational ∷ shutting_down ∷ faulted ∷ []
runtime_state_transitions restarting = booting ∷ faulted ∷ []
runtime_state_transitions shutting_down = stopped ∷ []
runtime_state_transitions recovering = booting ∷ operational ∷ faulted ∷ []
runtime_state_transitions faulted = recovering ∷ shutting_down ∷ []

unfoldable pub may_move : RuntimeState → RuntimeState → Bool
unfolding runtime_state_transitions RuntimeState-discrete
may_move from to =
    if decided (RuntimeState-discrete from to)
    then true
    else any (λ s. decided (RuntimeState-discrete s to)) (runtime_state_transitions from)

unfoldable pub assert_runtime_transition :
    RuntimeState → RuntimeState → Result RuntimeError (Unit {0})
assert_runtime_transition from to =
    if may_move from to then ok tt else err (illegal_transition from to)
