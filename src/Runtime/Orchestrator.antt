-- ===== src/Runtime/Orchestrator.antt =====
-- core/runtime_bootstrap/src/RuntimeOrchestrator.ts: the state of the orchestrator, and the parts its
-- operations are made of. An operation is an action: it changes the orchestrator, and returns or
-- throws; what it did before it threw stays done. A published event is added to `events`; that the
-- bus takes it is assumed. How long things took is left out.
pub mod Ends
use imip.Base.{
  ℕ, ◌≡◌, refl, Bool, true, false, not, String, List, [], ◌∷◌, ◌++◌, Option, none, some, Result, ok,
  err, length, ltb, drop, if◌then◌else◌,
}
use imip.Base.Dict.{Dict, get, put}
use imip.Runtime.Types.{
  ComponentDefinition, CertificationResult, RuntimeOperationRecord, RuntimeState, RuntimeError,
  RuntimeEventName, Thrown, by_runtime, stopped,
}
use imip.Runtime.Board.{Board, ensure}
use imip.Runtime.Lifecycle.{assert_runtime_transition}
use imip.Runtime.Graph

pub record Orchestrator (W I : Type 0) : Type 0 where
  pub graph : Dict (ComponentDefinition W I)
  pub board : Board
  pub instances : Dict I
  pub operation_history : List RuntimeOperationRecord
  pub state : RuntimeState
  pub last_certification : Option CertificationResult
  pub recovery_count : ℕ
  pub booted_at : Option ℕ
  pub events : List RuntimeEventName
  pub world : W

abbrev pub Outcome : Type 0 → Type 0 → Type 0 → Type 0
Outcome W I A = Orchestrator W I × Result Thrown A

abbrev pub Action : Type 0 → Type 0 → Type 0 → Type 0
Action W I A = Orchestrator W I → Outcome W I A

abbrev pub operation_history_limit : ℕ
operation_history_limit = 200

abbrev pub pushed :
    RuntimeOperationRecord → List RuntimeOperationRecord → List RuntimeOperationRecord
pushed r history =
    let more = history ++ r ∷ [] in
    if ltb operation_history_limit (length more) then drop 1 more else more

module _ {W I : Type 0} where
  module _ {A B : Type 0} where
    unfoldable pub continue : (A → Action W I B) → Outcome W I A → Outcome W I B
    continue f (o, ok a) = f a o
    continue f (o, err e) = (o, err e)

    infixl 5 ◌>>=◌
    abbrev pub ◌>>=◌ : Action W I A → (A → Action W I B) → Action W I B
    m >>= f = λ o. continue f (m o)

  infixl 5 ◌>>◌
  abbrev pub ◌>>◌ : {B : Type 0} → Action W I (Unit {0}) → Action W I B → Action W I B
  m >> k = m >>= λ _. k

  abbrev pub return : {A : Type 0} → A → Action W I A
  return a = λ o. (o, ok a)

  abbrev pub throw : {A : Type 0} → Thrown → Action W I A
  throw e = λ o. (o, err e)

  -- What a method that changes nothing returns or throws.
  unfoldable pub lift : {A : Type 0} → Result RuntimeError A → Action W I A
  lift (ok a) = λ o. (o, ok a)
  lift (err e) = λ o. (o, err (by_runtime e))

  abbrev pub change : (Orchestrator W I → Orchestrator W I) → Action W I (Unit {0})
  change f = λ o. (f o, ok tt)

  abbrev pub current : Action W I (Orchestrator W I)
  current = λ o. (o, ok o)

  unfoldable pub assert_transition : RuntimeState → Action W I (Unit {0})
  assert_transition to = λ o. lift (assert_runtime_transition o.state to) o

  unfoldable pub transition : RuntimeState → Action W I (Unit {0})
  transition to = assert_transition to >> change (λ o. record o { state = to })

  unfoldable pub publish_runtime_event : RuntimeEventName → Action W I (Unit {0})
  publish_runtime_event name = change (λ o. record o { events = o.events ++ name ∷ [] })

  unfoldable pub record_operation : RuntimeOperationRecord → Action W I (Unit {0})
  record_operation r = change (λ o. record o { operation_history = pushed r o.operation_history })

  unfoldable pub register_component : ComponentDefinition W I → Action W I (Unit {0})
  register_component d = λ o.
      (lift (Graph.register d o.graph) >>= λ graph.
      change (λ o'. record o' { graph = graph; board = ensure d.name o'.board }))
        o

  -- Before the constructor has registered the component of the event bus.
  unfoldable pub empty_orchestrator : W → Orchestrator W I
  empty_orchestrator w = record {
    graph = [];
    board = [];
    instances = [];
    operation_history = [];
    state = stopped;
    last_certification = none;
    recovery_count = 0;
    booted_at = none;
    events = [];
    world = w;
  }

  unfoldable pub new_orchestrator : ComponentDefinition W I → W → Orchestrator W I
  new_orchestrator event_bus w = (register_component event_bus (empty_orchestrator w)).0
