-- ===== src/Runtime/Orchestrator/Ends.antt =====
-- How to reason about the actions of an orchestrator: what holds when one returns, and when it throws.
use imip.Base.{if◌then◌else◌, ◌≡◌, refl, Bool, true, false, Option, ok, err}
use imip.Base.Dict.{Dict}
use imip.Runtime.Types.{
  ComponentDefinition, CertificationResult, RuntimeState, RuntimeEventName, Thrown,
}
use imip.Runtime.Lifecycle.{may_move, assert_runtime_transition}
use imip.Runtime.Orchestrator.{
  Orchestrator, Outcome, Action, continue, lift, assert_transition, transition,
  publish_runtime_event,
}

module _ {W I : Type 0} where
  -- `Q` holds of what the action returns, or `E` of what it throws.
  abbrev pub Ends :
      {A : Type 0}
      → (A → Orchestrator W I → Type 0)
      → (Thrown → Orchestrator W I → Type 0)
      → Outcome W I A
      → Type 0
  Ends Q E (o, ok a) = Q a o
  Ends Q E (o, err e) = E e o

  -- The action, begun where `P` holds, ends in `Q` if it returns, and in `E` if it throws.
  pub record Leads {A : Type 0} (P : Orchestrator W I → Type 0) (m : Action W I A)
      (Q : A → Orchestrator W I → Type 0) (E : Thrown → Orchestrator W I → Type 0) : Type 0 where
    pub ends : (o : Orchestrator W I) → P o → Ends Q E (m o)

  pub continue-Leads :
      {A B : Type 0} {P : Orchestrator W I → Type 0} {Q : A → Orchestrator W I → Type 0}
      {R : B → Orchestrator W I → Type 0} {E : Thrown → Orchestrator W I → Type 0}
      {m : Action W I A} {f : A → Action W I B}
      → Leads P m Q E
      → ((a : A) → Leads (Q a) (f a) R E)
      → Leads P (λ o. continue f (m o)) R E
  unfolding continue
  continue-Leads {A = A} {Q = Q} {R = R} {E = E} {m = m} {f = f} p q = record {
    ends = λ o h. go (m o) (p.ends o h);
  }
    where
      go : (r : Outcome W I A) → Ends Q E r → Ends R E (continue f r)
      go (o, ok a) h = (q a).ends o h
      go (o, err e) h = h

  pub if-Leads :
      {A : Type 0} {P : Orchestrator W I → Type 0} {Q : A → Orchestrator W I → Type 0}
      {E : Thrown → Orchestrator W I → Type 0} (b : Bool) {m k : Action W I A}
      → (b ≡ true → Leads P m Q E)
      → (b ≡ false → Leads P k Q E)
      → Leads P (if b then m else k) Q E
  if-Leads true p q = p refl
  if-Leads false p q = q refl

  -- An orchestrator with this graph, state and last certificate.
  pub record At (graph : Dict (ComponentDefinition W I)) (s : RuntimeState)
      (c : Option CertificationResult) (o : Orchestrator W I) : Type 0 where
    pub graph_eq : o.graph ≡ graph
    pub state_eq : o.state ≡ s
    pub certificate_eq : o.last_certification ≡ c

  module _ {E : Thrown → Orchestrator W I → Type 0} {graph : Dict (ComponentDefinition W I)}
      {s : RuntimeState} {c : Option CertificationResult} where
    pub transition-Leads :
        (t : RuntimeState)
        → may_move s t ≡ true
        → Leads (At graph s c) (transition t) (λ _. At graph t c) E
    unfolding transition assert_transition continue lift assert_runtime_transition
    transition-Leads t m = record {
      ends = λ o at.
          rw (at.state_eq, m)
            (record {
              graph_eq = at.graph_eq;
              state_eq = refl;
              certificate_eq = at.certificate_eq;
            });
    }

    pub publish-Leads :
        (name : RuntimeEventName)
        → Leads (At graph s c) (publish_runtime_event name) (λ _. At graph s c) E
    unfolding publish_runtime_event
    publish-Leads name = record {
      ends = λ o at. record {
        graph_eq = at.graph_eq;
        state_eq = at.state_eq;
        certificate_eq = at.certificate_eq;
      };
    }
