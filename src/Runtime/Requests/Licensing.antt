-- ===== src/Runtime/Requests/Licensing.antt =====
-- The states in which the platform needs a certificate, and the rules by which actions keep one.
use imip.Base.{
  ◌≡◌, refl, sym, ap, ◌∙◌, Bool, true, false, Option, none, some, ok, err, Bool-cases, inl, inr,
}
use imip.Base.Dict.{Dict}
use imip.Runtime.Types.{
  ComponentDefinition, CertificationResult, Thrown, RuntimeState, stopped, booting, ready,
  operational, paused, maintenance, restarting, shutting_down, recovering, faulted,
}
use imip.Runtime.Lifecycle.{may_move, assert_runtime_transition}
use imip.Runtime.Orchestrator.{
  Orchestrator, Outcome, Action, continue, lift, transition, assert_transition,
}
use imip.Runtime.Orchestrator.Ends.{Ends, Leads, At}

-- The states of a platform that is up.
abbrev pub is_live : RuntimeState → Bool
is_live operational = true
is_live paused = true
is_live maintenance = true
is_live _ = false

-- The states that no operation ends in.
abbrev pub is_passing : RuntimeState → Bool
is_passing ready = true
is_passing recovering = true
is_passing _ = false

abbrev pub IsGranted : Option CertificationResult → Type 0
IsGranted none = ⊥
IsGranted (some c) = c.certified ≡ true

pub record IsLicence (s : RuntimeState) (c : Option CertificationResult) : Type 0 where
  pub granted : is_live s ≡ true → IsGranted c
  pub resting : is_passing s ≡ false

pub to_paused : (s : RuntimeState) → may_move s paused ≡ true → is_live s ≡ true
unfolding may_move
to_paused operational m = refl
to_paused paused m = refl
to_paused _ m = cc

pub stopping : may_move shutting_down stopped ≡ true
unfolding may_move
stopping = refl

pub rebooting : may_move restarting booting ≡ true
unfolding may_move
rebooting = refl

pub recovered : may_move recovering operational ≡ true
unfolding may_move
recovered = refl

pub failed_again : may_move recovering faulted ≡ true
unfolding may_move
failed_again = refl

pub to_maintenance : (s : RuntimeState) → may_move s maintenance ≡ true → is_live s ≡ true
unfolding may_move
to_maintenance operational m = refl
to_maintenance maintenance m = refl
to_maintenance _ m = cc

pub to_operational :
    (s : RuntimeState) → may_move s operational ≡ true → is_passing s ≡ false → is_live s ≡ true
unfolding may_move
to_operational operational m r = refl
to_operational paused m r = refl
to_operational maintenance m r = refl
to_operational ready m r = cc
to_operational recovering m r = cc
to_operational _ m r = cc

pub unlicensed :
    {s : RuntimeState} {c : Option CertificationResult}
    → is_live s ≡ false
    → is_passing s ≡ false
    → IsLicence s c
unlicensed l p = record { granted = λ t. absurd (false-not_true (sym l ∙ t)); resting = p }
  where
    false-not_true : false ≡ true → ⊥
    false-not_true h = cc

module _ {W I : Type 0} where
  -- The licence of an orchestrator.
  abbrev pub IsLicensed : Orchestrator W I → Type 0
  IsLicensed o = IsLicence o.state o.last_certification

  pub At-IsLicensed :
      {graph : Dict (ComponentDefinition W I)} {s : RuntimeState} {c : Option CertificationResult}
      {o : Orchestrator W I}
      → IsLicence s c
      → At graph s c o
      → IsLicensed o
  At-IsLicensed l at = rw (at.state_eq, at.certificate_eq) l

  abbrev pub Keeping :
      {A : Type 0}
      → Dict (ComponentDefinition W I)
      → RuntimeState
      → Option CertificationResult
      → Action W I A
      → Type 0
  Keeping graph s c m = Leads (At graph s c) m (λ _. IsLicensed) (λ _. IsLicensed)

  module _ {graph : Dict (ComponentDefinition W I)} {s : RuntimeState}
      {c : Option CertificationResult} where
    pub transition-step :
        (t : RuntimeState)
        → IsLicence s c
        → Leads
            (At graph s c)
            (transition t)
            (λ _ o. (may_move s t ≡ true) × At graph t c o)
            (λ _. IsLicensed)
    unfolding transition assert_transition continue lift assert_runtime_transition
    transition-step t l = record {
      ends = λ o at. elim (Bool-cases (may_move o.state t)) [
        | inl e ↦ rw e (
          sym (ap (λ x. may_move x t) at.state_eq) ∙ e,
          record { graph_eq = at.graph_eq; state_eq = refl; certificate_eq = at.certificate_eq },
        )
        | inr e ↦ rw e (At-IsLicensed l at)
      ];
    }

    pub assert-step :
        (t : RuntimeState)
        → IsLicence s c
        → Leads (At graph s c) (assert_transition t) (λ _. At graph s c) (λ _. IsLicensed)
    unfolding assert_transition lift assert_runtime_transition
    assert-step t l = record {
      ends = λ o at. elim (Bool-cases (may_move o.state t)) [
        | inl e ↦ rw e at
        | inr e ↦ rw e (At-IsLicensed l at)
      ];
    }

  pub given :
      {A X : Type 0} {P : Orchestrator W I → Type 0} {m : Action W I A}
      {Q : A → Orchestrator W I → Type 0} {E : Thrown → Orchestrator W I → Type 0}
      → (X → Leads P m Q E)
      → Leads (λ o. X × P o) m Q E
  given k = record { ends = λ o h. (k h.0).ends o h.1 }

  pub weaken :
      {A : Type 0} {P : Orchestrator W I → Type 0} {m : Action W I A}
      {Q R : A → Orchestrator W I → Type 0} {E F : Thrown → Orchestrator W I → Type 0}
      → ((a : A) (o : Orchestrator W I) → Q a o → R a o)
      → ((e : Thrown) (o : Orchestrator W I) → E e o → F e o)
      → Leads P m Q E
      → Leads P m R F
  weaken {A = A} {m = m} {Q = Q} {R = R} {E = E} {F = F} f g h = record {
    ends = λ o p. go (m o) (h.ends o p);
  }
    where
      go : (r : Outcome W I A) → Ends Q E r → Ends R F r
      go (o, ok a) q = f a o q
      go (o, err e) q = g e o q

  -- The last step: an action that changes neither the state nor the certificate.
  pub stays :
      {A : Type 0} {m : Action W I A} {graph : Dict (ComponentDefinition W I)} {s : RuntimeState}
      {c : Option CertificationResult}
      → IsLicence s c
      → Leads (At graph s c) m (λ _. At graph s c) (λ _. IsLicensed)
      → Keeping graph s c m
  stays l h = weaken (λ a o at. At-IsLicensed l at) (λ e o k. k) h

  -- An action that changes neither the graph, nor the state, nor the certificate.
  pub leaf :
      {A : Type 0} {graph : Dict (ComponentDefinition W I)} {s : RuntimeState}
      {c : Option CertificationResult} {m : Action W I A} {E : Thrown → Orchestrator W I → Type 0}
      → ((o : Orchestrator W I) → At graph s c o → Ends (λ _. At graph s c) E (m o))
      → Leads (At graph s c) m (λ _. At graph s c) E
  leaf h = record { ends = h }
