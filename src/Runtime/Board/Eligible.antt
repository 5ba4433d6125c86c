-- ===== src/Runtime/Board/Eligible.antt =====
-- `whyUnavailable` of core/runtime_bootstrap/src/governanceBoard.ts and eligibility.
use imip.Base.{
  ◌≡◌, refl, sym, ◌∙◌, true, false, String, List, [], ◌∷◌, none, some, if◌then◌else◌, ◌===◌,
  Bool-cases, inl, inr, Option-cases,
}
use imip.Base.Dict
use imip.Base.Dict.{Dict, get, put, values}
use imip.Runtime.Types.{GovernanceRecord}
use imip.Runtime.Board.{
  Board, Reason, not_registered, reasons_of, record_of, update, why_unavailable, or_default,
  known_or_fresh,
}

pub record_of-update :
    (m n : String) (f : GovernanceRecord → GovernanceRecord) (board : Board)
    → record_of n (update m f board)
      ≡ (if m === n then f (record_of m board) else record_of n board)
unfolding record_of update
record_of-update m n f board = elim (Bool-cases (m === n)) [
  | inl e ↦ rw (Dict.get-put m n (f (known_or_fresh m (get m board))) board, e) refl
  | inr e ↦ rw (Dict.get-put m n (f (known_or_fresh m (get m board))) board, e) refl
]

or_default-long : (rs : List Reason) → or_default rs ≡ [] → ⊥
or_default-long [] h = cc
or_default-long (r ∷ rs) h = cc

Reason-cons : {r : Reason} {rs : List Reason} → r ∷ rs ≡ [] → ⊥
Reason-cons h = cc

-- The board gives no reason why a component is unavailable exactly if it has a record of it that is
-- operationally eligible.
pub why_unavailable_iff :
    (name : String) (board : Board)
    → (why_unavailable name board ≡ []
        → (r : GovernanceRecord) × (get name board ≡ some r) × (r.operational_eligible ≡ true))
      × ((r : GovernanceRecord)
          → get name board ≡ some r
          → r.operational_eligible ≡ true
          → why_unavailable name board ≡ [])
unfolding why_unavailable
why_unavailable_iff name board = (forward, λ r e h. rw (e, h, why_unavailable) refl)
  where
    unknown_reasons : get name board ≡ none → why_unavailable name board ≡ not_registered name ∷ []
    unknown_reasons e = rw (e, why_unavailable) refl

    known_reasons :
        (r : GovernanceRecord)
        → get name board ≡ some r
        → r.operational_eligible ≡ false
        → why_unavailable name board ≡ or_default (reasons_of r)
    known_reasons r e t = rw (e, t, why_unavailable) refl

    forward :
        why_unavailable name board ≡ []
        → (r : GovernanceRecord) × (get name board ≡ some r) × (r.operational_eligible ≡ true)
    forward h = elim (Option-cases (get name board)) [
      | inl e ↦ absurd (Reason-cons (sym (unknown_reasons e) ∙ h))
      | inr (r, e) ↦ elim (Bool-cases r.operational_eligible) [
        | inl t ↦ (r, e, t)
        | inr t ↦ absurd (or_default-long (reasons_of r) (sym (known_reasons r e t) ∙ h))
      ]
    ]
