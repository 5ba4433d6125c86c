-- ===== src/EventBus/Persistence/Ring.antt =====
-- The memory mode of core/event_bus/src/persistence.ts over a sequence of events.
use imip.Base.{
  ℕ, suc, ◌-◌, ◌≤◌, ◌≡◌, sym, ap, ◌∙◌, List, [], ◌∷◌, ◌++◌, arith, ltb, drop, length, if◌then◌else◌,
  length-append, Bool-cases, inl, inr,
}
use mathlib.Core.List.{append_assoc, append-nil}
use imip.EventBus.Types.{EventEnvelope, EventAuditRecord}
use imip.EventBus.Persistence.{MemoryEventPersistence, remember}

-- The last `n` entries.
abbrev pub latest {ℓ} : {A : Type ℓ} → ℕ → List A → List A
latest n xs = drop (length xs - n) xs

latest-short {ℓ} : {A : Type ℓ} (n : ℕ) (xs : List A) → length xs ≤ n → latest n xs ≡ xs
latest-short n xs h = let e : length xs - n ≡ 0 = omega arith in rw e

latest-shift {ℓ} :
    {A : Type ℓ} (n : ℕ) (x : A) (xs ys : List A)
    → length xs ≡ n
    → latest n ((x ∷ xs) ++ ys) ≡ latest n (xs ++ ys)
latest-shift n x xs ys h =
    let e : suc (length (xs ++ ys)) - n ≡ suc (length (xs ++ ys) - n) =
      omega (arith, length-append xs ys) in
    rw e

module _ {P : Type 0} where
  pub remember_all :
      List (EventEnvelope P × EventAuditRecord)
      → MemoryEventPersistence P
      → MemoryEventPersistence P
  remember_all [] m = m
  remember_all ((envelope, audit) ∷ rest) m = remember_all rest (remember envelope audit m)

  abbrev pub IsWithin : MemoryEventPersistence P → Type 0
  IsWithin m = length m.entries ≤ m.max_size

  pub remember-IsWithin :
      (envelope : EventEnvelope P) (audit : EventAuditRecord) (m : MemoryEventPersistence P)
      → IsWithin m
      → IsWithin (remember envelope audit m)
  unfolding remember
  remember-IsWithin envelope audit m h = by_cases m.entries h
    where
      by_cases :
          (es : List (EventEnvelope P × EventAuditRecord))
          → length es ≤ m.max_size
          → length (
              if ltb m.max_size (length (es ++ (envelope, audit) ∷ []))
              then drop 1 (es ++ (envelope, audit) ∷ [])
              else es ++ (envelope, audit) ∷ [])
            ≤ m.max_size
      by_cases [] k = ground arith
      by_cases (e ∷ es) k = ground (arith, length-append es ((envelope, audit) ∷ []))

  remember-latest :
      (es rest : List (EventEnvelope P × EventAuditRecord)) (e : EventEnvelope P × EventAuditRecord)
      (max_size : ℕ)
      → length es ≤ max_size
      → let pushed = es ++ e ∷ [] in
        let kept = if ltb max_size (length pushed) then drop 1 pushed else pushed in
        latest max_size (kept ++ rest) ≡ latest max_size (es ++ e ∷ rest)
  remember-latest [] rest e n h = elim (Bool-cases (ltb n 1)) [
    | inl full ↦ rw full (sym (latest-shift n e [] rest (ground arith)))
    | inr room ↦ rw room
  ]
  remember-latest (x ∷ es) rest e n h = elim (Bool-cases (ltb n (suc (length (es ++ e ∷ []))))) [
    | inl full ↦ rw full (
        sym (latest-shift n x (es ++ e ∷ []) rest (ground (arith, full, length-append es (e ∷ []))))
        ∙ ap (λ ys. latest n (x ∷ ys)) (append_assoc es (e ∷ []) rest))
    | inr room ↦ rw room (ap (λ ys. latest n (x ∷ ys)) (append_assoc es (e ∷ []) rest))
  ]

  -- From a history within its bound, and after any sequence of events, the entries are the latest
  -- `max_size` of all, in order.
  pub remember_all-latest :
      (es : List (EventEnvelope P × EventAuditRecord)) (m : MemoryEventPersistence P)
      → IsWithin m
      → (remember_all es m).entries ≡ latest m.max_size (m.entries ++ es)
  unfolding remember_all
  remember_all-latest [] m h = rw append-nil (sym (latest-short m.max_size m.entries h))
  remember_all-latest ((envelope, audit) ∷ es) m h =
      remember_all-latest es (remember envelope audit m) (remember-IsWithin envelope audit m h)
      ∙ unfold remember in remember-latest m.entries es (envelope, audit) m.max_size h
