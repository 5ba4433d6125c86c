-- ===== src/EventBus/Persistence.antt =====
-- core/event_bus/src/persistence.ts: the modes `none` and `memory`. The mode `file` is the same
-- history without a bound, behind reads and writes of a file.
pub mod Ring
use imip.Base.{
  ℕ, ◌+◌, ◌-◌, ◌≤◌, ◌≡◌, Bool, true, false, not, ◌&&◌, ◌||◌, String, List, [], ◌∷◌, ◌++◌, map,
  Option, none, some, filter, find, length, drop, ◌===◌, ltb, ◌==◌, if◌then◌else◌,
}
use imip.EventBus.Types.{EventEnvelope, EventAuditRecord, EventHistoryFilter}

-- A text field of a filter: absent, or `""`, it lets all pass, as a falsy value does.
abbrev pub passes : Option String → String → Bool
passes none value = true
passes (some wanted) value = wanted === "" || value === wanted

abbrev not_before : Option ℕ → ℕ → Bool
not_before none timestamp = true
not_before (some since) timestamp = not (ltb timestamp since)

-- `limit ? xs.slice(-limit) : xs`: a limit of 0 is no limit.
abbrev pub last_of {ℓ} : {A : Type ℓ} → Option ℕ → List A → List A
last_of none xs = xs
last_of (some limit) xs = if limit == 0 then xs else drop (length xs - limit) xs

abbrev pub limit_of : Option EventHistoryFilter → Option ℕ
limit_of none = none
limit_of (some f) = f.limit

module _ {P : Type 0} where
  unfoldable pub matches : EventEnvelope P → Option EventHistoryFilter → Bool
  matches envelope none = true
  matches envelope (some f) =
      passes f.event_type envelope.event_type
      && (passes f.publisher envelope.publisher
          && (passes f.correlation_id envelope.correlation_id
              && not_before f.since envelope.timestamp))

pub record MemoryEventPersistence (P : Type 0) : Type 0 where
  pub entries : List (EventEnvelope P × EventAuditRecord)
  pub max_size : ℕ

pub data EventPersistence (P : Type 0) : Type 0 where
  noop : EventPersistence P
  memory : MemoryEventPersistence P → EventPersistence P

module _ {P : Type 0} where
  unfoldable pub remember :
      EventEnvelope P → EventAuditRecord → MemoryEventPersistence P → MemoryEventPersistence P
  remember envelope audit m =
      let pushed = m.entries ++ (envelope, audit) ∷ [] in
      record m { entries = if ltb m.max_size (length pushed) then drop 1 pushed else pushed }

  unfoldable pub record_event :
      EventEnvelope P → EventAuditRecord → EventPersistence P → EventPersistence P
  unfolding remember
  record_event envelope audit noop = noop
  record_event envelope audit (memory m) = memory (remember envelope audit m)

  unfoldable pub history : Option EventHistoryFilter → EventPersistence P → List (EventEnvelope P)
  history f noop = []
  history f (memory m) =
      last_of (limit_of f) (filter (λ e. matches e f) (map (λ entry. entry.0) m.entries))

  unfoldable pub get_audit : String → EventPersistence P → Option EventAuditRecord
  get_audit event_id noop = none
  get_audit event_id (memory m) = elim (find (λ entry. entry.0.event_id === event_id) m.entries) [
    | none ↦ none
    | some entry ↦ some entry.1
  ]
