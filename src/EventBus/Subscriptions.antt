-- ===== src/EventBus/Subscriptions.antt =====
-- core/event_bus/src/subscriptions.ts: the subscriptions, in the order in which they were added.
pub mod Failures
pub mod Matching
use imip.Base.{
  ℕ, suc, ◌+◌, Bool, true, false, not, ◌&&◌, String, List, [], ◌∷◌, ◌++◌, Option, none, some,
  filter, length, ◌===◌, leb, ltb, if◌then◌else◌,
}
use imip.Base.Dict
use imip.Base.Dict.{Dict, get, put, delete, has}
use imip.EventBus.Types.{EventEnvelope, Subscription, SelectorKind}

abbrev pub dead_subscriber_threshold : ℕ
dead_subscriber_threshold = 3

pub record SubscriptionRegistry (P : Type 0) : Type 0 where
  pub subscriptions : Dict (Subscription P)
  pub sequence_counter : ℕ

abbrev pub is_event : SelectorKind → Bool
is_event SelectorKind.event = true
is_event SelectorKind.category = false

module _ {P : Type 0} where
  unfoldable pub new_registry : SubscriptionRegistry P
  new_registry = record { subscriptions = []; sequence_counter = 0 }

  -- `subscription_id` is what `randomUUID()` gave, and `now` the clock.
  unfoldable pub add :
      String
      → ℕ
      → String
      → SelectorKind
      → ℕ
      → String
      → Option (EventEnvelope P → Bool)
      → SubscriptionRegistry P
      → SubscriptionRegistry P × Subscription P
  add subscription_id now selector kind handler authority test r = (
    record { subscriptions = put subscription_id s r.subscriptions; sequence_counter = sequence },
    s,
  )
    where
      sequence : ℕ
      sequence = r.sequence_counter + 1

      s : Subscription P
      s = record {
        subscription_id = subscription_id;
        selector = selector;
        selector_kind = kind;
        subscriber_authority = authority;
        handler = handler;
        filter = test;
        consecutive_failures = 0;
        dead = false;
        registered_at = now;
        sequence = sequence;
      }

  unfoldable pub remove : String → SubscriptionRegistry P → SubscriptionRegistry P × Bool
  remove id r = (record r { subscriptions = delete id r.subscriptions }, has id r.subscriptions)

  -- `.sort((a, b) => a.sequence - b.sequence)`, which is stable.
  unfoldable pub insert_by_sequence : Subscription P → List (Subscription P) → List (Subscription P)
  insert_by_sequence s [] = s ∷ []
  insert_by_sequence s (t ∷ ts) =
      let rest = insert_by_sequence s ts in
      if leb s.sequence t.sequence then s ∷ t ∷ ts else t ∷ rest

  unfoldable pub sort_by_sequence : List (Subscription P) → List (Subscription P)
  unfolding insert_by_sequence
  sort_by_sequence [] = []
  sort_by_sequence (s ∷ ss) = insert_by_sequence s (sort_by_sequence ss)

  abbrev pub selects_event : String → Subscription P → Bool
  selects_event name s = not s.dead && (is_event s.selector_kind && s.selector === name)

  abbrev pub selects_category : String → Subscription P → Bool
  selects_category category s =
      not s.dead && (not (is_event s.selector_kind) && s.selector === category)

  unfoldable pub matches_for : String → String → SubscriptionRegistry P → List (Subscription P)
  matches_for event_name category r =
      sort_by_sequence (filter (selects_event event_name) (Dict.values r.subscriptions))
      ++ sort_by_sequence (filter (selects_category category) (Dict.values r.subscriptions))

  unfoldable pub record_success : String → SubscriptionRegistry P → SubscriptionRegistry P
  record_success id r = elim (get id r.subscriptions) [
    | none ↦ r
    | some s ↦ record r {
      subscriptions = put id (record s { consecutive_failures = 0 }) r.subscriptions;
    }
  ]

  abbrev pub failed_once : Subscription P → Subscription P
  failed_once s = record s {
    consecutive_failures = s.consecutive_failures + 1;
    dead = if leb dead_subscriber_threshold (s.consecutive_failures + 1) then true else s.dead;
  }

  -- The answer says whether this failure crossed the threshold.
  unfoldable pub record_failure : String → SubscriptionRegistry P → SubscriptionRegistry P × Bool
  record_failure id r = elim (get id r.subscriptions) [
    | none ↦ (r, false)
    | some s ↦ (
      record r { subscriptions = put id (failed_once s) r.subscriptions },
      leb dead_subscriber_threshold (s.consecutive_failures + 1) && not s.dead,
    )
  ]

  unfoldable pub dead_count : SubscriptionRegistry P → ℕ
  dead_count r = length (filter (λ s. s.dead) (Dict.values r.subscriptions))
