-- ===== src/EventBus/Subscriptions/Failures.antt =====
-- Dead-subscriber detection: what deliveries do to a subscription.
use imip.Base.{
  ℕ, zero, suc, ◌≡◌, ◌≢◌, false, String, Option, some, arith, leb, ◌==◌, ◌∙◌, ap, inl, inr,
  Option-cases,
}
use imip.Base.Dict
use imip.Base.Dict.{Dict, get, put}
use imip.EventBus.Types.{Subscription}
use imip.EventBus.Subscriptions.{
  SubscriptionRegistry, record_success, record_failure, failed_once, dead_subscriber_threshold,
}

module _ {P : Type 0} where
  abbrev lookup_of : String → SubscriptionRegistry P → Option (Subscription P)
  lookup_of id r = get id r.subscriptions

  -- A delivery to one subscription changes no other.
  pub record_failure-other :
      (id other : String) (r : SubscriptionRegistry P)
      → id ≢ other
      → get other (record_failure id r).0.subscriptions ≡ get other r.subscriptions
  unfolding record_failure
  record_failure-other id other r h = elim (Option-cases (get id r.subscriptions)) [
    | inl e ↦ rw (e, record_failure)
    | inr (s, e) ↦
        rw (e, record_failure)
          (ground (arith, Dict.get-put id other (failed_once s) r.subscriptions))
  ]

  unfoldable pub fail_times : ℕ → String → SubscriptionRegistry P → SubscriptionRegistry P
  fail_times zero id r = r
  fail_times (suc n) id r = (record_failure id (fail_times n id r)).0

  failed_state : (s : Subscription P) → ℕ → Subscription P
  failed_state s n = record s { consecutive_failures = n; dead = leb dead_subscriber_threshold n }

  failed_once-state :
      (s : Subscription P) (n : ℕ) → failed_once (failed_state s n) ≡ failed_state s (suc n)
  unfolding failed_state
  failed_once-state s n = ground arith

  get-record_failure :
      (id : String) (r : SubscriptionRegistry P) (s : Subscription P)
      → get id r.subscriptions ≡ some s
      → get id (record_failure id r).0.subscriptions ≡ some (failed_once s)
  unfolding record_failure
  get-record_failure id r s e =
      rw (e, record_failure) (Dict.get-put_self id (failed_once s) r.subscriptions)

  -- A live subscription with no failure behind it is dead after `n` failures in a row exactly if
  -- `n` is 3 or more, and its count of failures is `n`.
  pub get-fail_times :
      (n : ℕ) (id : String) (r : SubscriptionRegistry P) (s : Subscription P)
      → get id r.subscriptions ≡ some s
      → s.dead ≡ false
      → s.consecutive_failures ≡ 0
      → get id (fail_times n id r).subscriptions
        ≡ some (record s { consecutive_failures = n; dead = leb 3 n })
  unfolding fail_times failed_state
  get-fail_times zero id r s e d c = ground arith
  get-fail_times (suc n) id r s e d c =
      get-record_failure id (fail_times n id r) (failed_state s n) (get-fail_times n id r s e d c)
      ∙ ap some (failed_once-state s n)

  -- For a live subscription with no failure behind it, `recordFailure` answers, after `n` failures
  -- in a row, that the next one crosses the threshold exactly if `n` is 2: the answer is `true` for
  -- the third failure and for no other.
  pub record_failure-crosses :
      (n : ℕ) (id : String) (r : SubscriptionRegistry P) (s : Subscription P)
      → get id r.subscriptions ≡ some s
      → s.dead ≡ false
      → s.consecutive_failures ≡ 0
      → (record_failure id (fail_times n id r)).1 ≡ (n == 2)
  unfolding record_failure
  record_failure-crosses n id r s e d c =
      rw (get-fail_times n id r s e d c, record_failure) (ground arith)

  -- A success forgets the failures, but a dead subscription stays dead.
  pub record_success_lem :
      (id : String) (r : SubscriptionRegistry P) (s : Subscription P)
      → get id r.subscriptions ≡ some s
      → get id (record_success id r).subscriptions ≡ some (record s { consecutive_failures = 0 })
  unfolding record_success
  record_success_lem id r s e =
      rw (e, record_success)
        (Dict.get-put_self id (record s { consecutive_failures = 0 }) r.subscriptions)
