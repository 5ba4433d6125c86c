-- ===== src/EventBus/Subscriptions/Matching.antt =====
-- `matchesFor` of core/event_bus/src/subscriptions.ts and the order of registration.
use imip.Base.{
  ℕ, ◌+◌, ◌<◌, ◌≤◌, ◌≡◌, refl, Bool, String, List, [], ◌∷◌, ◌++◌, Option, none, some, arith, filter,
  All, Bool-cases, inl, inr, Option-cases, All-append, All-map,
}
use imip.Base.Dict
use imip.Base.Dict.{Dict, get, put, delete, values}
use imip.EventBus.Types.{Subscription, SelectorKind, EventEnvelope}
use imip.EventBus.Subscriptions.{
  SubscriptionRegistry, record_success, record_failure, failed_once, add, remove,
  insert_by_sequence, sort_by_sequence, matches_for, selects_event, selects_category,
}

module _ {P : Type 0} where
  -- The sequence numbers do not fall along the list, and start at `lo` or later.
  abbrev pub Ascending : ℕ → List (Subscription P) → Type 0
  Ascending lo [] = Unit
  Ascending lo (s ∷ ss) = (lo ≤ s.sequence) × Ascending s.sequence ss

  pub record RegistryInv (r : SubscriptionRegistry P) : Type 0 where
    pub ascending : Ascending 0 (values r.subscriptions)
    pub below : All (λ s. s.sequence ≤ r.sequence_counter) (values r.subscriptions)

  Ascending-mono :
      (lo hi : ℕ) (ss : List (Subscription P)) → lo ≤ hi → Ascending hi ss → Ascending lo ss
  Ascending-mono lo hi [] h a = tt
  Ascending-mono lo hi (s ∷ ss) h a = (omega arith, a.1)

  Ascending-filter :
      (p : Subscription P → Bool) (lo : ℕ) (ss : List (Subscription P))
      → Ascending lo ss
      → Ascending lo (filter p ss)
  Ascending-filter p lo [] a = tt
  Ascending-filter p lo (s ∷ ss) a = elim (Bool-cases (p s)) [
    | inl e ↦ rw e (a.0, Ascending-filter p s.sequence ss a.1)
    | inr e ↦
        rw e (Ascending-mono lo s.sequence (filter p ss) a.0 (Ascending-filter p s.sequence ss a.1))
  ]

  insert-first :
      (s : Subscription P) (ss : List (Subscription P))
      → Ascending s.sequence ss
      → insert_by_sequence s ss ≡ s ∷ ss
  unfolding insert_by_sequence
  insert-first s [] a = refl
  insert-first s (t ∷ ts) a = ground arith

  sort-Ascending :
      (lo : ℕ) (ss : List (Subscription P)) → Ascending lo ss → sort_by_sequence ss ≡ ss
  unfolding sort_by_sequence
  sort-Ascending lo [] a = refl
  sort-Ascending lo (s ∷ ss) a = rw (sort-Ascending s.sequence ss a.1) (insert-first s ss a.1)

  -- If the subscriptions stand in the order of their sequence numbers, the matches of an event are
  -- the live subscriptions to the event, all of them and in the order of registration, and then
  -- those to its category, likewise.
  pub matches_for-registration_order :
      (event_name category : String) (r : SubscriptionRegistry P)
      → RegistryInv r
      → matches_for event_name category r
        ≡ filter (selects_event event_name) (values r.subscriptions)
          ++ filter (selects_category category) (values r.subscriptions)
  unfolding matches_for
  matches_for-registration_order event_name category r v =
      let subs = values r.subscriptions in
      rw (
        sort-Ascending 0 (filter (selects_event event_name) subs)
            (Ascending-filter (selects_event event_name) 0 subs v.ascending),
        sort-Ascending 0 (filter (selects_category category) subs)
            (Ascending-filter (selects_category category) 0 subs v.ascending),
      )

  put-Ascending :
      (id : String) (s t : Subscription P) (lo : ℕ) (m : Dict (Subscription P))
      → get id m ≡ some s
      → t.sequence ≡ s.sequence
      → Ascending lo (values m)
      → Ascending lo (values (put id t m))
  unfolding put get
  put-Ascending id s t lo [] e q a = cc
  put-Ascending id s t lo ((j, u) ∷ m) e q a = ground (arith, put-Ascending id s t u.sequence m)

  delete-Ascending :
      (id : String) (lo : ℕ) (m : Dict (Subscription P))
      → Ascending lo (values m)
      → Ascending lo (values (delete id m))
  unfolding delete
  delete-Ascending id lo [] a = tt
  delete-Ascending id lo ((j, u) ∷ m) a =
      ground (
        arith,
        delete-Ascending id u.sequence m,
        Ascending-mono lo u.sequence (values (delete id m)),
      )

  delete-below :
      (id : String) (n : ℕ) (m : Dict (Subscription P))
      → All (λ s. s.sequence ≤ n) (values m)
      → All (λ s. s.sequence ≤ n) (values (delete id m))
  unfolding delete
  delete-below id n [] a = tt
  delete-below id n ((j, u) ∷ m) a = ground (arith, delete-below id n m)

  update-RegistryInv :
      (id : String) (s t : Subscription P) (r : SubscriptionRegistry P)
      → get id r.subscriptions ≡ some s
      → t.sequence ≡ s.sequence
      → RegistryInv r
      → RegistryInv (record r { subscriptions = put id t r.subscriptions })
  update-RegistryInv id s t r e q v = record {
    ascending = put-Ascending id s t 0 r.subscriptions e q v.ascending;
    below =
        Dict.All-values-put (λ u. u.sequence ≤ r.sequence_counter) id t r.subscriptions
          (omega (
            arith,
            Dict.All-get (λ u. u.sequence ≤ r.sequence_counter) id r.subscriptions v.below e,
          ))
          v.below;
  }

  -- The numbers rise along the list, from `lo` on.
  abbrev pub Rising : ℕ → List (Subscription P) → Type 0
  Rising lo [] = Unit
  Rising lo (s ∷ ss) = (lo < s.sequence) × Rising s.sequence ss

  pub record IsNumbered (r : SubscriptionRegistry P) : Type 0 where
    pub rising : Rising 0 (values r.subscriptions)
    pub below : All (λ s. s.sequence ≤ r.sequence_counter) (values r.subscriptions)

  Rising-push :
      (lo hi : ℕ) (ss : List (Subscription P)) (s : Subscription P)
      → Rising lo ss
      → All (λ t. t.sequence ≤ hi) ss
      → lo < s.sequence
      → hi < s.sequence
      → Rising lo (ss ++ s ∷ [])
  Rising-push lo hi [] s a b l h = (l, tt)
  Rising-push lo hi (t ∷ ts) s a b l h =
      (a.0, Rising-push t.sequence hi ts s a.1 b.1 (omega arith) h)

  Rising-Ascending : (lo : ℕ) (ss : List (Subscription P)) → Rising lo ss → Ascending lo ss
  Rising-Ascending lo [] a = tt
  Rising-Ascending lo (s ∷ ss) a = (omega arith, Rising-Ascending s.sequence ss a.1)

  -- If the sequence numbers of the subscriptions rise, so that no two are the same, and none is above the
  -- counter, then so it is after one is added under an id that is new, and they stand in the order of
  -- registration.
  pub add-IsNumbered :
      (id : String) (now : ℕ) (selector : String) (kind : SelectorKind) (handler : ℕ)
      (authority : String) (test : Option (EventEnvelope P → Bool)) (r : SubscriptionRegistry P)
      → get id r.subscriptions ≡ none
      → IsNumbered r
      → let more = (add id now selector kind handler authority test r).0 in
        IsNumbered more × RegistryInv more
  unfolding add
  add-IsNumbered id now selector kind handler authority test r e v =
      let s = (add id now selector kind handler authority test r).1 in
      let n = r.sequence_counter in
      let up : Rising 0 (values (put id s r.subscriptions)) =
        rw (Dict.values-put_new id s r.subscriptions e) (
          Rising-push 0 n (values r.subscriptions) s v.rising v.below (omega arith)
            (omega arith)) in
      let low : All (λ t. t.sequence ≤ n + 1) (values (put id s r.subscriptions)) =
        rw (Dict.values-put_new id s r.subscriptions e) (
          All-append _ (values r.subscriptions) (s ∷ [])
            (All-map (λ t h. omega arith) (values r.subscriptions) v.below) (omega arith)) in
      (
        record { rising = up; below = low },
        record { ascending = Rising-Ascending 0 _ up; below = low },
      )

  pub remove-RegistryInv :
      (id : String) (r : SubscriptionRegistry P) → RegistryInv r → RegistryInv (remove id r).0
  unfolding remove
  remove-RegistryInv id r v = record {
    ascending = delete-Ascending id 0 r.subscriptions v.ascending;
    below = delete-below id r.sequence_counter r.subscriptions v.below;
  }

  pub record_failure-RegistryInv :
      (id : String) (r : SubscriptionRegistry P)
      → RegistryInv r
      → RegistryInv (record_failure id r).0
  unfolding record_failure
  record_failure-RegistryInv id r v = elim (Option-cases (get id r.subscriptions)) [
    | inl e ↦ rw (e, record_failure) v
    | inr (s, e) ↦ rw (e, record_failure) (update-RegistryInv id s (failed_once s) r e refl v)
  ]

  pub record_success-RegistryInv :
      (id : String) (r : SubscriptionRegistry P) → RegistryInv r → RegistryInv (record_success id r)
  unfolding record_success
  record_success-RegistryInv id r v = elim (Option-cases (get id r.subscriptions)) [
    | inl e ↦ rw (e, record_success) v
    | inr (s, e) ↦
        rw (e, record_success)
          (update-RegistryInv id s (record s { consecutive_failures = 0 }) r e refl v)
  ]
