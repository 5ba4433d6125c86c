-- ===== src/Base/Actions.antt =====
-- The methods of an object that change it and may throw: an action takes the object as it is, and gives
-- it as it is afterwards with what the method returns or throws. What was written before a throw stays
-- written.
use mathlib.Core.Path.{◌≡◌, refl}
use mathlib.Core.Bool.{Bool, true, false}
use mathlib.Core.List.{List, [], ◌∷◌}
use imip.Base.Bools.{if◌then◌else◌}
use imip.Base.Lists.{All}
use imip.Base.Throws.{Result, ok, err}

abbrev pub Outcome : Type 0 → Type 0 → Type 0 → Type 0
Outcome S E A = S × Result E A

abbrev pub Action : Type 0 → Type 0 → Type 0 → Type 0
Action S E A = S → Outcome S E A

module _ {S E : Type 0} where
  module _ {A B : Type 0} where
    unfoldable pub continue : (A → Action S E B) → Outcome S E A → Outcome S E B
    continue f (s, ok a) = f a s
    continue f (s, err e) = (s, err e)

    infixl 5 ◌>>=◌
    abbrev pub ◌>>=◌ : Action S E A → (A → Action S E B) → Action S E B
    m >>= f = λ s. continue f (m s)

  infixl 5 ◌>>◌
  abbrev pub ◌>>◌ : {B : Type 0} → Action S E (Unit {0}) → Action S E B → Action S E B
  m >> k = m >>= λ _. k

  abbrev pub return : {A : Type 0} → A → Action S E A
  return a = λ s. (s, ok a)

  abbrev pub throw : {A : Type 0} → E → Action S E A
  throw e = λ s. (s, err e)

  abbrev pub change : (S → S) → Action S E (Unit {0})
  change f = λ s. (f s, ok tt)

  -- What is read of the object as it is.
  abbrev pub gets : {A : Type 0} → (S → A) → Action S E A
  gets f = λ s. (s, ok (f s))

  -- What a computation that changes nothing returns or throws.
  unfoldable pub lift : {A : Type 0} → Result E A → Action S E A
  lift r = λ s. (s, r)

  abbrev pub when : Bool → Action S E (Unit {0}) → Action S E (Unit {0})
  when test m = if test then m else return tt

  -- `for (const a of list) body`.
  unfoldable pub for_each :
      {A : Type 0} → List A → (A → Action S E (Unit {0})) → Action S E (Unit {0})
  for_each [] body = return tt
  for_each (a ∷ as') body = let rest = for_each as' body in body a >> rest

  -- Whatever the action returns or throws, what holds before holds after.
  pub record Keeps {A : Type 0} (P : S → Type 0) (m : Action S E A) : Type 0 where
    pub keeps : (s : S) → P s → P (m s).0

  pub continue-Keeps :
      {A B : Type 0} {P : S → Type 0} {m : Action S E A} {f : A → Action S E B}
      → Keeps P m
      → ((a : A) → Keeps P (f a))
      → Keeps P (λ s. continue f (m s))
  unfolding continue
  continue-Keeps {A} {P = P} {m = m} {f = f} p q = record { keeps = λ s h. go (m s) (p.keeps s h) }
    where
      go : (r : Outcome S E A) → P r.0 → P (continue f r).0
      go (s, ok a) h = (q a).keeps s h
      go (s, err e) h = h

  pub return-Keeps : {A : Type 0} {P : S → Type 0} (a : A) → Keeps {A = A} P (return a)
  return-Keeps a = record { keeps = λ s h. h }

  pub throw-Keeps : {A : Type 0} {P : S → Type 0} (e : E) → Keeps {A = A} P (throw e)
  throw-Keeps e = record { keeps = λ s h. h }

  pub lift-Keeps : {A : Type 0} {P : S → Type 0} (r : Result E A) → Keeps P (lift r)
  unfolding lift
  lift-Keeps r = record { keeps = λ s h. h }

  pub change-Keeps : {P : S → Type 0} (f : S → S) → ((s : S) → P s → P (f s)) → Keeps P (change f)
  change-Keeps f h = record { keeps = h }

  pub if-Keeps :
      {A : Type 0} {P : S → Type 0} {m k : Action S E A} (b : Bool)
      → (b ≡ true → Keeps P m)
      → (b ≡ false → Keeps P k)
      → Keeps P (if b then m else k)
  if-Keeps true p q = p refl
  if-Keeps false p q = q refl

  pub for_each-Keeps :
      {A : Type 0} {P : S → Type 0} (as' : List A) (body : A → Action S E (Unit {0}))
      → All (λ a. Keeps P (body a)) as'
      → Keeps P (for_each as' body)
  unfolding for_each
  for_each-Keeps [] body h = return-Keeps tt
  for_each-Keeps (a ∷ as') body h = continue-Keeps h.0 (λ _. for_each-Keeps as' body h.1)

  -- What holds when the action returns, and when it throws.
  abbrev pub Ends : {A : Type 0} → (A → S → Type 0) → (E → S → Type 0) → Outcome S E A → Type 0
  Ends Q F (s, ok a) = Q a s
  Ends Q F (s, err e) = F e s

  pub record Leads {A : Type 0} (P : S → Type 0) (m : Action S E A) (Q : A → S → Type 0)
      (F : E → S → Type 0) : Type 0 where
    pub ends : (s : S) → P s → Ends Q F (m s)

  pub given-Leads :
      {A C : Type 0} {P : S → Type 0} {Q : A → S → Type 0} {F : E → S → Type 0} {m : Action S E A}
      → (C → Leads P m Q F)
      → Leads (λ s. C × P s) m Q F
  given-Leads f = record { ends = λ s (c, p). (f c).ends s p }

  pub continue-Leads :
      {A B : Type 0} {P : S → Type 0} {Q : A → S → Type 0} {R : B → S → Type 0} {F : E → S → Type 0}
      {m : Action S E A} {f : A → Action S E B}
      → Leads P m Q F
      → ((a : A) → Leads (Q a) (f a) R F)
      → Leads P (λ s. continue f (m s)) R F
  unfolding continue
  continue-Leads {A} {Q = Q} {R = R} {F = F} {m = m} {f = f} p q = record {
    ends = λ s h. go (m s) (p.ends s h);
  }
    where
      go : (r : Outcome S E A) → Ends Q F r → Ends R F (continue f r)
      go (s, ok a) h = (q a).ends s h
      go (s, err e) h = h

  pub if-Leads :
      {A : Type 0} {P : S → Type 0} {Q : A → S → Type 0} {F : E → S → Type 0} {m k : Action S E A}
      (b : Bool)
      → (b ≡ true → Leads P m Q F)
      → (b ≡ false → Leads P k Q F)
      → Leads P (if b then m else k) Q F
  if-Leads true p q = p refl
  if-Leads false p q = q refl

  pub return-Leads :
      {A : Type 0} {P : S → Type 0} {Q : A → S → Type 0} {F : E → S → Type 0} (a : A)
      → ((s : S) → P s → Q a s)
      → Leads {A = A} P (return a) Q F
  return-Leads a h = record { ends = h }

  -- A weaker claim of an action.
  pub weaken-Leads :
      {A : Type 0} {P : S → Type 0} {Q R : A → S → Type 0} {F G : E → S → Type 0} {m : Action S E A}
      → Leads P m Q F
      → ((a : A) (s : S) → Q a s → R a s)
      → ((e : E) (s : S) → F e s → G e s)
      → Leads P m R G
  weaken-Leads {A} {Q = Q} {R = R} {F = F} {G = G} {m = m} p q f = record {
    ends = λ s h. go (m s) (p.ends s h);
  }
    where
      go : (r : Outcome S E A) → Ends Q F r → Ends R G r
      go (s, ok a) h = q a s h
      go (s, err e) h = f e s h
