-- ===== src/Resources/Ownership/History.antt =====
-- What becomes of an ownership record.
use imip.Base.{
  ℕ, suc, ◌+◌, ◌≡◌, refl, ap, ◌∙◌, true, false, String, List, [], ◌∷◌, Option, none, some, length,
  ◌===◌, Result, ok, ◌>>=◌, arith, length-append,
}
use imip.Base.Dict
use imip.Base.Dict.{Dict, get, put}
use imip.Resources.Types.{ResourceError}
use imip.Resources.Ownership.{
  OwnershipRecord, Ownerships, require, transfer, renew_lease, release, transferred_to,
  renewed_until, released_by,
}

-- A change to one resource, as a value.
pub data Change : Type 0 where
  transferring : String → ℕ → String → Change
  renewing : ℕ → Option ℕ → String → Change
  releasing : ℕ → String → String → Change

unfoldable pub change : String → Change → Ownerships → Result ResourceError Ownerships
change id (transferring owner at reason) records = transfer id owner at reason records
change id (renewing at expiration reason) records = renew_lease id at expiration reason records
change id (releasing at reason who) records = release id at reason who records

unfoldable pub change_all : String → List Change → Ownerships → Result ResourceError Ownerships
change_all id [] records = ok records
change_all id (c ∷ cs) records = change id c records >>= λ more. change_all id cs more

-- The owner after the changes: the one of the last transfer.
abbrev pub last_owner : List Change → String → String
last_owner [] owner = owner
last_owner (transferring next at reason ∷ cs) owner = last_owner cs next
last_owner (renewing at expiration reason ∷ cs) owner = last_owner cs owner
last_owner (releasing at reason who ∷ cs) owner = last_owner cs owner

abbrev pub renewals : List Change → ℕ
renewals [] = 0
renewals (transferring next at reason ∷ cs) = suc (renewals cs)
renewals (renewing at expiration reason ∷ cs) = suc (renewals cs)
renewals (releasing at reason who ∷ cs) = renewals cs

abbrev pub releases : List Change → ℕ
releases [] = 0
releases (transferring next at reason ∷ cs) = releases cs
releases (renewing at expiration reason ∷ cs) = releases cs
releases (releasing at reason who ∷ cs) = suc (releases cs)

abbrev changed : Change → OwnershipRecord → OwnershipRecord
changed (transferring owner at reason) r = transferred_to owner at reason r
changed (renewing at expiration reason) r = renewed_until at expiration reason r
changed (releasing at reason who) r = released_by at reason who r

change-changed :
    (id : String) (c : Change) (records : Ownerships) (r : OwnershipRecord)
    → get id records ≡ some r
    → change id c records ≡ ok (put id (changed c r) records)
unfolding change transfer renew_lease release require
change-changed id (transferring owner at reason) records r e = rw (e, change) refl
change-changed id (renewing at expiration reason) records r e = rw (e, change) refl
change-changed id (releasing at reason who) records r e = rw (e, change) refl

pub record IsOutcome (id : String) (cs : List Change) (r : OwnershipRecord)
    (records more : Ownerships) : Type 0 where
  pub final : OwnershipRecord
  pub found : get id more ≡ some final
  pub owned : final.owner ≡ last_owner cs r.owner
  pub renewed : length final.renewal_history ≡ length r.renewal_history + renewals cs
  pub released : length final.release_history ≡ length r.release_history + releases cs
  pub others : (j : String) → (id === j) ≡ false → get j more ≡ get j records

-- Any changes to a resource that has an ownership record succeed; its owner is then that of the last
-- transfer, whatever was released; every transfer and renewal, and every release, has added one entry
-- to its history; and the records of all other resources are as they were.
pub change_all-IsOutcome :
    (id : String) (cs : List Change) (records : Ownerships) (r : OwnershipRecord)
    → get id records ≡ some r
    → (more : Ownerships) × (change_all id cs records ≡ ok more) × IsOutcome id cs r records more
unfolding change_all
change_all-IsOutcome id [] records r e = (
  records,
  refl,
  record {
    final = r;
    found = e;
    owned = refl;
    renewed = omega arith;
    released = omega arith;
    others = λ j d. refl;
  },
)
change_all-IsOutcome id (c ∷ cs) records r e =
    let (more, ran, o) =
      change_all-IsOutcome id cs (put id (changed c r) records) (changed c r)
        (Dict.get-put_self id (changed c r) records) in
    (
      more,
      ap (λ x. x >>= λ m. change_all id cs m) (change-changed id c records r e) ∙ ran,
      step c more o,
    )
  where
    step :
        (c : Change) (more : Ownerships)
        → IsOutcome id cs (changed c r) (put id (changed c r) records) more
        → IsOutcome id (c ∷ cs) r records more
    step (transferring owner at reason) more o = record {
      final = o.final;
      found = o.found;
      owned = o.owned;
      renewed = omega (
        arith,
        o.renewed,
        length-append r.renewal_history (
            record { renewed_at = at; new_expiration = none; transferred = true; reason = reason }
            ∷ []),
      );
      released = o.released;
      others = λ j d.
          o.others j d ∙ (Dict.get-put id j (transferred_to owner at reason r) records ∙ rw d refl);
    }
    step (renewing at expiration reason) more o = record {
      final = o.final;
      found = o.found;
      owned = o.owned;
      renewed = omega (
        arith,
        o.renewed,
        length-append r.renewal_history (
            record {
              renewed_at = at;
              new_expiration = expiration;
              transferred = false;
              reason = reason;
            }
            ∷ []),
      );
      released = o.released;
      others = λ j d.
          o.others j d
          ∙ (Dict.get-put id j (renewed_until at expiration reason r) records ∙ rw d refl);
    }
    step (releasing at reason who) more o = record {
      final = o.final;
      found = o.found;
      owned = o.owned;
      renewed = o.renewed;
      released = omega (
        arith,
        o.released,
        length-append r.release_history
            (record { released_at = at; reason = reason; released_by = who } ∷ []),
      );
      others = λ j d.
          o.others j d ∙ (Dict.get-put id j (released_by at reason who r) records ∙ rw d refl);
    }
