-- ===== src/Resources/Ownership.antt =====
-- core/resource_authority/src/ownership.ts.
pub mod History
use imip.Base.{
  ℕ, Bool, true, false, not, String, List, [], ◌∷◌, ◌++◌, Option, none, some, ltb, Result, ok, err,
  or_throw, ◌>>=◌,
}
use imip.Base.Dict
use imip.Base.Dict.{Dict, get, put}
use imip.Resources.Types.{ResourceError, invalid_ownership}

-- A transfer is entered as a renewal without an expiration; `transferred` stands for the prefix that
-- the source puts before its reason.
pub record Renewal : Type 0 where
  pub renewed_at : ℕ
  pub new_expiration : Option ℕ
  pub transferred : Bool
  pub reason : String

pub record Release : Type 0 where
  pub released_at : ℕ
  pub reason : String
  pub released_by : String

pub record OwnershipRecord : Type 0 where
  pub resource_id : String
  pub owner : String
  pub acquired_at : ℕ
  pub lease_expiration : Option ℕ
  pub renewal_history : List Renewal
  pub release_history : List Release

abbrev pub Ownerships : Type 0
Ownerships = Dict OwnershipRecord

unfoldable pub require : String → Ownerships → Result ResourceError OwnershipRecord
require resource_id records = or_throw (get resource_id records) (invalid_ownership resource_id)

unfoldable pub establish : String → String → ℕ → Option ℕ → Ownerships → Ownerships
establish resource_id owner acquired_at lease_expiration records =
    put resource_id
      (record {
        resource_id = resource_id;
        owner = owner;
        acquired_at = acquired_at;
        lease_expiration = lease_expiration;
        renewal_history = [];
        release_history = [];
      })
      records

abbrev pub transferred_to : String → ℕ → String → OwnershipRecord → OwnershipRecord
transferred_to new_owner at reason existing = record existing {
  owner = new_owner;
  acquired_at = at;
  renewal_history =
      existing.renewal_history
      ++ record { renewed_at = at; new_expiration = none; transferred = true; reason = reason }
        ∷ [];
}

abbrev pub renewed_until : ℕ → Option ℕ → String → OwnershipRecord → OwnershipRecord
renewed_until at new_expiration reason existing = record existing {
  lease_expiration = new_expiration;
  renewal_history =
      existing.renewal_history
      ++ record {
        renewed_at = at;
        new_expiration = new_expiration;
        transferred = false;
        reason = reason;
      }
        ∷ [];
}

abbrev pub released_by : ℕ → String → String → OwnershipRecord → OwnershipRecord
released_by at reason who existing = record existing {
  release_history =
      existing.release_history
      ++ record { released_at = at; reason = reason; released_by = who } ∷ [];
}

unfoldable pub transfer :
    String → String → ℕ → String → Ownerships → Result ResourceError Ownerships
unfolding require
transfer resource_id new_owner transferred_at reason records = do
  existing ← require resource_id records
  ok (put resource_id (transferred_to new_owner transferred_at reason existing) records)

unfoldable pub renew_lease :
    String → ℕ → Option ℕ → String → Ownerships → Result ResourceError Ownerships
unfolding require
renew_lease resource_id renewed_at new_expiration reason records = do
  existing ← require resource_id records
  ok (put resource_id (renewed_until renewed_at new_expiration reason existing) records)

unfoldable pub release : String → ℕ → String → String → Ownerships → Result ResourceError Ownerships
unfolding require
release resource_id released_at reason who records = do
  existing ← require resource_id records
  ok (put resource_id (released_by released_at reason who existing) records)

abbrev pub has_ended : Option ℕ → ℕ → Bool
has_ended none now = false
has_ended (some expiration) now = not (ltb now expiration)

unfoldable pub is_lease_expired : String → ℕ → Ownerships → Bool
is_lease_expired resource_id now records = elim (get resource_id records) [
  | none ↦ false
  | some r ↦ has_ended r.lease_expiration now
]
