-- ===== src/Repository/Users.antt =====
-- src/repositories/user-repository.ts on the table `users`, with fromDBUser of
-- src/utils/transform.ts. Columns that an update leaves undefined are left out by the database's
-- client, and an insertion then gives them their defaults.
use nostream.Prelude.{
  ℕ, ◌≡◌, refl, inl, inr, Bool, false, Option, none, some, List, if◌then◌else◌, get_or_default,
  Bool-cases,
}
use nostream.Prelude.Int.{ℤ, pos}
use nostream.Prelude.Text.{Text, ◌===◌}
use nostream.Bytes.{to_buffer, from_buffer}
use nostream.Repository.{User}
use nostream.Repository.Keyed.{find_row, put_row, written, find_row-put_row}

-- `DBUser`: the columns of a row that are read or written.
pub record DbUser : Type 0 where
  pub pubkey : List ℕ
  pub is_admitted : Bool
  pub balance : ℤ
  pub tos_accepted_at : Option ℕ
  pub created_at : ℕ
  pub updated_at : ℕ

-- What `upsert` is given of a user.
pub record UserUpdate : Type 0 where
  pub pubkey : Text
  pub is_admitted : Option Bool
  pub tos_accepted_at : Option ℕ

unfoldable pub from_db_user : DbUser → User
from_db_user row = record {
  pubkey = from_buffer row.pubkey;
  is_admitted = row.is_admitted;
  balance = row.balance;
}

abbrev user_of : Option DbUser → Option User
user_of none = none
user_of (some row) = some (from_db_user row)

unfoldable pub find_by_pubkey : Text → List DbUser → Option User
find_by_pubkey pubkey users = user_of (find_row (λ row. row.pubkey) (to_buffer pubkey) users)

abbrev balance_of : Option DbUser → ℤ
balance_of none = pos 0
balance_of (some row) = row.balance

unfoldable pub get_balance_by_pubkey : Text → List DbUser → ℤ
get_balance_by_pubkey pubkey users =
    balance_of (find_row (λ row. row.pubkey) (to_buffer pubkey) users)

-- The row of an insertion; a user is not admitted and has no balance by default.
unfoldable pub inserted_user : ℕ → UserUpdate → DbUser
inserted_user now user = record {
  pubkey = to_buffer user.pubkey;
  is_admitted = get_or_default false user.is_admitted;
  balance = pos 0;
  tos_accepted_at = user.tos_accepted_at;
  created_at = now;
  updated_at = now;
}

abbrev kept_date : Option ℕ → Option ℕ → Option ℕ
kept_date old none = old
kept_date old (some date) = some date

-- `merge(omit(['pubkey', 'balance', 'created_at'])(row))`
unfoldable pub merged_user : ℕ → UserUpdate → DbUser → DbUser
merged_user now user row = record row {
  is_admitted = get_or_default row.is_admitted user.is_admitted;
  tos_accepted_at = kept_date row.tos_accepted_at user.tos_accepted_at;
  updated_at = now;
}

-- `insert … onConflict('pubkey')`
unfoldable pub upsert_user : ℕ → UserUpdate → List DbUser → List DbUser
upsert_user now user =
    put_row (λ row. row.pubkey) (to_buffer user.pubkey) (inserted_user now user)
      (merged_user now user)

-- The user that is found after an update, of the one that was found before.
abbrev pub updated_user : UserUpdate → Option User → User
updated_user user none = record {
  pubkey = from_buffer (to_buffer user.pubkey);
  is_admitted = get_or_default false user.is_admitted;
  balance = pos 0;
}
updated_user user (some old) = record old {
  is_admitted = get_or_default old.is_admitted user.is_admitted;
}

user_of-written :
    (now : ℕ) (user : UserUpdate) (o : Option DbUser)
    → user_of (some (written (λ row. row.pubkey) (inserted_user now user) (merged_user now user) o))
      ≡ some (updated_user user (user_of o))
unfolding inserted_user merged_user from_db_user
user_of-written now user none = refl
user_of-written now user (some row) = refl

-- After a user has been inserted or updated, the user that is found for a public key is the one that
-- was found before, unless the two keys have the same bytes; and then it is that user with the
-- admission that the update gives, if it gives any, and with the balance from before, or a new user
-- with no balance, who is not admitted unless the update says so.
pub find_by_pubkey-upsert_user :
    (now : ℕ) (user : UserUpdate) (pubkey : Text) (users : List DbUser)
    → find_by_pubkey pubkey (upsert_user now user users) ≡ (
        if to_buffer pubkey === to_buffer user.pubkey
        then some (updated_user user (find_by_pubkey user.pubkey users))
        else find_by_pubkey pubkey users)
unfolding find_by_pubkey upsert_user
find_by_pubkey-upsert_user now user pubkey users =
    let key = to_buffer user.pubkey in
    let found =
      find_row-put_row (λ row. row.pubkey) key (inserted_user now user) (merged_user now user)
        (to_buffer pubkey) users (unfold inserted_user in refl)
        (λ row. unfold merged_user in refl) in
    rw found (elim (Bool-cases (to_buffer pubkey === key)) [
      | inl y ↦ rw y (user_of-written now user (find_row (λ row. row.pubkey) key users))
      | inr n ↦ rw n refl
    ])
