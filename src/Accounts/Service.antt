-- ===== src/Accounts/Service.antt =====
-- The writes of backend/src/modules/account/account.service.ts. `now` is the clock and `id` the uuid
-- that the database gives a new row. The database refuses a second account of a user with the same
-- name, `@@unique([userId, accountName])`, deleted accounts included.
use money_management_app.Prelude.{
  ℕ, Bool, true, false, ◌&&◌, not, Option, none, some, String, List, any, ◌==◌, if◌then◌else◌,
  or_else, or_option, str_eq, Result, ok, err, conflict, not_found, internal,
}
use money_management_app.Prelude.Int.{pos}
use money_management_app.Orm.Client.{Client}
use money_management_app.Orm.Query.{having, live, find_first, update, update_many}
use money_management_app.Orm.Owned.{write_found, or_not_found}
use money_management_app.Accounts.Schema.{Account, accounts, CreateAccountDto, UpdateAccountDto}

unfoldable pub new_account : (user_id : ℕ) → CreateAccountDto → (id now : ℕ) → Account
new_account user_id dto id now = record {
  id = id;
  user_id = user_id;
  account_type = dto.account_type;
  account_name = dto.account_name;
  masked_account_number = dto.masked_account_number;
  provider_name = dto.provider_name;
  ifsc_code = dto.ifsc_code;
  balance = or_else dto.balance (pos 0);
  currency = or_else dto.currency "INR";
  color = dto.color;
  icon = dto.icon;
  is_primary = or_else dto.is_primary false;
  is_active = true;
  deleted_at = none;
  created_at = now;
  updated_at = now;
}

-- `{ id, userId }`
abbrev pub is_owned : (user_id id : ℕ) → Account → Bool
is_owned user_id id a = (a.id == id) && (a.user_id == user_id)

-- `{ userId, isPrimary: true }`
abbrev pub is_primary_of : (user_id : ℕ) → Account → Bool
is_primary_of user_id a = (a.user_id == user_id) && a.is_primary

unfoldable pub set_is_primary : Bool → (now : ℕ) → Account → Account
set_is_primary b now a = record a { is_primary = b; updated_at = now }

unfoldable pub apply_update : UpdateAccountDto → (now : ℕ) → Account → Account
apply_update dto now a = record a {
  account_type = or_else dto.account_type a.account_type;
  account_name = or_else dto.account_name a.account_name;
  provider_name = or_option dto.provider_name a.provider_name;
  masked_account_number = or_option dto.masked_account_number a.masked_account_number;
  ifsc_code = or_option dto.ifsc_code a.ifsc_code;
  balance = or_else dto.balance a.balance;
  currency = or_else dto.currency a.currency;
  color = or_option dto.color a.color;
  icon = or_option dto.icon a.icon;
  is_primary = or_else dto.is_primary a.is_primary;
  updated_at = now;
}

unfoldable pub mark_deleted : (now : ℕ) → Account → Account
mark_deleted now a = record a { deleted_at = some now; is_active = false; updated_at = now }

-- The unique index on user and name, for a row that is to be added.
unfoldable pub name_taken : (user_id : ℕ) → String → List Account → Bool
name_taken user_id name rows = any (λ a. (a.user_id == user_id) && str_eq a.account_name name) rows

-- The unique index, for the row `id` that is to get a name.
unfoldable pub rename_clashes : (user_id id : ℕ) → Option String → List Account → Bool
rename_clashes user_id id none rows = false
rename_clashes user_id id (some name) rows =
    any (λ a. (a.user_id == user_id) && not (a.id == id) && str_eq a.account_name name) rows

module _ (orm : Client) where
  -- The demotion of the other primary accounts, if the new account is to be primary.
  unfoldable pub demote_if : Bool → (Account → Bool) → (now : ℕ) → List Account → List Account
  unfolding set_is_primary
  demote_if wanted p now rows =
      if wanted then update_many orm accounts (having p) (set_is_primary false now) rows else rows

  unfoldable pub create :
      (user_id : ℕ) → CreateAccountDto → (id now : ℕ) → List Account → Result Account × List Account
  create user_id dto id now rows =
      let rows' = demote_if (or_else dto.is_primary false) (is_primary_of user_id) now rows in
      let a = new_account user_id dto id now in
      if name_taken user_id dto.account_name rows'
      then (err conflict, rows')
      else (ok a, orm.insert a rows')

  unfoldable pub find_one : (user_id id : ℕ) → List Account → Result Account
  find_one user_id id rows =
      or_not_found (find_first orm accounts (live accounts (is_owned user_id id)) rows)

  -- The rest of `update`, once the account has been found.
  unfoldable pub update_found :
      (user_id id : ℕ)
      → UpdateAccountDto
      → (now : ℕ) → List Account
      → Option Account
      → Result Account × List Account
  update_found user_id id dto now rows none = (err not_found, rows)
  update_found user_id id dto now rows (some a) =
      let rows' =
        demote_if (or_else dto.is_primary false) (λ b. is_primary_of user_id b && not (b.id == id))
          now rows in
      if rename_clashes user_id id dto.account_name rows'
      then (err internal, rows')
      else update orm accounts (having (λ r. r.id == id)) (apply_update dto now) rows'

  unfoldable pub update_account :
      (user_id id : ℕ) → UpdateAccountDto → (now : ℕ) → List Account → Result Account × List Account
  unfolding update_found
  update_account user_id id dto now rows =
      update_found user_id id dto now rows
        (find_first orm accounts (live accounts (is_owned user_id id)) rows)

  unfoldable pub delete : (user_id id now : ℕ) → List Account → Result Account × List Account
  unfolding write_found
  delete user_id id now rows =
      write_found orm accounts (λ a. a.id) id (mark_deleted now) rows
        (find_first orm accounts (live accounts (is_owned user_id id)) rows)

  -- The rest of `setPrimary`, once the account has been found.
  unfoldable pub set_primary_found :
      (user_id id now : ℕ) → List Account → Option Account → Result Account × List Account
  set_primary_found user_id id now rows none = (err not_found, rows)
  set_primary_found user_id id now rows (some a) =
      update orm accounts (having (λ r. r.id == id)) (set_is_primary true now)
        (update_many orm accounts (having (is_primary_of user_id)) (set_is_primary false now) rows)

  unfoldable pub set_primary : (user_id id now : ℕ) → List Account → Result Account × List Account
  unfolding set_primary_found
  set_primary user_id id now rows =
      set_primary_found user_id id now rows
        (find_first orm accounts (live accounts (is_owned user_id id)) rows)
