-- ===== src/Users/Service.antt =====
-- The operations of backend/src/modules/user/user.service.ts on profiles. `now` is the clock, and the
-- uuids of new rows are arguments.
use money_management_app.Prelude.{
  ℕ, Bool, true, false, ◌&&◌, not, Option, none, some, String, List, ◌==◌, if◌then◌else◌, or_else,
  or_option, str_eq, any, find, truthy, is_some, Result, ok, err, not_found, conflict, internal,
}
use money_management_app.Orm.Client.{Client}
use money_management_app.Orm.Query.{having, find_unique, update, delete}
use money_management_app.Orm.Owned.{or_not_found}
use money_management_app.Accounts.Schema.{Account}
use money_management_app.Accounts.Service.{new_account}
use money_management_app.Users.Schema.{User, users}
use money_management_app.Users.Tokens.{Crypto}
use money_management_app.Users.Auth.{new_user, main_account, taken, same_text, set_last_login}

-- Partial<CreateUserDto>
pub record UpdateUserDto : Type 0 where
  pub email : Option String
  pub password : Option String
  pub name : Option String
  pub phone : Option String

-- `updateData.password`, hashed; the empty text counts as missing.
abbrev pub new_hash : Crypto → (password : Option String) (old : String) → String
new_hash crypto none old = old
new_hash crypto (some p) old = if str_eq p "" then old else crypto.hash_password p

unfoldable pub apply_update : Crypto → UpdateUserDto → User → User
apply_update crypto dto u = record u {
  email = or_else dto.email u.email;
  password_hash = new_hash crypto dto.password u.password_hash;
  name = or_option dto.name u.name;
  phone = or_option dto.phone u.phone;
}

unfoldable pub set_verified : User → User
set_verified u = record u { email_verified = true }

-- `updateData.email && updateData.email !== user.email`
abbrev pub is_new_email : Option String → (old : String) → Bool
is_new_email none old = false
is_new_email (some e) old = not (str_eq e "") && not (str_eq e old)

module _ (orm : Client) (crypto : Crypto) where
  abbrev pub phone_known : Option String → List User → Bool
  phone_known phone rows =
      truthy phone && is_some (find_unique orm users (having (λ u. same_text u.phone phone)) rows)

  unfoldable pub create :
      (email password : String) (name phone : Option String) (user_id account_id now : ℕ)
      → List User
      → List Account
      → Result User × List User × List Account
  create email password name phone user_id account_id now rows accounts =
      if is_some (find_unique orm users (having (λ u. str_eq u.email email)) rows)
      then (err conflict, rows, accounts)
      else if phone_known phone rows
      then (err conflict, rows, accounts)
      else if any (taken user_id email phone) rows
      then (err internal, rows, accounts)
      else (let u = new_user email (crypto.hash_password password) name phone user_id now in
          (
            ok u,
            orm.insert u rows,
            orm.insert (new_account user_id main_account account_id now) accounts,
          ))

  unfoldable pub find_by_id : ℕ → List User → Result User
  find_by_id id rows = or_not_found (find_unique orm users (having (λ u. u.id == id)) rows)

  unfoldable pub find_by_email : String → List User → Option User
  find_by_email email rows = find_unique orm users (having (λ u. str_eq u.email email)) rows

  -- The rest of `update`, once the user has been looked for.
  unfoldable pub update_found :
      (id : ℕ) → UpdateUserDto → List User → Option User → Result User × List User
  update_found id dto rows none = (err not_found, rows)
  update_found id dto rows (some u) =
      if is_new_email dto.email u.email
        && is_some
            (find_unique orm users (having (λ v. str_eq v.email (or_else dto.email u.email))) rows)
      then (err conflict, rows)
      else if any (taken id (or_else dto.email u.email) dto.phone) rows
      then (err internal, rows)
      else update orm users (having (λ v. v.id == id)) (apply_update crypto dto) rows

  unfoldable pub update_user : (id : ℕ) → UpdateUserDto → List User → Result User × List User
  update_user id dto rows =
      update_found id dto rows (find_unique orm users (having (λ u. u.id == id)) rows)

  unfoldable pub update_last_login : (id now : ℕ) → List User → Result User × List User
  update_last_login id now rows =
      update orm users (having (λ u. u.id == id)) (set_last_login now) rows

  unfoldable pub verify_email : (id : ℕ) → List User → Result User × List User
  verify_email id rows = update orm users (having (λ u. u.id == id)) set_verified rows

  -- `delete` throws for a user that is not there.
  unfoldable pub delete_user : (id : ℕ) → List User → Result User × List User
  delete_user id rows = elim (find (λ u. u.id == id) rows) [
    | none ↦ (err internal, rows)
    | some u ↦ (ok u, delete orm users (having (λ v. v.id == id)) rows)
  ]
