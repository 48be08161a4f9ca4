-- ===== src/Users/Auth.antt =====
-- The operations of backend/src/modules/user/auth.service.ts. `now` is the clock, and the uuids of new
-- rows are arguments. The database refuses a second row of the same unique column: `email`, `phone`,
-- `tokenHash`.
use money_management_app.Prelude.{
  ℕ, ◌+◌, ◌*◌, ◌/◌, Bool, true, false, ◌&&◌, ◌||◌, not, Option, none, some, String, List, ◌==◌, ltb,
  if◌then◌else◌, str_eq, any, find, Result, ok, err, unauthorized, bad_request, internal,
}
use money_management_app.Prelude.Int.{pos}
use money_management_app.Calendar.{day_ms}
use money_management_app.Orm.Client.{Client}
use money_management_app.Orm.Query.{having, find_unique, update, delete, delete_many}
use money_management_app.Accounts.Schema.{Account, bank, CreateAccountDto}
use money_management_app.Accounts.Service.{new_account}
use money_management_app.Users.Schema.{User, users, RefreshToken, refresh_tokens, no_preferences}
use money_management_app.Users.Tokens.{Claims, Crypto}

-- The tables that the service writes.
pub record Stores : Type 0 where
  pub users : List User
  pub refresh_tokens : List RefreshToken
  pub accounts : List Account

pub record Session : Type 0 where
  pub user : User
  pub access_token : String
  pub refresh_token : String

unfoldable pub new_user :
    (email password_hash : String) (name phone : Option String) (id now : ℕ) → User
new_user email password_hash name phone id now = record {
  id = id;
  email = email;
  password_hash = password_hash;
  name = name;
  phone = phone;
  email_verified = false;
  notification_prefs = no_preferences;
  is_active = true;
  last_login_at = none;
  token_version = 0;
  deleted_at = none;
  created_at = now;
}

-- The default account of a new user.
abbrev pub main_account : CreateAccountDto
main_account = record {
  account_type = bank;
  account_name = "Main Account";
  provider_name = none;
  masked_account_number = none;
  ifsc_code = none;
  balance = some (pos 0);
  currency = none;
  color = none;
  icon = none;
  is_primary = some true;
}

abbrev pub same_text : Option String → Option String → Bool
same_text (some s) (some t) = str_eq s t
same_text _ _ = false

-- Whether a unique column of another user holds the value.
abbrev pub taken : (id : ℕ) (email : String) (phone : Option String) → User → Bool
taken id email phone u = not (u.id == id) && (str_eq u.email email || same_text u.phone phone)

unfoldable pub set_last_login : (now : ℕ) → User → User
set_last_login now u = record u { last_login_at = some now }

-- `tokenVersion: { increment: 1 }`
unfoldable pub bump_version : User → User
bump_version u = record u { token_version = u.token_version + 1 }

abbrev pub claims_of :
    (user_id : ℕ) (email : String) (token_version : ℕ) (is_refresh : Bool) (now : ℕ) → Claims
claims_of user_id email token_version is_refresh now = record {
  sub = user_id;
  email = email;
  tv = some token_version;
  is_refresh = is_refresh;
  iat = now / 1000;
}

abbrev pub has_hash : String → RefreshToken → Bool
has_hash h t = str_eq t.token_hash h

module _ (orm : Client) (crypto : Crypto) where
  -- saveRefreshToken: the token lives seven days.
  unfoldable pub save_refresh_token :
      (user_id : ℕ) (token : String) (id now : ℕ) → List RefreshToken → Option (List RefreshToken)
  save_refresh_token user_id token id now rows =
      let h = crypto.sha256 token in
      if any (has_hash h) rows
      then none
      else some (
          orm.insert
            (record { id = id; user_id = user_id; token_hash = h; expires_at = now + 7 * day_ms })
            rows)

  -- The answer, once the refresh token has been saved.
  unfoldable pub session_saved :
      User
      → (access refresh : String) → Stores
      → Option (List RefreshToken)
      → Result Session × Stores
  session_saved u access refresh s none = (err internal, s)
  session_saved u access refresh s (some tokens) = (
    ok (record { user = u; access_token = access; refresh_token = refresh }),
    record s { refresh_tokens = tokens },
  )

  -- issueSessionForUserId with generateTokens, for a token version that the caller knows.
  unfoldable pub issue_session : User → (id now : ℕ) → Stores → Result Session × Stores
  issue_session u id now s =
      let access = crypto.sign_access (claims_of u.id u.email u.token_version false now) in
      let refresh = crypto.sign_refresh (claims_of u.id u.email u.token_version true now) in
      session_saved u access refresh s (save_refresh_token u.id refresh id now s.refresh_tokens)

  -- The rest of `validateUser`, once the user has been looked for; the answer is the row that was read.
  unfoldable pub check_password :
      (password : String) (now : ℕ) → List User → Option User → Option User × List User
  check_password password now rows none = (none, rows)
  check_password password now rows (some u) =
      if not u.is_active
      then (none, rows)
      else if crypto.compare_password password u.password_hash
      then (some u, (update orm users (having (λ v. v.id == u.id)) (set_last_login now) rows).1)
      else (none, rows)

  unfoldable pub validate_user :
      (email password : String) (now : ℕ) → List User → Option User × List User
  validate_user email password now rows =
      check_password password now rows
        (find_unique orm users (having (λ u. str_eq u.email email)) rows)

  unfoldable pub login : (email password : String) (id now : ℕ) → Stores → Result Session × Stores
  login email password id now s =
      let (found, rows) = validate_user email password now s.users in
      elim found [
        | none ↦ (err unauthorized, record s { users = rows })
        | some u ↦ issue_session u id now (record s { users = rows })
      ]

  unfoldable pub register :
      (email password : String) (name phone : Option String) (user_id account_id id now : ℕ)
      → Stores
      → Result Session × Stores
  register email password name phone user_id account_id id now s =
      elim (find_unique orm users (having (λ u. str_eq u.email email)) s.users) [
        | some u ↦ (err bad_request, s)
        | none ↦
            if any (taken user_id email phone) s.users
            then (err internal, s)
            else (let u = new_user email (crypto.hash_password password) name phone user_id now in
                issue_session u id now (record s {
                  users = orm.insert u s.users;
                  accounts =
                      orm.insert (new_account user_id main_account account_id now) s.accounts;
                }))
      ]

  -- The end of `refreshTokens`: the stored token is deleted, and its user gets a new session.
  unfoldable pub refresh_owner :
      (id now : ℕ) → Stores → RefreshToken → Option User → Result Session × Stores
  refresh_owner id now s t none = (err internal, s)
  refresh_owner id now s t (some u) = issue_session u id now (record s {
    refresh_tokens = delete orm refresh_tokens (having (λ r. r.id == t.id)) s.refresh_tokens;
  })

  -- The rest of `refreshTokens`: an unknown token and an expired one are refused. The user is read
  -- through the relation, which no middleware filters.
  unfoldable pub refresh_found :
      (id now : ℕ) → Stores → Option RefreshToken → Result Session × Stores
  refresh_found id now s none = (err unauthorized, s)
  refresh_found id now s (some t) =
      if ltb t.expires_at now
      then (err unauthorized, s)
      else refresh_owner id now s t (find (λ u. u.id == t.user_id) s.users)

  unfoldable pub refresh_session :
      (refresh_token : String) (id now : ℕ) → Stores → Result Session × Stores
  refresh_session refresh_token id now s = refresh_found id now s (
      find_unique orm refresh_tokens (having (has_hash (crypto.sha256 refresh_token)))
        s.refresh_tokens)

  -- The rest of the transaction of `logout(userId)`, once the version has been bumped.
  unfoldable pub revoke_written :
      (user_id : ℕ) → Stores → Result User × List User → Result User × Stores
  revoke_written user_id s (err e, rows) = (err e, s)
  revoke_written user_id s (ok u, rows) = (
    ok u,
    record s {
      users = rows;
      refresh_tokens =
          delete_many orm refresh_tokens (having (λ t. t.user_id == user_id)) s.refresh_tokens;
    },
  )

  -- `logout(userId)`
  unfoldable pub logout_everywhere : (user_id : ℕ) → Stores → Result User × Stores
  logout_everywhere user_id s =
      revoke_written user_id s
        (update orm users (having (λ u. u.id == user_id)) bump_version s.users)

  -- `logout(userId, refreshToken)`
  unfoldable pub logout_device : (refresh_token : String) → Stores → Stores
  logout_device refresh_token s = record s {
    refresh_tokens =
        delete_many orm refresh_tokens (having (has_hash (crypto.sha256 refresh_token)))
          s.refresh_tokens;
  }
