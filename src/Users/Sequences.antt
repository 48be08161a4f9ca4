-- ===== src/Users/Sequences.antt =====
-- What holds along any sequence of sign-ins, registrations, refreshes and sign-outs.
use money_management_app.Prelude.{ℕ, ◌≢◌, Option, String, All}
use money_management_app.Orm.Client.{Client}
use money_management_app.Users.Tokens.{Crypto}
use money_management_app.Users.Auth.{
  Stores, login, register, refresh_session, logout_everywhere, logout_device,
}

-- One call of the service; a registration takes an id that no user has.
pub data Step (orm : Client) (crypto : Crypto) (s : Stores) : Stores → Type 0 where
  signs_in :
      (email password : String) (id now : ℕ)
      → Step orm crypto s (login orm crypto email password id now s).1
  registers :
      (email password : String) (name phone : Option String) (user_id account_id id now : ℕ)
      → All (λ u. u.id ≢ user_id) s.users
      → Step orm crypto s
          (register orm crypto email password name phone user_id account_id id now s).1
  refreshes :
      (refresh_token : String) (id now : ℕ)
      → Step orm crypto s (refresh_session orm crypto refresh_token id now s).1
  signs_out :
      (refresh_token : String) → Step orm crypto s (logout_device orm crypto refresh_token s)
  signs_out_everywhere :
      (user_id : ℕ) → Step orm crypto s (logout_everywhere orm crypto user_id s).1

pub data Reach (orm : Client) (crypto : Crypto) (s : Stores) : Stores → Type 0 where
  start : Reach orm crypto s s
  later : {t t' : Stores} → Reach orm crypto s t → Step orm crypto t t' → Reach orm crypto s t'
