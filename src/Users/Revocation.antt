-- ===== src/Users/Revocation.antt =====
-- Signing out of all devices.
use money_management_app.Prelude.{
  ℕ, ◌≤◌, ◌≡◌, ◌≢◌, refl, sym, ◌∙◌, Bool, true, not, none, some, List, [], ◌∷◌, ◌==◌, arith,
  or_else, filter, find, find-passes, replace, Result, ok, err, unauthorized,
}
use money_management_app.Orm.Client.{Client}
use money_management_app.Orm.SoftDelete.{Action}
use money_management_app.Orm.Query.{
  having, reach, find_first, find_first-find, update, update-ok, delete_many-filter,
}
use money_management_app.Orm.Owned.{find-replace}
use money_management_app.Users.Schema.{User, users, refresh_tokens}
use money_management_app.Users.Tokens.{Claims, Crypto, validate, check_version}
use money_management_app.Users.Auth.{Stores, bump_version, logout_everywhere, revoke_written}

abbrev pub has_id : ℕ → User → Bool
has_id i u = u.id == i

-- What logging out everywhere has done that succeeded.
pub revoked :
    (orm : Client) (crypto : Crypto) (user_id : ℕ) (s : Stores) (w : Result User × List User)
    {u : User}
    → (revoke_written orm crypto user_id s w).0 ≡ ok u
    → (w.0 ≡ ok u)
      × ((revoke_written orm crypto user_id s w).1.users ≡ w.1)
      × ((revoke_written orm crypto user_id s w).1.refresh_tokens
          ≡ filter (λ t. not (t.user_id == user_id)) s.refresh_tokens)
unfolding revoke_written reach
revoked orm crypto user_id s (err e, rows) done = cc
revoked orm crypto user_id s (ok v, rows) done = (
  done,
  refl,
  delete_many-filter orm refresh_tokens (having (λ t. t.user_id == user_id)) s.refresh_tokens,
)

pub refused :
    (claims : Claims) (u : User)
    → or_else claims.tv 0 ≢ u.token_version
    → check_version claims (some u) ≡ err unauthorized
unfolding check_version
refused claims u h = ground arith

find-filter-none :
    {A : Type 0} (p : A → Bool) (xs : List A) → find p (filter (λ x. not (p x)) xs) ≡ none
find-filter-none p [] = refl
find-filter-none p (x ∷ xs) = ground (arith, find-filter-none p xs)

bumped-found :
    (user_id : ℕ) (rows : List User) {u : User}
    → find (reach users Action.find_first (having (has_id user_id))) rows ≡ some u
    → find
        (reach users Action.find_first (having (has_id user_id)))
        (replace (reach users Action.update (having (has_id user_id))) bump_version rows)
      ≡ some (bump_version u)
unfolding reach bump_version
bumped-found user_id rows {u} e =
    find-replace (reach users Action.find_first (having (has_id user_id)))
      (reach users Action.update (having (has_id user_id))) bump_version rows (λ r. refl)
      (meets u (find-passes (reach users Action.find_first (having (has_id user_id))) rows e)) e
  where
    meets :
        (r : User)
        → reach users Action.find_first (having (has_id user_id)) r ≡ true
        → reach users Action.update (having (has_id user_id)) r ≡ true
    meets r h = ground arith

-- Once a user has signed out of all devices, every access token of the user that carries a version up
-- to the one that was stored before is refused, and no refresh token of the user is left.
pub logout_everywhere_lem :
    (orm : Client) (crypto : Crypto) (user_id : ℕ) (s : Stores) (claims : Claims) {u v : User}
    → find_first orm users (having (has_id user_id)) s.users ≡ some u
    → claims.sub ≡ user_id
    → or_else claims.tv 0 ≤ u.token_version
    → (logout_everywhere orm crypto user_id s).0 ≡ ok v
    → let s' = (logout_everywhere orm crypto user_id s).1 in
      (validate orm claims s'.users ≡ err unauthorized)
      × (find (λ t. t.user_id == user_id) s'.refresh_tokens ≡ none)
unfolding logout_everywhere validate bump_version
logout_everywhere_lem orm crypto user_id s claims {u} e sub old done =
    let (wrote, rows, tokens) =
      revoked orm crypto user_id s (update orm users (having (has_id user_id)) bump_version s.users)
        done in
    let (r, _, _, after) =
      update-ok orm users (having (has_id user_id)) bump_version s.users wrote in
    let seen =
      bumped-found user_id s.users
        (sym (find_first-find orm users (having (has_id user_id)) s.users) ∙ e) in
    (
      rw (sub, rows, after, find_first-find, seen)
          (refused claims (bump_version u) (λ k. omega (arith, k, old))),
      rw tokens (find-filter-none (λ t. t.user_id == user_id) s.refresh_tokens),
    )
