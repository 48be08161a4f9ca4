-- ===== src/Users/SignedOut.antt =====
-- A sign-out of all devices lasts.
use money_management_app.Prelude.{
  ℕ, ◌+◌, ◌≤◌, ◌≡◌, ◌≢◌, refl, sym, ◌∙◌, Bool, true, Option, none, some, List, [], ◌∷◌, arith, any,
  or_else, find, find-All, find-passes, replace, All, All-map, ok, err, unauthorized, Bool-cases,
  inl, inr,
}
use money_management_app.Orm.Client.{Client}
use money_management_app.Orm.SoftDelete.{Action}
use money_management_app.Orm.Query.{having, reach, find_first, find_first-find, update, update-ok}
use money_management_app.Orm.Rows.{UniqueIds}
use money_management_app.Users.Schema.{User, users}
use money_management_app.Users.Tokens.{Claims, Crypto, validate, check_version}
use money_management_app.Users.Auth.{Stores, bump_version, logout_everywhere}
use money_management_app.Users.Revocation.{has_id, revoked, refused}
use money_management_app.Users.Sequences.{Reach}
use money_management_app.Users.Versions.{Recent, Holds, Reach-Holds, any-replace}

abbrev pub asked : ℕ → User → Bool
asked i = reach users Action.find_first (having (has_id i))

abbrev pub bumped : ℕ → User → Bool
bumped i = reach users Action.update (having (has_id i))

asked-id : (i : ℕ) (u : User) → asked i u ≡ true → (u.id ≡ i) × (bumped i u ≡ true)
unfolding reach
asked-id i u h = ground arith

find-any :
    (i : ℕ) (rows : List User) {u : User}
    → find (asked i) rows ≡ some u
    → any (has_id i) rows ≡ true
unfolding reach
find-any i [] e = cc
find-any i (r ∷ rows) {u} e = ground (arith, find-any i rows {u = u})

-- The row that is found is the only one of its id.
only_one :
    (i : ℕ) (rows : List User) {u : User}
    → UniqueIds (λ r. r.id) rows
    → find (asked i) rows ≡ some u
    → All (λ r. r.id ≡ i → (bumped i r ≡ true) × (r.token_version ≡ u.token_version)) rows
only_one i [] unique e = tt
only_one i (r ∷ rows) {u} unique e = elim (Bool-cases (asked i r)) [
  | inl here ↦ (
    (λ same. ((asked-id i r here).1, same_version (rw here at e))),
    All-map (λ s ne same. absurd (ne (same ∙ sym (asked-id i r here).0))) rows unique.0,
  )
  | inr there ↦
      let e' : find (asked i) rows ≡ some u = rw there at e in
      let away = find-All (λ s. s.id ≢ r.id) (asked i) rows e' unique.0 in
      (
        (λ same. absurd (away ((asked-id i u (find-passes (asked i) rows e')).0 ∙ sym same))),
        only_one i rows unique.1 e',
      )
]
  where
    same_version : some r ≡ some u → r.token_version ≡ u.token_version
    same_version k = cc

bump-Recent :
    (i version : ℕ) (rows : List User)
    → All (λ r. r.id ≡ i → (bumped i r ≡ true) × (r.token_version ≡ version)) rows
    → All (Recent i (version + 1)) (replace (bumped i) bump_version rows)
unfolding bump_version
bump-Recent i version [] h = tt
bump-Recent i version (r ∷ rows) h = (ground (arith, h.0), bump-Recent i version rows h.1)

below-refused :
    (i version : ℕ) (claims : Claims) (found : Option User) (rows : List User)
    → All (Recent i (version + 1)) rows
    → or_else claims.tv 0 ≤ version
    → find (asked i) rows ≡ found
    → check_version claims found ≡ err unauthorized
unfolding check_version
below-refused i version claims none rows h old e = refl
below-refused i version claims (some u) rows h old e =
    let recent = find-All (Recent i (version + 1)) (asked i) rows e h in
    let same = (asked-id i u (find-passes (asked i) rows e)).0 in
    refused claims u (λ k. ground (arith, recent))

-- After a user has signed out of all devices, no access token of the user that carries a version up to the one
-- that was stored before is accepted again, whatever sequence of sign-ins, registrations, refreshes and
-- sign-outs, by whomever, follows; this if ids are unique, and registrations take ids that no user has.
pub logout_everywhere-lasts :
    (orm : Client) (crypto : Crypto) (user_id : ℕ) (s t : Stores) (claims : Claims) {u v : User}
    → UniqueIds (λ r. r.id) s.users
    → find_first orm users (having (has_id user_id)) s.users ≡ some u
    → claims.sub ≡ user_id
    → or_else claims.tv 0 ≤ u.token_version
    → (logout_everywhere orm crypto user_id s).0 ≡ ok v
    → Reach orm crypto (logout_everywhere orm crypto user_id s).1 t
    → validate orm claims t.users ≡ err unauthorized
unfolding logout_everywhere validate bump_version
logout_everywhere-lasts orm crypto user_id s t claims {u} unique e sub old done path =
    let (wrote, rows, tokens) =
      revoked orm crypto user_id s (update orm users (having (has_id user_id)) bump_version s.users)
        done in
    let (r, _, _, after) =
      update-ok orm users (having (has_id user_id)) bump_version s.users wrote in
    let found = sym (find_first-find orm users (having (has_id user_id)) s.users) ∙ e in
    let start : Holds user_id (u.token_version + 1)
        (logout_everywhere orm crypto user_id s).1.users =
      rw (rows, after)
        (
          any-replace (has_id user_id) (bumped user_id) bump_version s.users (λ x. refl)
              ∙ find-any user_id s.users found,
          bump-Recent user_id u.token_version s.users (only_one user_id s.users unique found),
        ) in
    let kept = Reach-Holds user_id (u.token_version + 1) orm crypto path start in
    rw (sub, find_first-find)
      (below-refused user_id u.token_version claims _ t.users kept.1 old refl)
