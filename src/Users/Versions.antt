-- ===== src/Users/Versions.antt =====
-- The token versions of a user never fall, whatever the service is called for.
use money_management_app.Prelude.{
  ℕ, ◌≤◌, ◌≡◌, ◌≢◌, refl, ap, ◌∙◌, Bool, true, Option, none, some, String, List, [], ◌∷◌, ◌++◌,
  ◌==◌, arith, any, find, replace, All, All-append, Result, ok, err, str_eq, ltb, Bool-cases,
  Option-cases, inl, inr, ◌⊎◌,
}
use money_management_app.Orm.Client.{Client}
use money_management_app.Orm.SoftDelete.{Action}
use money_management_app.Orm.Query.{having, reach, find_unique, update, update-written, written}
use money_management_app.Orm.SoftDelete.{Where}
use money_management_app.Users.Schema.{User, RefreshToken, users, refresh_tokens}
use money_management_app.Users.Tokens.{Crypto}
use money_management_app.Users.Auth.{
  Stores, bump_version, set_last_login, new_user, taken, has_hash, check_password, validate_user,
  session_saved, issue_session, login, register, refresh_owner, refresh_found, refresh_session,
  revoke_written, logout_everywhere, logout_device,
}
use money_management_app.Users.Revocation.{has_id}
use money_management_app.Users.Sequences.{Step, Reach}

pub any-replace :
    {A : Type 0} (p q : A → Bool) (f : A → A) (xs : List A)
    → ((x : A) → p (f x) ≡ p x)
    → any p (replace q f xs) ≡ any p xs
any-replace p q f [] keep = refl
any-replace p q f (x ∷ xs) keep = ground (arith, keep x, any-replace p q f xs keep)

any-append :
    {A : Type 0} (p : A → Bool) (xs ys : List A) → any p xs ≡ true → any p (xs ++ ys) ≡ true
any-append p [] ys e = cc
any-append p (x ∷ xs) ys e = ground (arith, any-append p xs ys)

All-replace :
    {A : Type 0} (P : A → Type 0) (q : A → Bool) (f : A → A) (xs : List A)
    → ((x : A) → P x → P (f x))
    → All P xs
    → All P (replace q f xs)
All-replace P q f [] keep h = tt
All-replace P q f (x ∷ xs) keep h = (ground (arith, keep x h.0), All-replace P q f xs keep h.1)

module _ (user_id least : ℕ) where
  -- A row of the user has at least this version.
  abbrev pub Recent : User → Type 0
  Recent u = (u.id ≢ user_id) ⊎ (least ≤ u.token_version)

  -- The user exists, and all rows of the user have at least this version.
  abbrev pub Holds : List User → Type 0
  Holds rows = (any (has_id user_id) rows ≡ true) × All Recent rows

  replace-Holds :
      (q : User → Bool) (f : User → User) (rows : List User)
      → ((u : User) → ((f u).id ≡ u.id) × (u.token_version ≤ (f u).token_version))
      → Holds rows
      → Holds (replace q f rows)
  replace-Holds q f rows keep h = (
    any-replace (has_id user_id) q f rows (λ u. ap (λ i. i == user_id) (keep u).0) ∙ h.0,
    All-replace Recent q f rows (λ u r. ground (arith, keep u)) h.1,
  )

  written-Holds :
      (f : User → User) (rows changed : List User) (found : Option User)
      → Holds rows
      → Holds changed
      → Holds (written f rows changed found).1
  written-Holds f rows changed none h k = h
  written-Holds f rows changed (some u) h k = k

  update-Holds :
      (orm : Client) (w : Where User) (f : User → User) (rows : List User)
      → ((u : User) → ((f u).id ≡ u.id) × (u.token_version ≤ (f u).token_version))
      → Holds rows
      → Holds (update orm users w f rows).1
  update-Holds orm w f rows keep h =
      let p = reach users Action.update w in
      rw (update-written orm users w f rows)
        (written-Holds f rows (replace p f rows) (find p rows) h (replace-Holds p f rows keep h))

  fresh_other :
      (new_id : ℕ) (rows : List User)
      → any (has_id user_id) rows ≡ true
      → All (λ u. u.id ≢ new_id) rows
      → new_id ≢ user_id
  fresh_other new_id [] e h same = cc
  fresh_other new_id (u ∷ rows) e h same = ground (arith, h.0, fresh_other new_id rows)

  module _ (orm : Client) (crypto : Crypto) where
    saved-users :
        (u : User) (access refresh : String) (s : Stores) (o : Option (List RefreshToken))
        → (session_saved orm crypto u access refresh s o).1.users ≡ s.users
    unfolding session_saved
    saved-users u access refresh s none = refl
    saved-users u access refresh s (some tokens) = refl

    issued-users :
        (u : User) (id now : ℕ) (s : Stores)
        → (issue_session orm crypto u id now s).1.users ≡ s.users
    unfolding issue_session
    issued-users u id now s = saved-users u _ _ s _

    check_password-Holds :
        (password : String) (now : ℕ) (rows : List User) (found : Option User)
        → Holds rows
        → Holds (check_password orm crypto password now rows found).1
    unfolding check_password set_last_login
    check_password-Holds password now rows none h = h
    check_password-Holds password now rows (some u) h = elim (Bool-cases u.is_active) [
      | inl e ↦ elim (Bool-cases (crypto.compare_password password u.password_hash)) [
        | inl k ↦
            rw (e, check_password)
              (rw k (
                update-Holds orm (having (λ v. v.id == u.id)) (set_last_login now) rows
                  (λ v. (refl, omega arith)) h))
        | inr k ↦ rw (e, check_password) (rw k h)
      ]
      | inr e ↦ rw (e, check_password) h
    ]

    login-users :
        (email password : String) (id now : ℕ) (s : Stores)
        → (login orm crypto email password id now s).1.users
          ≡ (validate_user orm crypto email password now s.users).1
    unfolding login
    login-users email password id now s =
        elim (Option-cases (validate_user orm crypto email password now s.users).0) [
          | inl e ↦ rw (e, login)
          | inr (u, e) ↦
              rw (e, login)
                (issued-users u id now
                  (record s { users = (validate_user orm crypto email password now s.users).1 }))
        ]

    register-Holds :
        (email password : String) (name phone : Option String) (new_id account_id id now : ℕ)
        (s : Stores)
        → All (λ u. u.id ≢ new_id) s.users
        → Holds s.users
        → Holds (register orm crypto email password name phone new_id account_id id now s).1.users
    unfolding register new_user
    register-Holds email password name phone new_id account_id id now s fresh h =
        let asked = find_unique orm users (having (λ u. str_eq u.email email)) s.users in
        elim (Option-cases asked) [
          | inl e ↦ elim (Bool-cases (any (taken new_id email phone) s.users)) [
            | inl k ↦ rw (e, register) (rw k h)
            | inr k ↦
                rw (e, register)
                  (rw k (
                    rw (issued-users, orm.insert-append)
                      (
                        any-append (has_id user_id) s.users _ h.0,
                        All-append Recent s.users
                            (new_user email (crypto.hash_password password) name phone new_id now
                              ∷ [])
                            h.1 (inl (fresh_other new_id s.users h.0 fresh), tt),
                      )))
          ]
          | inr (u, e) ↦ rw (e, register) h
        ]

    owner-users :
        (id now : ℕ) (s : Stores) (t : RefreshToken) (o : Option User)
        → (refresh_owner orm crypto id now s t o).1.users ≡ s.users
    unfolding refresh_owner
    owner-users id now s t none = refl
    owner-users id now s t (some u) = issued-users u id now _

    refresh_found-users :
        (id now : ℕ) (s : Stores) (o : Option RefreshToken)
        → (refresh_found orm crypto id now s o).1.users ≡ s.users
    unfolding refresh_found
    refresh_found-users id now s none = refl
    refresh_found-users id now s (some t) = elim (Bool-cases (ltb t.expires_at now)) [
      | inl e ↦ rw (e, refresh_found)
      | inr e ↦
          rw (e, refresh_found) (owner-users id now s t (find (λ u. u.id == t.user_id) s.users))
    ]

    revoked-Holds :
        (i : ℕ) (s : Stores) (o : Result User × List User)
        → Holds s.users
        → Holds o.1
        → Holds (revoke_written orm crypto i s o).1.users
    unfolding revoke_written
    revoked-Holds i s (err e, rows) h k = h
    revoked-Holds i s (ok u, rows) h k = k

    Step-Holds : {s t : Stores} → Step orm crypto s t → Holds s.users → Holds t.users
    unfolding refresh_session logout_everywhere logout_device bump_version validate_user
    Step-Holds {s} (Step.signs_in email password id now) h =
        rw (login-users email password id now s) (
          check_password-Holds password now s.users
            (find_unique orm users (having (λ u. str_eq u.email email)) s.users) h)
    Step-Holds {s} (Step.registers email password name phone new_id account_id id now fresh) h =
        register-Holds email password name phone new_id account_id id now s fresh h
    Step-Holds {s} (Step.refreshes token id now) h =
        rw
          (refresh_found-users id now s (
            find_unique orm refresh_tokens (having (has_hash (crypto.sha256 token)))
              s.refresh_tokens))
          h
    Step-Holds {s} (Step.signs_out token) h = h
    Step-Holds {s} (Step.signs_out_everywhere i) h =
        revoked-Holds i s (update orm users (having (λ u. u.id == i)) bump_version s.users) h (
          update-Holds orm (having (λ u. u.id == i)) bump_version s.users (λ u. (refl, omega arith))
            h)

    pub Reach-Holds : {s t : Stores} → Reach orm crypto s t → Holds s.users → Holds t.users
    Reach-Holds Reach.start h = h
    Reach-Holds (Reach.later r step) h = Step-Holds step (Reach-Holds r h)
