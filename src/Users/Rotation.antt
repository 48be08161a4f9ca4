-- ===== src/Users/Rotation.antt =====
-- A refresh token is used once.
use money_management_app.Prelude.{
  ℕ, ◌+◌, ◌*◌, ◌≡◌, ◌≢◌, refl, sym, ap, ◌∙◌, Bool, true, false, not, Option, none, some, String,
  List, [], ◌∷◌, ◌++◌, ◌==◌, ltb, inl, inr, arith, Bool-cases, filter, find, any, All, All-map,
  eq_iff, ok, err, unauthorized,
}
use money_management_app.Calendar.{day_ms}
use money_management_app.Orm.Client.{Client}
use money_management_app.Orm.Query.{
  having, reach, find_unique, find_unique-find, delete, delete-filter,
}
use money_management_app.Users.Schema.{User, RefreshToken, refresh_tokens}
use money_management_app.Users.Tokens.{Crypto}
use money_management_app.Users.Auth.{
  Stores, Session, has_hash, claims_of, save_refresh_token, session_saved, issue_session,
  refresh_owner, refresh_found, refresh_session,
}

-- The unique column `tokenHash`.
abbrev pub UniqueHashes : List RefreshToken → Type 0
UniqueHashes [] = Unit
UniqueHashes (t ∷ ts) = All (λ s. s.token_hash ≢ t.token_hash) ts × UniqueHashes ts

none-some : {A : Type 0} {a : A} → none ≢ some a
none-some k = cc

other_hash : (h : String) (t : RefreshToken) → t.token_hash ≢ h → has_hash h t ≡ false
other_hash h t n = elim (Bool-cases (has_hash h t)) [
  | inl e ↦ absurd (n ((eq_iff t.token_hash h).0 e))
  | inr e ↦ e
]

has_hash-eq : (h : String) (t : RefreshToken) → has_hash h t ≡ true → t.token_hash ≡ h
has_hash-eq h t e = (eq_iff t.token_hash h).0 e

-- The rows of a hash are those of the id that was found.
one_of_hash :
    (h : String) (rows : List RefreshToken) {t : RefreshToken}
    → UniqueHashes rows
    → find (has_hash h) rows ≡ some t
    → All (λ r. has_hash h r ≡ true → (r.id == t.id) ≡ true) rows
one_of_hash h [] u e = tt
one_of_hash h (x ∷ rows) {t} u e = elim (Bool-cases (has_hash h x)) [
  | inl here ↦ (
    (λ k. ground arith),
    All-map (λ s ne k. absurd (ne (has_hash-eq h s k ∙ sym (has_hash-eq h x here)))) rows u.0,
  )
  | inr there ↦ (λ k. absurd (clash there k), one_of_hash h rows u.1 (rw there at e))
]
  where
    clash : {b : Bool} → b ≡ false → b ≢ true
    clash p q = cc

gone :
    (h : String) (i : ℕ) (rows : List RefreshToken)
    → All (λ r. has_hash h r ≡ true → (r.id == i) ≡ true) rows
    → find (has_hash h) (filter (λ r. not (r.id == i)) rows) ≡ none
gone h i [] a = refl
gone h i (x ∷ rows) a = ground (arith, a.0, gone h i rows a.1)

find-append-none :
    (p : RefreshToken → Bool) (xs : List RefreshToken) (y : RefreshToken)
    → find p xs ≡ none
    → p y ≡ false
    → find p (xs ++ y ∷ []) ≡ none
find-append-none p [] y e f = rw f
find-append-none p (x ∷ xs) y e f = ground (arith, find-append-none p xs y)

-- The rows of the store after a session, and those of the new token.
abbrev pub Issued :
    Crypto → List RefreshToken → (refresh_token : String) → List RefreshToken → Type 0
Issued crypto rows token after =
    (r : RefreshToken) × (after ≡ rows ++ r ∷ []) × (r.token_hash ≡ crypto.sha256 token)

module _ (orm : Client) (crypto : Crypto) where
  saved :
      (user_id : ℕ) (token : String) (id now : ℕ) (rows : List RefreshToken)
      {tokens : List RefreshToken}
      → save_refresh_token orm crypto user_id token id now rows ≡ some tokens
      → Issued crypto rows token tokens
  unfolding save_refresh_token
  saved user_id token id now rows {tokens} e =
      elim (Bool-cases (any (has_hash (crypto.sha256 token)) rows)) [
        | inl there ↦ absurd (none-some (rw there at e))
        | inr free ↦ (row, inserted (rw free at e) ∙ orm.insert-append row rows, refl)
      ]
    where
      row : RefreshToken
      row = record {
        id = id;
        user_id = user_id;
        token_hash = crypto.sha256 token;
        expires_at = now + 7 * day_ms;
      }

      inserted : some (orm.insert row rows) ≡ some tokens → tokens ≡ orm.insert row rows
      inserted k = cc

  session-Issued :
      (u : User) (access refresh : String) (id now : ℕ) (s : Stores)
      (new : Option (List RefreshToken)) {x : Session}
      → save_refresh_token orm crypto u.id refresh id now s.refresh_tokens ≡ new
      → (session_saved orm crypto u access refresh s new).0 ≡ ok x
      → Issued crypto s.refresh_tokens x.refresh_token
          (session_saved orm crypto u access refresh s new).1.refresh_tokens
  unfolding session_saved
  session-Issued u access refresh id now s none e done = cc
  session-Issued u access refresh id now s (some tokens) e done =
      rw (token_of done) (saved u.id refresh id now s.refresh_tokens e)
    where
      token_of :
          {x : Session}
          → ok (record { user = u; access_token = access; refresh_token = refresh }) ≡ ok x
          → x.refresh_token ≡ refresh
      token_of k = cc

  owner-Issued :
      (id now : ℕ) (s : Stores) (t : RefreshToken) (owner : Option User) {x : Session}
      → (refresh_owner orm crypto id now s t owner).0 ≡ ok x
      → Issued crypto
          (filter (λ r. not (r.id == t.id)) s.refresh_tokens)
          x.refresh_token
          (refresh_owner orm crypto id now s t owner).1.refresh_tokens
  unfolding refresh_owner issue_session reach
  owner-Issued id now s t none done = cc
  owner-Issued id now s t (some u) done =
      let kept = delete-filter orm refresh_tokens (having (λ r. r.id == t.id)) s.refresh_tokens in
      let s' : Stores = record s {
        refresh_tokens = delete orm refresh_tokens (having (λ r. r.id == t.id)) s.refresh_tokens;
      } in
      let refresh = crypto.sign_refresh (claims_of u.id u.email u.token_version true now) in
      let (r, after, h) =
        session-Issued u (crypto.sign_access (claims_of u.id u.email u.token_version false now))
          refresh id now s' (save_refresh_token orm crypto u.id refresh id now s'.refresh_tokens)
          refl done in
      (r, after ∙ ap (λ rows. rows ++ r ∷ []) kept, h)

  -- What a refresh that succeeded has done.
  found-Issued :
      (id now : ℕ) (s : Stores) (found : Option RefreshToken) {x : Session}
      → (refresh_found orm crypto id now s found).0 ≡ ok x
      → (t : RefreshToken) × (found ≡ some t)
        × Issued crypto
            (filter (λ r. not (r.id == t.id)) s.refresh_tokens)
            x.refresh_token
            (refresh_found orm crypto id now s found).1.refresh_tokens
  unfolding refresh_found
  found-Issued id now s none done = cc
  found-Issued id now s (some t) done = elim (Bool-cases (ltb t.expires_at now)) [
    | inl late ↦ absurd (refused (rw late at done))
    | inr fresh ↦ (
      t,
      refl,
      rw fresh (owner-Issued id now s t (find (λ u. u.id == t.user_id) s.users) (rw fresh at done)),
    )
  ]
    where
      refused : {x : Session} → err unauthorized ≢ ok x
      refused k = cc

  unknown :
      (token : String) (id now : ℕ) (s : Stores)
      → find (has_hash (crypto.sha256 token)) s.refresh_tokens ≡ none
      → (refresh_session orm crypto token id now s).0 ≡ err unauthorized
  unfolding refresh_session refresh_found reach
  unknown token id now s e = rw (find_unique-find, e)

  -- A refresh token that has been used with success is refused from then on, if the hashes of the stored
  -- tokens are unique and the hash of the new token is another one.
  pub refresh_session-once :
      (token : String) (id now later_id later : ℕ) (s : Stores) {x : Session}
      → UniqueHashes s.refresh_tokens
      → (refresh_session orm crypto token id now s).0 ≡ ok x
      → crypto.sha256 x.refresh_token ≢ crypto.sha256 token
      → (refresh_session orm crypto token later_id later
          (refresh_session orm crypto token id now s).1).0
        ≡ err unauthorized
  unfolding refresh_session reach
  refresh_session-once token id now later_id later s u done new =
      let h = crypto.sha256 token in
      let asked = find_unique-find orm refresh_tokens (having (has_hash h)) s.refresh_tokens in
      let (t, e, (r, after, hash)) =
        found-Issued id now s
          (find_unique orm refresh_tokens (having (has_hash h)) s.refresh_tokens) done in
      unknown token later_id later (refresh_session orm crypto token id now s).1 (
        rw after (
          find-append-none (has_hash h) (filter (λ q. not (q.id == t.id)) s.refresh_tokens) r
            (gone h t.id s.refresh_tokens (one_of_hash h s.refresh_tokens u (sym asked ∙ e)))
            (other_hash h r (λ k. new (sym hash ∙ k)))))
