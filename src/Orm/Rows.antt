-- ===== src/Orm/Rows.antt =====
-- Rows that are addressed by a unique id and belong to a user: what a write to one of them leaves
-- alone.
use money_management_app.Prelude.{
  ℕ, ◌≡◌, refl, sym, ◌∙◌, ◌≢◌, Bool, true, not, some, List, [], ◌∷◌, filter, find, replace, All,
  find-All, find-passes, All-map, ◌==◌, if◌then◌else◌, Bool-cases, inl, inr, arith,
}

module _ {R : Type 0} (id_of : R → ℕ) where
  -- The primary key: no two rows share an id.
  abbrev pub UniqueIds : List R → Type 0
  UniqueIds [] = Unit
  UniqueIds (r ∷ rows) = All (λ s. id_of s ≢ id_of r) rows × UniqueIds rows

  pub All-replace :
      (P : R → Type 0) (p : R → Bool) (f : R → R) (rows : List R)
      → ((r : R) → P r → P (f r))
      → All P rows
      → All P (replace p f rows)
  All-replace P p f [] keep h = tt
  All-replace P p f (r ∷ rows) keep h =
      (ground (arith, keep r h.0), All-replace P p f rows keep h.1)

  -- Writes that keep the ids keep them unique.
  pub UniqueIds-replace :
      (p : R → Bool) (f : R → R) (rows : List R)
      → ((r : R) → id_of (f r) ≡ id_of r)
      → UniqueIds rows
      → UniqueIds (replace p f rows)
  UniqueIds-replace p f [] keep h = tt
  UniqueIds-replace p f (r ∷ rows) keep h = (
    rw (ids r) (All-replace (λ s. id_of s ≢ id_of r) p f rows (λ s k. rw (keep s) k) h.0),
    UniqueIds-replace p f rows keep h.1,
  )
    where
      ids : (s : R) → id_of (if p s then f s else s) ≡ id_of s
      ids s = ground (arith, keep s)

  module _ (owner : R → ℕ) (user i : ℕ) where
    -- The row of this id belongs to this user.
    abbrev pub Owned : R → Type 0
    Owned r = id_of r ≡ i → owner r ≡ user

    pub Owned-find :
        (p : R → Bool) (rows : List R) {r : R}
        → ((s : R) → p s ≡ true → (id_of s ≡ i) × (owner s ≡ user))
        → UniqueIds rows
        → find p rows ≡ some r
        → All Owned rows
    Owned-find p [] own u e = tt
    Owned-find p (x ∷ rows) {r} own u e = elim (Bool-cases (p x)) [
      | inl here ↦ (
        (λ _. (own x here).1),
        All-map (λ s ne same. absurd (ne (same ∙ sym (own x here).0))) rows u.0,
      )
      | inr there ↦
          let e' : find p rows ≡ some r = rw there at e in
          let away = find-All (λ s. id_of s ≢ id_of x) p rows e' u.0 in
          let same = own r (find-passes p rows e') in
          (λ k. absurd (away (same.0 ∙ sym k)), Owned-find p rows own u.1 e')
    ]

  -- The rows of the other users.
  abbrev pub foreign : (R → ℕ) → ℕ → List R → List R
  foreign owner user rows = filter (λ r. not (owner r == user)) rows

  -- A write to rows of this id, which belong to the user, leaves those of all others as they are.
  pub foreign-replace :
      (owner : R → ℕ) (user : ℕ) (p : R → Bool) (f : R → R) (rows : List R)
      → ((r : R) → owner (f r) ≡ owner r)
      → All (λ r. p r ≡ true → owner r ≡ user) rows
      → foreign owner user (replace p f rows) ≡ foreign owner user rows
  foreign-replace owner user p f [] keep h = refl
  foreign-replace owner user p f (r ∷ rows) keep h =
      ground (arith, keep r, h.0, foreign-replace owner user p f rows keep h.1)

  pub foreign-filter :
      (owner : R → ℕ) (user : ℕ) (p : R → Bool) (rows : List R)
      → All (λ r. p r ≡ true → owner r ≡ user) rows
      → foreign owner user (filter (λ r. not (p r)) rows) ≡ foreign owner user rows
  foreign-filter owner user p [] h = refl
  foreign-filter owner user p (r ∷ rows) h =
      ground (arith, h.0, foreign-filter owner user p rows h.1)
