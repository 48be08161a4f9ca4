-- ===== src/Orm/Owned.antt =====
-- The pattern of the services' handlers: `findFirst` on the id and the user, a NotFoundException if
-- there is no such row, and a write to the row of this id.
use money_management_app.Prelude.{
  ℕ, ◌≡◌, refl, ap, sym, ◌∙◌, ◌≢◌, Bool, true, false, Option, none, some, List, [], ◌∷◌, find,
  replace, find-All, find-passes, All-map, ◌==◌, ==_iff, if◌then◌else◌, Bool-cases, Option-cases,
  inl, inr, arith, Result, ok, err, not_found,
}
use money_management_app.Orm.Client.{Client}
use money_management_app.Orm.SoftDelete.{Action, Where}
use money_management_app.Orm.Tombstones.{reach_lem}
use money_management_app.Orm.Query.{
  Table, having, reach, find_first, update, find_first-find, update-written,
}
use money_management_app.Orm.Rows.{
  UniqueIds, UniqueIds-replace, Owned-find, foreign, foreign-replace,
}

-- `if (!row) throw new NotFoundException(...)`
abbrev pub or_not_found : {R : Type 0} → Option R → Result R
or_not_found none = err not_found
or_not_found (some r) = ok r

-- The write, once the row has been looked for: `update({ where: { id }, data })`.
unfoldable pub write_found :
    (orm : Client) {R : Type 0}
    → Table R
    → (R → ℕ)
    → (id : ℕ) → (R → R)
    → List R
    → Option R
    → Result R × List R
write_found orm t id_of id f rows none = (err not_found, rows)
write_found orm t id_of id f rows (some r) = update orm t (having (λ s. id_of s == id)) f rows

module _ {R : Type 0} (id_of : R → ℕ) where
  -- Two conditions on one id find the same row.
  pub find_same :
      (p q : R → Bool) (i : ℕ) (rows : List R) {r : R}
      → ((s : R) → p s ≡ true → id_of s ≡ i)
      → ((s : R) → q s ≡ true → id_of s ≡ i)
      → UniqueIds id_of rows
      → q r ≡ true
      → find p rows ≡ some r
      → find q rows ≡ some r
  find_same p q i [] hp hq u k e = cc
  find_same p q i (x ∷ rows) {r} hp hq u k e = elim (Bool-cases (p x)) [
    | inl here ↦ ground arith
    | inr there ↦
        let e' : find p rows ≡ some r = rw there at e in
        let away = find-All (λ s. id_of s ≢ id_of x) p rows e' u.0 in
        let same = hp r (find-passes p rows e') in
        elim (Bool-cases (q x)) [
          | inl clash ↦ absurd (away (same ∙ sym (hq x clash)))
          | inr other ↦ rw other (find_same p q i rows hp hq u.1 k e')
        ]
  ]

pub reach-holds :
    {R : Type 0} (t : Table R) (a : Action) (w : Where R) (r : R)
    → reach t a w r ≡ true
    → w.holds r ≡ true
reach-holds t a w r h = ground (arith, reach_lem t a w r)

module _ (orm : Client) {R : Type 0} (t : Table R) (id_of : R → ℕ) (i : ℕ) (w : Where R) (f : R → R)
    (rows : List R) where
  -- The handler as a whole.
  abbrev pub outcome : Result R × List R
  outcome = write_found orm t id_of i f rows (find_first orm t w rows)

  -- The condition of the write.
  abbrev pub by_id : R → Bool
  by_id = reach t Action.update (having (λ r. id_of r == i))

  pub outcome_absent :
      find (reach t Action.find_first w) rows ≡ none → outcome ≡ (err not_found, rows)
  unfolding write_found
  outcome_absent e = rw (find_first-find, e)

  pub outcome_found :
      {r : R}
      → ((s : R) → reach t Action.find_first w s ≡ true → id_of s ≡ i)
      → ((s : R) → reach t Action.find_first w s ≡ true → by_id s ≡ true)
      → UniqueIds id_of rows
      → find (reach t Action.find_first w) rows ≡ some r
      → outcome ≡ (ok (f r), replace by_id f rows)
  unfolding write_found
  outcome_found {r} asks meets u e =
      let again =
        find_same id_of (reach t Action.find_first w) by_id i rows asks
          (λ s h.
            (==_iff (id_of s) i).0 (reach-holds t Action.update (having (λ r. id_of r == i)) s h))
          u (meets r (find-passes (reach t Action.find_first w) rows e)) e in
      rw (find_first-find, e) (rw (update-written, again))

  -- The rows after a write that succeeded.
  pub outcome_ok :
      {r : R}
      → ((s : R) → reach t Action.find_first w s ≡ true → id_of s ≡ i)
      → ((s : R) → reach t Action.find_first w s ≡ true → by_id s ≡ true)
      → UniqueIds id_of rows
      → outcome.0 ≡ ok r
      → outcome.1 ≡ replace by_id f rows
  outcome_ok {r} asks meets u done = elim (Option-cases (find (reach t Action.find_first w) rows)) [
    | inl e ↦ cc (ap (λ o. o.0) (outcome_absent e))
    | inr (q, e) ↦ ap (λ o. o.1) (outcome_found asks meets u e)
  ]

  module _ (owner : R → ℕ) (user : ℕ)
      (asks : (s : R) → w.holds s ≡ true → (id_of s ≡ i) × (owner s ≡ user))
      (meets : (s : R) → reach t Action.find_first w s ≡ true → by_id s ≡ true) where
    -- The rows of the other users stay as they are.
    pub outcome-foreign :
        ((s : R) → owner (f s) ≡ owner s)
        → UniqueIds id_of rows
        → foreign id_of owner user outcome.1 ≡ foreign id_of owner user rows
    outcome-foreign keep u = elim (Option-cases (find (reach t Action.find_first w) rows)) [
      | inl e ↦ rw (outcome_absent e)
      | inr (r, e) ↦ rw (outcome_found (λ s h. (asks s (reach-holds t _ w s h)).0) meets u e) (
          foreign-replace id_of owner user by_id f rows keep (
            All-map (λ s own h. own ((==_iff (id_of s) i).0 (reach-holds t _ _ s h))) rows
              (Owned-find id_of owner user i (reach t Action.find_first w) rows
                (λ s h. asks s (reach-holds t _ w s h)) u e)))
    ]

    pub outcome-UniqueIds :
        ((s : R) → id_of (f s) ≡ id_of s) → UniqueIds id_of rows → UniqueIds id_of outcome.1
    outcome-UniqueIds keep u = elim (Option-cases (find (reach t Action.find_first w) rows)) [
      | inl e ↦ rw (outcome_absent e) u
      | inr (r, e) ↦
          rw (outcome_found (λ s h. (asks s (reach-holds t _ w s h)).0) meets u e)
            (UniqueIds-replace id_of by_id f rows keep u)
    ]

pub find-replace-none :
    {R : Type 0} (q p : R → Bool) (f : R → R) (rows : List R)
    → ((s : R) → q (if p s then f s else s) ≡ false)
    → find q (replace p f rows) ≡ none
find-replace-none q p f [] h = refl
find-replace-none q p f (r ∷ rows) h = rw (h r) (find-replace-none q p f rows h)

-- A write that keeps what the query asks for leaves the row where the query finds it.
pub find-replace :
    {R : Type 0} (q p : R → Bool) (f : R → R) (rows : List R) {r : R}
    → ((s : R) → q (f s) ≡ q s)
    → p r ≡ true
    → find q rows ≡ some r
    → find q (replace p f rows) ≡ some (f r)
find-replace {R} q p f [] keep k e = cc
find-replace {R} q p f (x ∷ rows) {r} keep k e = elim (Bool-cases (q x)) [
  | inl here ↦ ground (arith, keep x)
  | inr there ↦ rw (same x there) (find-replace q p f rows {r = r} keep k (rw there at e))
]
  where
    same : (s : R) → q s ≡ false → q (if p s then f s else s) ≡ false
    same s no' = ground (arith, keep s)
