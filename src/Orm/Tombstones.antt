-- ===== src/Orm/Tombstones.antt =====
-- What the soft-delete middleware of backend/src/config/prisma.service.ts guarantees to the
-- services.
use money_management_app.Prelude.{
  ℕ, ◌≡◌, refl, ◌≢◌, Bool, true, false, ◌&&◌, ◌||◌, not, Option, none, List, [], ◌∷◌, filter,
  replace, is_none, is_some, if◌then◌else◌, arith, Option-cases, inl, inr, ◌⊎◌,
}
use money_management_app.Orm.Client.{Client}
use money_management_app.Orm.SoftDelete.{
  Action, Where, is_soft_delete_model, is_read_action, is_write_action, is_find_unique_action,
}
use money_management_app.Orm.Query.{
  Table, reach, update_many, delete_many, update_many-replace, delete_many-filter,
}

-- The queries that the middleware rewrites: those on a soft-deletable model, by an action other
-- than create and upsert, that do not name `deletedAt`.
abbrev pub is_filtered : {R : Type 0} → Table R → Action → Where R → Bool
is_filtered t a w =
    is_soft_delete_model t.model
    && (is_find_unique_action a || is_read_action a || is_write_action a)
    && not w.names_deleted

module _ {R : Type 0} (t : Table R) (a : Action) (w : Where R) (r : R) where
  -- A rewritten query reaches exactly the rows that satisfy its condition and are not deleted; any
  -- other query reaches exactly the rows that satisfy its condition.
  pub reach_lem :
      reach t a w r
      ≡ (if is_filtered t a w then w.holds r && is_none (t.deleted_at r) else w.holds r)
  unfolding reach
  reach_lem = ground arith

  pub reach-live :
      is_filtered t a w ≡ true → reach t a w r ≡ true → (w.holds r ≡ true) × (t.deleted_at r ≡ none)
  reach-live f h = ground (arith, reach_lem)

  pub not-reach-deleted : is_filtered t a w ≡ true → t.deleted_at r ≢ none → reach t a w r ≡ false
  not-reach-deleted f d = ground (arith, reach_lem)

module _ {R : Type 0} (deleted_at : R → Option ℕ) where
  -- The deleted rows stand where they stood, as they were.
  abbrev pub KeepsDeleted : List R → List R → Type 0
  KeepsDeleted [] [] = Unit
  KeepsDeleted [] (s ∷ ss) = ⊥
  KeepsDeleted (r ∷ rs) [] = ⊥
  KeepsDeleted (r ∷ rs) (s ∷ ss) = ((deleted_at r ≡ none) ⊎ (s ≡ r)) × KeepsDeleted rs ss

  replace-KeepsDeleted :
      (p : R → Bool) (f : R → R) (rows : List R)
      → ((r : R) → deleted_at r ≢ none → p r ≡ false)
      → KeepsDeleted rows (replace p f rows)
  replace-KeepsDeleted p f [] h = tt
  replace-KeepsDeleted p f (r ∷ rows) h = (
    elim (Option-cases (deleted_at r)) [ inl e ↦ inl e | inr (d, e) ↦ inr (rw (h r (λ k. cc))) ],
    replace-KeepsDeleted p f rows h,
  )

  filter-deleted :
      (p : R → Bool) (rows : List R)
      → ((r : R) → deleted_at r ≢ none → p r ≡ false)
      → filter (λ r. is_some (deleted_at r)) (filter (λ r. not (p r)) rows)
        ≡ filter (λ r. is_some (deleted_at r)) rows
  filter-deleted p [] h = refl
  filter-deleted p (r ∷ rows) h = ground (arith, h r, filter-deleted p rows h)

-- A bulk update through the service changes no deleted row, and a bulk delete removes none, whatever
-- their condition and new values are, if the table is of a soft-deletable model and the condition
-- does not name `deletedAt`.
pub writes_keep_deleted :
    (orm : Client) {R : Type 0} (t : Table R) (w : Where R) (f : R → R) (rows : List R)
    → is_soft_delete_model t.model ≡ true
    → w.names_deleted ≡ false
    → KeepsDeleted t.deleted_at rows (update_many orm t w f rows)
      × (filter (λ r. is_some (t.deleted_at r)) (delete_many orm t w rows)
          ≡ filter (λ r. is_some (t.deleted_at r)) rows)
unfolding is_read_action is_write_action is_find_unique_action
writes_keep_deleted orm t w f rows soft plain = (
  rw (update_many-replace orm t w rows f) (
      replace-KeepsDeleted t.deleted_at (reach t Action.update_many w) f rows
        (λ r. not-reach-deleted t Action.update_many w r (ground arith))),
  rw (delete_many-filter orm t w rows) (
      filter-deleted t.deleted_at (reach t Action.delete_many w) rows
        (λ r. not-reach-deleted t Action.delete_many w r (ground arith))),
)
