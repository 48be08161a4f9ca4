-- ===== src/Transactions/Ownership.antt =====
-- The transactions of one user are out of the reach of another, and a deleted one is gone.
use money_management_app.Prelude.{
  ℕ, ◌≡◌, refl, ap, ◌∙◌, true, Option, none, some, Bool-cases, inl, inr, List, ◌==◌, arith, ok, err,
  not_found, find, replace,
}
use money_management_app.Orm.Client.{Client}
use money_management_app.Orm.SoftDelete.{Action}
use money_management_app.Orm.Query.{having, live, reach, find_first, find_first-find}
use money_management_app.Orm.Rows.{UniqueIds, foreign}
use money_management_app.Orm.Owned.{
  by_id, outcome_absent, outcome_ok, outcome-foreign, find-replace-none, reach-holds,
}
use money_management_app.Transactions.Schema.{Transaction, transactions, UpdateTransactionDto}
use money_management_app.Transactions.Service.{
  References, refused, is_accepted, is_owned, apply_update, mark_deleted, find_one,
  update_transaction, delete,
}

abbrev id_of : Transaction → ℕ
id_of t = t.id

abbrev owner : Transaction → ℕ
owner t = t.user_id

pub is_owned-asks :
    (user_id id : ℕ) (t : Transaction)
    → is_owned user_id id t ≡ true
    → (t.id ≡ id) × (t.user_id ≡ user_id)
is_owned-asks user_id id t h = ground arith

pub owned-meets :
    (user_id id : ℕ) (t : Transaction)
    → reach transactions Action.find_first (having (is_owned user_id id)) t ≡ true
    → reach transactions Action.update (having (λ r. r.id == id)) t ≡ true
unfolding reach
owned-meets user_id id t h = ground arith

pub refused-rows :
    (orm : Client) (rows : List Transaction) (found : Option Transaction)
    → (refused orm rows found).1 ≡ rows
refused-rows orm rows none = refl
refused-rows orm rows (some t) = refl

-- Updating or deleting a transaction leaves the transactions of every other user as they were,
-- whether the call succeeds or fails, if ids are unique.
pub writes_isolated :
    (orm : Client) (refs : References) (user_id id now : ℕ) (dto : UpdateTransactionDto)
    (rows : List Transaction)
    → UniqueIds id_of rows
    → (foreign id_of owner user_id (update_transaction orm refs user_id id dto now rows).1
        ≡ foreign id_of owner user_id rows)
      × (foreign id_of owner user_id (delete orm user_id id now rows).1
          ≡ foreign id_of owner user_id rows)
unfolding update_transaction delete apply_update mark_deleted
writes_isolated orm refs user_id id now dto rows u = (
  elim (Bool-cases (is_accepted refs dto)) [
    | inl yes_ ↦
        rw (yes_, update_transaction)
          (outcome-foreign orm transactions id_of id (having (is_owned user_id id))
            (apply_update dto now) rows owner user_id (is_owned-asks user_id id)
            (owned-meets user_id id) (λ s. refl) u)
    | inr no_ ↦
        rw (no_, update_transaction)
          (ap (foreign id_of owner user_id) (
            refused-rows orm rows
              (find_first orm transactions (having (is_owned user_id id)) rows)))
  ],
  outcome-foreign orm transactions id_of id (having (is_owned user_id id)) (mark_deleted now) rows
      owner user_id (is_owned-asks user_id id) (owned-meets user_id id) (λ s. refl) u,
)

-- The rows after a delete that succeeded.
delete-rows :
    (orm : Client) (user_id id now : ℕ) (rows : List Transaction) {t : Transaction}
    → UniqueIds id_of rows
    → (delete orm user_id id now rows).0 ≡ ok t
    → (delete orm user_id id now rows).1
      ≡ replace
          (by_id orm transactions id_of id (having (is_owned user_id id)) (mark_deleted now) rows)
          (mark_deleted now)
          rows
unfolding delete
delete-rows orm user_id id now rows u done =
    outcome_ok orm transactions id_of id (having (is_owned user_id id)) (mark_deleted now) rows
      (λ s h.
        (is_owned-asks user_id id s
          (reach-holds transactions Action.find_first (having (is_owned user_id id)) s h)).0)
      (owned-meets user_id id) u done

module _ (user_id id now : ℕ) (rows : List Transaction) where
  abbrev rows_after : List Transaction
  rows_after =
      replace (reach transactions Action.update (having (λ r. r.id == id))) (mark_deleted now) rows

  unfound_live :
      find
        (reach transactions Action.find_first (live transactions (is_owned user_id id)))
        rows_after
      ≡ none
  unfolding reach mark_deleted
  unfound_live =
      find-replace-none
        (reach transactions Action.find_first (live transactions (is_owned user_id id)))
        (reach transactions Action.update (having (λ r. r.id == id))) (mark_deleted now) rows
        (λ s. ground arith)

  unfound :
      find (reach transactions Action.find_first (having (is_owned user_id id))) rows_after ≡ none
  unfolding reach mark_deleted
  unfound =
      find-replace-none (reach transactions Action.find_first (having (is_owned user_id id)))
        (reach transactions Action.update (having (λ r. r.id == id))) (mark_deleted now) rows
        (λ s. ground arith)

-- What is not found is neither updated nor refused by the database.
pub update_absent :
    (orm : Client) (refs : References) (user_id id now : ℕ) (dto : UpdateTransactionDto)
    (rows : List Transaction)
    → find (reach transactions Action.find_first (having (is_owned user_id id))) rows ≡ none
    → update_transaction orm refs user_id id dto now rows ≡ (err not_found, rows)
unfolding update_transaction
update_absent orm refs user_id id now dto rows e = elim (Bool-cases (is_accepted refs dto)) [
  | inl yes_ ↦
      rw (yes_, update_transaction)
        (outcome_absent orm transactions id_of id (having (is_owned user_id id))
          (apply_update dto now) rows e)
  | inr no_ ↦
      rw (no_, update_transaction)
        (ap (refused orm rows)
          (find_first-find orm transactions (having (is_owned user_id id)) rows ∙ e))
]

-- A transaction that has been deleted with success is not found any more, by any user, and can be
-- neither updated nor deleted again, if ids are unique.
pub delete_hides :
    (orm : Client) (refs : References) (user_id id now later other : ℕ) (dto : UpdateTransactionDto)
    (rows : List Transaction) {t : Transaction}
    → UniqueIds id_of rows
    → (delete orm user_id id now rows).0 ≡ ok t
    → let rows' = (delete orm user_id id now rows).1 in
      (find_one orm other id rows' ≡ err not_found)
      × (update_transaction orm refs other id dto later rows' ≡ (err not_found, rows'))
      × (delete orm other id later rows' ≡ (err not_found, rows'))
unfolding find_one delete
delete_hides orm refs user_id id now later other dto rows u done =
    rw (delete-rows orm user_id id now rows u done) (
      rw (find_first-find, unfound_live other id now rows),
      update_absent orm refs other id later dto (rows_after other id now rows)
          (unfound other id now rows),
      outcome_absent orm transactions id_of id (having (is_owned other id)) (mark_deleted later)
          (rows_after other id now rows) (unfound other id now rows),
    )
