-- ===== src/Transactions/Service.antt =====
-- create, findOne, update and delete of backend/src/modules/transaction/transaction.service.ts.
-- `now` is the clock and `id` the uuid that the database gives a new row.
use money_management_app.Prelude.{
  ℕ, Bool, true, false, not, ◌&&◌, Option, none, some, String, List, if◌then◌else◌, ok, err,
  internal, not_found, ◌==◌, or_else, or_option, or_text, is_some, Result,
}
use money_management_app.Broker.{Event, publish_transaction_created}
use money_management_app.Orm.Client.{Client}
use money_management_app.Orm.Query.{having, live, find_first}
use money_management_app.Orm.Owned.{write_found, or_not_found}
use money_management_app.Transactions.Schema.{
  Transaction, TransactionSource, transactions, CreateTransactionDto, Field, UpdateTransactionDto,
}

-- The row that `create` inserts; the columns that it does not name have the defaults of the schema.
unfoldable pub new_transaction : (user_id : ℕ) → CreateTransactionDto → (id now : ℕ) → Transaction
new_transaction user_id dto id now = record {
  id = id;
  user_id = user_id;
  account_id = dto.account_id;
  amount = dto.amount;
  type = dto.type;
  category_id = or_option dto.category_id dto.category;
  merchant_name = or_option dto.merchant_name dto.merchant;
  description = dto.description;
  transaction_date = or_else (or_option dto.transaction_date dto.date) now;
  source = or_else dto.source TransactionSource.manual;
  ai_suggested_category = none;
  ai_suggested_merchant = none;
  ai_confidence = none;
  is_user_confirmed = false;
  external_reference_id = none;
  raw_sms_text = dto.raw_sms;
  sms_sender_id = none;
  is_subscription = is_some dto.subscription_id;
  subscription_id = dto.subscription_id;
  is_impulse = false;
  is_late_night = false;
  is_weekend = false;
  deleted_at = none;
  created_at = now;
  updated_at = now;
}

-- `{ id, userId }`
abbrev pub is_owned : (user_id id : ℕ) → Transaction → Bool
is_owned user_id id t = (t.id == id) && (t.user_id == user_id)

-- The spread of the update DTO over the row: what the DTO leaves out stays, and a null clears a column
-- that may be null.
abbrev pub or_kept : {A : Type 0} → Field A → A → A
or_kept Field.absent a = a
or_kept Field.null a = a
or_kept (Field.given b) a = b

abbrev pub or_cleared : {A : Type 0} → Field A → Option A → Option A
or_cleared Field.absent o = o
or_cleared Field.null o = none
or_cleared (Field.given b) o = some b

unfoldable pub apply_update : UpdateTransactionDto → (now : ℕ) → Transaction → Transaction
apply_update dto now t = record t {
  amount = or_kept dto.amount t.amount;
  type = or_kept dto.type t.type;
  category_id = or_cleared dto.category_id t.category_id;
  merchant_name = or_cleared dto.merchant_name t.merchant_name;
  description = or_cleared dto.description t.description;
  transaction_date = or_kept dto.transaction_date t.transaction_date;
  is_user_confirmed = or_kept dto.is_user_confirmed t.is_user_confirmed;
  updated_at = now;
}

-- The rows of other tables that the foreign keys of a transaction refer to.
pub record References : Type 0 where
  pub user_exists : ℕ → Bool
  pub account_exists : ℕ → Bool
  pub category_exists : String → Bool
  pub subscription_exists : ℕ → Bool

-- A column that is null refers to nothing.
abbrev pub refers : {A : Type 0} → (A → Bool) → Option A → Bool
refers exists none = true
refers exists (some a) = exists a

abbrev pub has_references : References → Transaction → Bool
has_references refs t =
    refs.user_exists t.user_id
    && refers refs.account_exists t.account_id
    && refers refs.category_exists t.category_id
    && refers refs.subscription_exists t.subscription_id

abbrev pub is_null : {A : Type 0} → Field A → Bool
is_null Field.null = true
is_null _ = false

-- What the database takes of an update: no null for a column that needs a value, and a category that
-- exists.
unfoldable pub is_accepted : References → UpdateTransactionDto → Bool
is_accepted refs dto =
    not (is_null dto.amount)
    && not (is_null dto.type)
    && not (is_null dto.transaction_date)
    && not (is_null dto.is_user_confirmed)
    && refers refs.category_exists (or_cleared dto.category_id none)

unfoldable pub mark_deleted : (now : ℕ) → Transaction → Transaction
mark_deleted now t = record t { deleted_at = some now; updated_at = now }

module _ (orm : Client) where
  -- A foreign key that refers to nothing is an error of the database, and no event is published.
  unfoldable pub create :
      (refs : References) (accepts : Event → Bool) (user_id : ℕ)
      → CreateTransactionDto
      → (id now : ℕ) → List Transaction × List Event
      → Result Transaction × List Transaction × List Event
  unfolding new_transaction publish_transaction_created
  create refs accepts user_id dto id now (rows, queue) =
      let t = new_transaction user_id dto id now in
      if has_references refs t
      then (
        ok t,
        orm.insert t rows,
        publish_transaction_created accepts t.id user_id t.amount (or_text t.category_id "UNKNOWN")
            queue,
      )
      else (err internal, rows, queue)

  unfoldable pub find_one : (user_id id : ℕ) → List Transaction → Result Transaction
  find_one user_id id rows =
      or_not_found (find_first orm transactions (live transactions (is_owned user_id id)) rows)

  -- An update that the database does not take.
  abbrev pub refused : List Transaction → Option Transaction → Result Transaction × List Transaction
  refused rows none = (err not_found, rows)
  refused rows (some t) = (err internal, rows)

  unfoldable pub update_transaction :
      (refs : References) (user_id id : ℕ)
      → UpdateTransactionDto
      → (now : ℕ) → List Transaction
      → Result Transaction × List Transaction
  unfolding write_found apply_update is_accepted
  update_transaction refs user_id id dto now rows =
      let found = find_first orm transactions (having (is_owned user_id id)) rows in
      if is_accepted refs dto
      then write_found orm transactions (λ t. t.id) id (apply_update dto now) rows found
      else refused rows found

  unfoldable pub delete :
      (user_id id now : ℕ) → List Transaction → Result Transaction × List Transaction
  unfolding write_found mark_deleted
  delete user_id id now rows =
      write_found orm transactions (λ t. t.id) id (mark_deleted now) rows
        (find_first orm transactions (having (is_owned user_id id)) rows)
