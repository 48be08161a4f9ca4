-- ===== src/Tests/Data.antt =====
-- A client on lists, and a few rows.
use money_management_app.Prelude.{
  ℕ, ◌+◌, ◌*◌, ◌/◌, if◌then◌else◌, ◌≡◌, refl, ap, ◌≢◌, Bool, true, false, none, some, List, [], ◌∷◌,
  ◌++◌, filter, replace, not, take, drop, flatten, All, str_eq, ◌==◌, ◌||◌,
}
use mathlib.Core.List.Perm.{refl as perm_refl}
use money_management_app.Prelude.Int.{pos}
use money_management_app.Calendar.{day_ms}
use money_management_app.Orm.Client.{Client}
use money_management_app.Transactions.Service.{References}
use money_management_app.Transactions.Schema.{
  Transaction, TransactionSource, credit, debit, Field, UpdateTransactionDto, TransactionsFilterDto,
  QueryNumber,
}

abbrev pub singles : {R : Type 0} → List R → List (List R)
singles [] = []
singles (r ∷ rows) = (r ∷ []) ∷ singles rows

pub flatten-singles : {R : Type 0} (rows : List R) → flatten (singles rows) ≡ rows
unfolding flatten
flatten-singles [] = refl
flatten-singles (r ∷ rows) = ap (λ l. r ∷ l) (flatten-singles rows)

pub singles-same :
    {R K : Type 0} (key : R → K) (rows : List R)
    → All (λ g. All (λ r. All (λ s. key r ≡ key s) g) g × (g ≢ [])) (singles rows)
singles-same key [] = tt
singles-same key (r ∷ rows) = ((((refl, tt), tt), (λ e. cc)), singles-same key rows)

abbrev pub from_first : {R : Type 0} → (R → Bool) → List R → List R
from_first p [] = []
from_first p (r ∷ rows) = if p r then r ∷ rows else from_first p rows

pub from_first-split :
    {R : Type 0} (p : R → Bool) (before : List R) (row : R) (later : List R)
    → All (λ r. p r ≡ false) before
    → p row ≡ true
    → from_first p (before ++ row ∷ later) ≡ row ∷ later
from_first-split p [] row later h e = rw e
from_first-split p (r ∷ before) row later h e = rw (h.0) (from_first-split p before row later h.1 e)

-- It keeps the order of the rows, and puts each row into a group of its own.
abbrev pub list_client : Client
list_client = record {
  find_many = filter;
  insert = λ row rows. rows ++ row ∷ [];
  update_many = replace;
  delete_many = λ p rows. filter (λ r. not (p r)) rows;
  order_by = λ le rows. rows;
  slice = λ skip n rows. take n (drop skip rows);
  cursor = from_first;
  group_by = λ key rows. singles rows;
  contains_insensitive = str_eq;
  find_many-filter = λ p rows. refl;
  insert-append = λ row rows. refl;
  update_many-replace = λ p f rows. refl;
  delete_many-filter = λ p rows. refl;
  order_by-perm = λ le rows. perm_refl rows;
  slice-take-drop = λ skip n rows. refl;
  cursor-split = from_first-split;
  group_by-perm = λ key rows. rw (flatten-singles rows) (perm_refl rows);
  group_by-same = singles-same;
}

abbrev pub payment : (id user_id amount : ℕ) (spent : Bool) (date : ℕ) → Transaction
payment id user_id amount spent date = record {
  id = id;
  user_id = user_id;
  account_id = none;
  amount = pos amount;
  type = if spent then debit else credit;
  category_id = some "FOOD_DINING";
  merchant_name = some "Swiggy";
  description = none;
  transaction_date = date;
  source = TransactionSource.manual;
  ai_suggested_category = none;
  ai_suggested_merchant = none;
  ai_confidence = none;
  is_user_confirmed = false;
  external_reference_id = none;
  raw_sms_text = none;
  sms_sender_id = none;
  is_subscription = false;
  subscription_id = none;
  is_impulse = false;
  is_late_night = false;
  is_weekend = false;
  deleted_at = none;
  created_at = 0;
  updated_at = 0;
}

-- Noon of 31 January and of 10 January of the year 2, in days of that year.
abbrev pub late_noon : ℕ
late_noon = (365 + 30) * day_ms + day_ms / 2

abbrev pub early_noon : ℕ
early_noon = (365 + 9) * day_ms + day_ms / 2

-- Two payments of user 7 and one of user 8.
abbrev pub ledger : List Transaction
ledger =
    payment 1 7 45000 true early_noon
    ∷ payment 2 8 9900 true early_noon
    ∷ payment 3 7 800000 false early_noon
    ∷ []

abbrev pub new_category : UpdateTransactionDto
new_category = record {
  amount = Field.given (pos 100);
  type = Field.absent;
  category_id = Field.given "food";
  merchant_name = Field.null;
  description = Field.absent;
  transaction_date = Field.absent;
  is_user_confirmed = Field.given true;
}

-- Users 7 and 8 and one category.
abbrev pub refs : References
refs = record {
  user_exists = λ u. (u == 7) || (u == 8);
  account_exists = λ a. false;
  category_exists = λ c. str_eq c "food";
  subscription_exists = λ s. false;
}

abbrev pub no_filters : TransactionsFilterDto
no_filters = record {
  from = none;
  to = none;
  start_date = none;
  end_date = none;
  type = none;
  category = none;
  category_id = none;
  search = none;
  page = QueryNumber.missing;
  limit = QueryNumber.num (pos 1);
  offset = QueryNumber.missing;
  min_amount = none;
  max_amount = none;
}
