-- ===== src/Transactions/Listing.antt =====
-- findAll and search of backend/src/modules/transaction/transaction.service.ts.
use money_management_app.Prelude.{
  ℕ, ◌+◌, ◌-◌, ◌*◌, ◌/◌, Bool, true, false, ◌&&◌, ◌||◌, Option, none, some, String, List, ◌==◌, ltb,
  leb, if◌then◌else◌, or_option, str_eq,
}
use money_management_app.Prelude.Int.{ℤ, pos, negsuc, pos_part, leb_ℤ, max_ℤ, min_ℤ}
use money_management_app.Orm.Client.{Client}
use money_management_app.Orm.Query.{live, find_all, count}
use money_management_app.Transactions.Schema.{
  Transaction, TransactionType, credit, debit, transactions, QueryNumber, TransactionsFilterDto,
}

abbrev pub same_type : TransactionType → TransactionType → Bool
same_type credit credit = true
same_type debit debit = true
same_type _ _ = false

-- A bound that is only applied when it is given.
abbrev pub at_least : Option ℕ → ℕ → Bool
at_least none n = true
at_least (some lo) n = leb lo n

abbrev pub at_most : Option ℕ → ℕ → Bool
at_most none n = true
at_most (some hi) n = leb n hi

-- `Number(q) || d`: 0 and NaN count as missing.
abbrev pub number_or : QueryNumber → ℤ → ℤ
number_or QueryNumber.missing d = d
number_or QueryNumber.nan d = d
number_or (QueryNumber.num (pos n)) d = if n == 0 then d else pos n
number_or (QueryNumber.num (negsuc n)) d = negsuc n

-- A column is compared with a text only when the text is given and not empty.
abbrev pub category_matches : Option String → Option String → Bool
category_matches none column = true
category_matches (some c) none = str_eq c ""
category_matches (some c) (some d) = str_eq c "" || str_eq d c

abbrev pub type_matches : Option TransactionType → TransactionType → Bool
type_matches none ty = true
type_matches (some want) ty = same_type ty want

abbrev pub amount_matches : (lo hi : Option ℤ) → ℤ → Bool
amount_matches none none a = true
amount_matches (some lo) none a = leb_ℤ lo a
amount_matches none (some hi) a = leb_ℤ a hi
amount_matches (some lo) (some hi) a = leb_ℤ lo a && leb_ℤ a hi

-- `Math.min(Math.max(Number(filters.limit) || 20, 1), 100)`
unfoldable pub page_limit : TransactionsFilterDto → ℕ
page_limit filters = pos_part (min_ℤ (max_ℤ (number_or filters.limit (pos 20)) (pos 1)) (pos 100))

-- The page of an `offset`, when no page is asked for.
abbrev pub offset_page : (limit : ℕ) → QueryNumber → ℕ
offset_page limit QueryNumber.missing = 1
offset_page limit offset = pos_part (max_ℤ (number_or offset (pos 0)) (pos 0)) / limit + 1

unfoldable pub page_number : TransactionsFilterDto → (limit : ℕ) → ℕ
page_number filters limit = elim filters.page [
  | QueryNumber.missing ↦ offset_page limit filters.offset
  | page ↦ pos_part (max_ℤ (number_or page (pos 1)) (pos 1))
]

pub record PageMeta : Type 0 where
  pub total : ℕ
  pub page : ℕ
  pub limit : ℕ
  pub total_pages : ℕ
  pub has_next_page : Bool
  pub has_previous_page : Bool

-- `orderBy: { transactionDate: 'desc' }`
abbrev pub newest_first : Transaction → Transaction → Bool
newest_first s t = leb t.transaction_date s.transaction_date

module _ (orm : Client) where
  -- `column: { contains: text, mode: 'insensitive' }` does not hold of a null column.
  abbrev pub column_contains : String → Option String → Bool
  column_contains text none = false
  column_contains text (some s) = orm.contains_insensitive s text

  abbrev pub text_matches : String → Transaction → Bool
  text_matches text t = column_contains text t.description || column_contains text t.merchant_name

  abbrev pub search_matches : Option String → Transaction → Bool
  search_matches none t = true
  search_matches (some text) t = str_eq text "" || text_matches text t

  -- The `where` that `findAll` puts together from the filters.
  unfoldable pub matches_filters : (user_id : ℕ) → TransactionsFilterDto → Transaction → Bool
  matches_filters user_id filters t =
      (t.user_id == user_id)
      && at_least (or_option filters.from filters.start_date) t.transaction_date
      && at_most (or_option filters.to filters.end_date) t.transaction_date
      && category_matches (or_option filters.category_id filters.category) t.category_id
      && type_matches filters.type t.type
      && amount_matches filters.min_amount filters.max_amount t.amount
      && search_matches filters.search t

  unfoldable pub find_all_transactions :
      (user_id : ℕ) → TransactionsFilterDto → List Transaction → List Transaction × PageMeta
  unfolding page_limit page_number matches_filters
  find_all_transactions user_id filters rows =
      let condition = live transactions (matches_filters user_id filters) in
      let limit = page_limit filters in
      let page = page_number filters limit in
      let skip = (page - 1) * limit in
      let total = count orm transactions condition rows in
      let total_pages = (total + limit - 1) / limit in
      (
        orm.slice skip limit (orm.order_by newest_first (find_all orm transactions condition rows)),
        record {
          total = total;
          page = page;
          limit = limit;
          total_pages = total_pages;
          has_next_page = ltb page total_pages;
          has_previous_page = ltb 1 page;
        },
      )

  unfoldable pub search :
      (user_id : ℕ) (query : String) (limit : ℕ) → List Transaction → List Transaction
  search user_id query limit rows = orm.slice 0 limit (
      orm.order_by newest_first (
        find_all orm transactions
          (live transactions (λ t. (t.user_id == user_id) && text_matches query t)) rows))
