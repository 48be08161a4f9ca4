-- ===== src/Transactions/Statistics.antt =====
-- getCategories and getMonthlyStats of backend/src/modules/transaction/transaction.service.ts.
use money_management_app.Prelude.{
  ℕ, ◌+◌, ◌-◌, ◌*◌, Bool, ◌&&◌, Option, none, String, List, [], ◌∷◌, map, ◌==◌, leb, or_else,
  or_text, length, filter,
}
use money_management_app.Prelude.Int.{ℤ, ◌-ℤ◌}
use money_management_app.Prelude.Sums.{sum_of, sum_right}
use money_management_app.Calendar.{local_date}
use money_management_app.Orm.Client.{Client}
use money_management_app.Orm.Query.{live, find_all, aggregated}
use money_management_app.Transactions.Schema.{Transaction, credit, debit, transactions}
use money_management_app.Transactions.Listing.{same_type, at_least}

abbrev pub amount_of : Transaction → ℤ
amount_of t = t.amount

abbrev pub is_credit : Transaction → Bool
is_credit t = same_type t.type credit

abbrev pub is_debit : Transaction → Bool
is_debit t = same_type t.type debit

pub record CategoryTotal : Type 0 where
  pub category_id : String
  pub total_amount : ℤ
  pub transaction_count : ℕ

-- The key of a group, which is never empty.
abbrev pub group_category : List Transaction → Option String
group_category [] = none
group_category (t ∷ ts) = t.category_id

abbrev pub category_total : List Transaction → CategoryTotal
category_total group = record {
  category_id = or_text (group_category group) "Uncategorized";
  total_amount = sum_right amount_of group;
  transaction_count = length group;
}

pub record MonthlyStats : Type 0 where
  pub year : ℕ
  pub month : ℕ
  pub income : ℤ
  pub expense : ℤ
  pub net_savings : ℤ
  pub transaction_count : ℕ

module _ (orm : Client) where
  -- The debits of `getCategories`; `from` may be missing, and `to || new Date()`.
  abbrev pub is_category_row : (user_id : ℕ) (from to : Option ℕ) (now : ℕ) → Transaction → Bool
  is_category_row user_id from to now t =
      (t.user_id == user_id)
      && is_debit t
      && at_least from t.transaction_date
      && leb t.transaction_date (or_else to now)

  unfoldable pub get_categories :
      (user_id : ℕ) (from to : Option ℕ) (now : ℕ) → List Transaction → List CategoryTotal
  get_categories user_id from to now rows = map category_total (
      orm.group_by (λ t. t.category_id)
        (aggregated orm transactions (live transactions (is_category_row user_id from to now))
          rows))

  -- From the first of the month to the midnight with which its last day begins:
  -- `new Date(year, month - 1, 1)` and `new Date(year, month, 0)`.
  abbrev pub is_month_row : (user_id year month : ℕ) → Transaction → Bool
  is_month_row user_id year month t =
      (t.user_id == user_id)
      && leb (local_date (year * 12 + month - 1) 1) t.transaction_date
      && leb t.transaction_date (local_date (year * 12 + month) 0)

  unfoldable pub get_monthly_stats : (user_id year month : ℕ) → List Transaction → MonthlyStats
  get_monthly_stats user_id year month rows =
      let found =
        find_all orm transactions (live transactions (is_month_row user_id year month)) rows in
      let income = sum_of amount_of (filter is_credit found) in
      let expense = sum_of amount_of (filter is_debit found) in
      record {
        year = year;
        month = month;
        income = income;
        expense = expense;
        net_savings = income -ℤ expense;
        transaction_count = length found;
      }
