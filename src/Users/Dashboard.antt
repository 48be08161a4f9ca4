-- ===== src/Users/Dashboard.antt =====
-- getDashboardStats of backend/src/modules/user/user.service.ts. `month_begin` is the first of the
-- month of the clock.
use money_management_app.Prelude.{ℕ, Bool, true, false, ◌&&◌, List, [], ◌∷◌, length, ◌==◌, leb}
use money_management_app.Prelude.Int.{ℤ, pos, ◌-ℤ◌}
use money_management_app.Prelude.Sums.{sum_of, sum_right}
use money_management_app.Orm.Client.{Client}
use money_management_app.Orm.Query.{live, having, find_all, count, aggregated}
use money_management_app.Transactions.Schema.{
  Transaction, TransactionType, transactions, credit, debit,
}
use money_management_app.Transactions.Listing.{same_type}
use money_management_app.Transactions.Statistics.{amount_of}
use money_management_app.Accounts.Schema.{Account, accounts}
use money_management_app.Subscriptions.Schema.{Subscription, subscriptions}
use money_management_app.Subscriptions.Service.{is_active_of}
use money_management_app.Notifications.Schema.{Notification, notifications}
use money_management_app.Notifications.Service.{is_unread}

pub record DashboardStats : Type 0 where
  pub total_balance : ℤ
  pub monthly_income : ℤ
  pub monthly_expense : ℤ
  pub net_savings : ℤ
  pub account_count : ℕ
  pub active_subscriptions : ℕ
  pub unread_notifications : ℕ

-- `groups.find((t) => t.type === type)?._sum.amount || 0`; a group is never empty.
unfoldable pub sum_of_type : TransactionType → List (List Transaction) → ℤ
sum_of_type type [] = pos 0
sum_of_type type ([] ∷ gs) = sum_of_type type gs
sum_of_type type ((t ∷ ts) ∷ gs) = elim (same_type t.type type) [
  | true ↦ sum_right amount_of (t ∷ ts)
  | false ↦ sum_of_type type gs
]

abbrev pub is_counted : (user_id : ℕ) → Account → Bool
is_counted user_id a = (a.user_id == user_id) && a.is_active

abbrev pub since : (user_id month_begin : ℕ) → Transaction → Bool
since user_id month_begin t = (t.user_id == user_id) && leb month_begin t.transaction_date

module _ (orm : Client) where
  unfoldable pub get_dashboard_stats :
      (user_id month_begin : ℕ)
      → List Account
      → List Transaction
      → List Subscription
      → List Notification
      → DashboardStats
  get_dashboard_stats user_id month_begin account_rows ts ss ns =
      let found = find_all orm accounts (live accounts (is_counted user_id)) account_rows in
      let groups =
        orm.group_by (λ t. t.type)
          (aggregated orm transactions (live transactions (since user_id month_begin)) ts) in
      let income = sum_of_type credit groups in
      let expense = sum_of_type debit groups in
      record {
        total_balance = sum_of (λ a. a.balance) found;
        monthly_income = income;
        monthly_expense = expense;
        net_savings = income -ℤ expense;
        account_count = length found;
        active_subscriptions =
            count orm subscriptions (live subscriptions (is_active_of user_id)) ss;
        unread_notifications = count orm notifications (having (is_unread user_id)) ns;
      }
