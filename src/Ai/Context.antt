-- ===== src/Ai/Context.antt =====
-- The data that backend/src/modules/ai-proxy/ai-proxy.service.ts sends to the AI service:
-- fetchTransactions, fetchSubscriptions, fetchBudgets, fetchGoals and buildUserContext. Times are
-- milliseconds; the text that `toISOString` makes of one is a parameter.
use money_management_app.Prelude.{
  ℕ, zero, suc, ◌-◌, ◌*◌, Bool, true, false, ◌&&◌, ◌||◌, Option, none, some, String, List, [], ◌++◌,
  map, length, ◌==◌, ltb, leb,
}
use money_management_app.Prelude.Int.{ℤ}
use money_management_app.Calendar.{day_ms}
use money_management_app.Orm.Client.{Client}
use money_management_app.Orm.Query.{live, find_all}
use money_management_app.Orm.Cursor.{last, page_after}
use money_management_app.Transactions.Schema.{
  Transaction, TransactionType, TransactionSource, transactions,
}
use money_management_app.Subscriptions.Schema.{Subscription, Frequency, Status, subscriptions}
use money_management_app.Budgets.Schema.{Budget, BudgetPeriod, budgets}
use money_management_app.Goals.Schema.{Goal, goals}

-- TX_PAGE_SIZE
abbrev pub tx_page_size : ℕ
tx_page_size = 1000

-- TX_HARD_CAP
abbrev pub tx_hard_cap : ℕ
tx_hard_cap = 5000

pub record TransactionView : Type 0 where
  pub id : ℕ
  pub amount : ℤ
  pub type : TransactionType
  pub category : Option String
  pub category_name : Option String
  pub merchant : Option String
  pub description : Option String
  pub date : String
  pub transaction_date : String
  pub source : TransactionSource
  pub is_impulse : Bool
  pub is_late_night : Bool
  pub is_weekend : Bool

-- The columns of a subscription that the model has.
pub record SubscriptionView : Type 0 where
  pub id : ℕ
  pub name : String
  pub merchant_name : String
  pub amount : ℤ
  pub frequency : Frequency
  pub status : Status
  pub next_billing_date : Option String

pub record BudgetView : Type 0 where
  pub id : ℕ
  pub name : String
  pub category_id : Option String
  pub amount_limit : ℕ
  pub amount_spent : ℤ
  pub period : BudgetPeriod
  pub start_date : String
  pub end_date : Option String

pub record GoalView : Type 0 where
  pub id : ℕ
  pub name : String
  pub target_amount : ℕ
  pub current_amount : ℕ
  pub target_date : Option String
  pub is_completed : Bool

pub record UserContext : Type 0 where
  pub user_id : ℕ
  pub transactions : List TransactionView
  pub subscriptions : List SubscriptionView
  pub budgets : List BudgetView
  pub goals : List GoalView

-- The tables that a context is read from.
pub record Tables : Type 0 where
  pub transaction_rows : List Transaction
  pub subscription_rows : List Subscription
  pub budget_rows : List Budget
  pub goal_rows : List Goal

-- `{ userId, transactionDate: { gte: since } }`
abbrev pub is_since : (user_id since : ℕ) → Transaction → Bool
is_since user_id since t = (t.user_id == user_id) && leb since t.transaction_date

-- `[{ transactionDate: 'desc' }, { id: 'desc' }]`
abbrev pub newest_by_id : Transaction → Transaction → Bool
newest_by_id s t =
    ltb t.transaction_date s.transaction_date
    || ((t.transaction_date == s.transaction_date) && leb t.id s.id)

module _ (iso : ℕ → String) where
  abbrev pub iso_option : Option ℕ → Option String
  iso_option none = none
  iso_option (some t) = some (iso t)

  unfoldable pub view_transaction : Transaction → TransactionView
  view_transaction t = record {
    id = t.id;
    amount = t.amount;
    type = t.type;
    category = t.category_id;
    category_name = t.category_id;
    merchant = t.merchant_name;
    description = t.description;
    date = iso t.transaction_date;
    transaction_date = iso t.transaction_date;
    source = t.source;
    is_impulse = t.is_impulse;
    is_late_night = t.is_late_night;
    is_weekend = t.is_weekend;
  }

  unfoldable pub view_subscription : Subscription → SubscriptionView
  view_subscription s = record {
    id = s.id;
    name = s.name;
    merchant_name = s.merchant_name;
    amount = s.amount;
    frequency = s.frequency;
    status = s.status;
    next_billing_date = iso_option s.next_billing_date;
  }

  unfoldable pub view_budget : Budget → BudgetView
  view_budget b = record {
    id = b.id;
    name = b.name;
    category_id = b.category_id;
    amount_limit = b.amount_limit;
    amount_spent = b.amount_spent;
    period = b.period;
    start_date = iso b.start_date;
    end_date = iso_option b.end_date;
  }

  unfoldable pub view_goal : Goal → GoalView
  view_goal g = record {
    id = g.id;
    name = g.name;
    target_amount = g.target_amount;
    current_amount = g.current_amount;
    target_date = iso_option g.target_date;
    is_completed = g.is_completed;
  }

module _ (orm : Client) where
  -- The `while` loop of fetchTransactions over the ordered rows; `none` when the fuel runs out.
  unfoldable pub fetch_pages :
      (size cap fuel : ℕ) (rows collected : List Transaction) (cursor : Option ℕ)
      → Option (List Transaction)
  fetch_pages size cap zero rows collected cursor = none
  fetch_pages size cap (suc fuel) rows collected cursor =
      let batch = page_after orm (λ t. t.id) cursor size rows in
      elim (ltb (length collected) cap) [
        | false ↦ some collected
        | true ↦ elim (last batch) [
          | none ↦ some collected
          | some t ↦ elim (ltb (length batch) size) [
            | true ↦ some (collected ++ batch)
            | false ↦ fetch_pages size cap fuel rows (collected ++ batch) (some t.id)
          ]
        ]
      ]

  -- The rows that the loop pages through.
  abbrev pub recent_transactions : (user_id days now : ℕ) → List Transaction → List Transaction
  recent_transactions user_id days now rows =
      orm.order_by newest_by_id (
        find_all orm transactions (live transactions (is_since user_id (now - days * day_ms))) rows)

  -- Six tests of the loop's condition are enough for five full pages.
  unfoldable pub fetch_rows : (user_id days now : ℕ) → List Transaction → Option (List Transaction)
  unfolding fetch_pages
  fetch_rows user_id days now rows =
      fetch_pages tx_page_size tx_hard_cap 6 (recent_transactions user_id days now rows) [] none

  module _ (iso : ℕ → String) where
    unfoldable pub fetch_transactions :
        (user_id days now : ℕ) → List Transaction → Option (List TransactionView)
    unfolding fetch_rows
    fetch_transactions user_id days now rows = elim (fetch_rows user_id days now rows) [
      | none ↦ none
      | some ts ↦ some (map (view_transaction iso) ts)
    ]

    unfoldable pub fetch_subscriptions : (user_id : ℕ) → List Subscription → List SubscriptionView
    fetch_subscriptions user_id rows =
        map (view_subscription iso)
          (find_all orm subscriptions (live subscriptions (λ s. s.user_id == user_id)) rows)

    unfoldable pub fetch_budgets : (user_id : ℕ) → List Budget → List BudgetView
    fetch_budgets user_id rows =
        map (view_budget iso)
          (find_all orm budgets (live budgets (λ b. (b.user_id == user_id) && b.is_active)) rows)

    unfoldable pub fetch_goals : (user_id : ℕ) → List Goal → List GoalView
    fetch_goals user_id rows =
        map (view_goal iso) (find_all orm goals (live goals (λ g. g.user_id == user_id)) rows)

    -- buildUserContext
    unfoldable pub build_user_context : (user_id days now : ℕ) → Tables → Option UserContext
    unfolding fetch_transactions fetch_subscriptions fetch_budgets fetch_goals
    build_user_context user_id days now db =
        elim (fetch_transactions user_id days now db.transaction_rows) [
          | none ↦ none
          | some ts ↦ some (record {
            user_id = user_id;
            transactions = ts;
            subscriptions = fetch_subscriptions user_id db.subscription_rows;
            budgets = fetch_budgets user_id db.budget_rows;
            goals = fetch_goals user_id db.goal_rows;
          })
        ]
