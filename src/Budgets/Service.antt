-- ===== src/Budgets/Service.antt =====
-- The operations of backend/src/modules/budget/budget.service.ts. `now` is the clock and `id` the uuid of
-- a new row. Reading a budget sums up the transactions of its period and stores the sum.
use money_management_app.Prelude.{
  ℕ, ◌+◌, ◌-◌, ◌*◌, ◌/◌, max, Bool, true, false, ◌&&◌, ◌||◌, not, Option, none, some, String, List,
  [], ◌∷◌, ◌==◌, ltb, leb, if◌then◌else◌, or_else, or_option, str_eq, Result, ok, err, not_found,
}
use money_management_app.Prelude.Int.{ℤ, pos, pos_part, ◌-ℤ◌, ◌*ℤ◌, ltb_ℤ, leb_ℤ}
use money_management_app.Prelude.Sums.{sum_right}
use money_management_app.Prelude.Rounding.{ceil_div, round_div, round_div_ℤ}
use money_management_app.Calendar.{day_ms, add_months, month_begin, year_begin, week_day}
use money_management_app.Orm.Client.{Client}
use money_management_app.Orm.Query.{live, having, find_first, find_all, aggregated, update}
use money_management_app.Orm.Owned.{or_not_found}
use money_management_app.Transactions.Schema.{Transaction, transactions}
use money_management_app.Transactions.Statistics.{amount_of, is_debit}
use money_management_app.Budgets.Schema.{
  Budget, BudgetPeriod, monthly, budgets, CreateBudgetDto, UpdateBudgetDto,
}

-- defaultStartDate
unfoldable pub default_start_date : BudgetPeriod → (now : ℕ) → ℕ
default_start_date BudgetPeriod.weekly now = (now / day_ms - week_day now) * day_ms
default_start_date BudgetPeriod.yearly now = year_begin now
default_start_date BudgetPeriod.monthly now = month_begin now

abbrev pub period_after : (start : ℕ) → BudgetPeriod → ℕ
period_after start BudgetPeriod.weekly = start + 7 * day_ms
period_after start BudgetPeriod.yearly = add_months 12 start
period_after start BudgetPeriod.monthly = add_months 1 start

-- computePeriodEnd; `setMilliseconds(-1)` leads to the last millisecond of the second before.
unfoldable pub compute_period_end : (start : ℕ) → BudgetPeriod → ℕ
compute_period_end start period = period_after start period / 1000 * 1000 - 1

unfoldable pub new_budget : (user_id : ℕ) → CreateBudgetDto → (id now : ℕ) → Budget
new_budget user_id dto id now =
    let period = or_else dto.period monthly in
    record {
      id = id;
      user_id = user_id;
      category_id = dto.category_id;
      name = dto.name;
      amount_limit = dto.amount_limit;
      amount_spent = pos 0;
      currency = or_else dto.currency "INR";
      period = period;
      start_date = or_else dto.start_date (default_start_date period now);
      end_date = dto.end_date;
      alert_threshold = or_else dto.alert_threshold 8000;
      is_active = true;
      rollover = or_else dto.rollover false;
      notes = dto.notes;
      deleted_at = none;
      updated_at = now;
    }

unfoldable pub apply_update : UpdateBudgetDto → (now : ℕ) → Budget → Budget
apply_update dto now b = record b {
  name = or_else dto.name b.name;
  amount_limit = or_else dto.amount_limit b.amount_limit;
  category_id = or_option dto.category_id b.category_id;
  currency = or_else dto.currency b.currency;
  period = or_else dto.period b.period;
  start_date = or_else dto.start_date b.start_date;
  end_date = or_option dto.end_date b.end_date;
  alert_threshold = or_else dto.alert_threshold b.alert_threshold;
  rollover = or_else dto.rollover b.rollover;
  notes = or_option dto.notes b.notes;
  updated_at = now;
}

unfoldable pub mark_deleted : (now : ℕ) → Budget → Budget
mark_deleted now b = record b { deleted_at = some now; updated_at = now }

unfoldable pub set_spent : ℤ → (now : ℕ) → Budget → Budget
set_spent spent now b = record b { amount_spent = spent; updated_at = now }

abbrev pub is_owned : (user_id id : ℕ) → Budget → Bool
is_owned user_id id b = (b.id == id) && (b.user_id == user_id)

abbrev pub is_shown : (user_id : ℕ) (active_only : Bool) → Budget → Bool
is_shown user_id active_only b = (b.user_id == user_id) && (not active_only || b.is_active)

abbrev pub period_end : Budget → ℕ
period_end b = or_else b.end_date (compute_period_end b.start_date b.period)

-- `if (budget.categoryId) where.categoryId = budget.categoryId`
abbrev pub category_matches : Option String → Option String → Bool
category_matches none c = true
category_matches (some k) none = str_eq k ""
category_matches (some k) (some c) = str_eq k "" || str_eq c k

-- The transactions that count for a budget.
abbrev pub is_spending : (user_id : ℕ) → Budget → Transaction → Bool
is_spending user_id b t =
    (t.user_id == user_id)
    && is_debit t
    && leb b.start_date t.transaction_date
    && leb t.transaction_date (period_end b)
    && category_matches b.category_id t.category_id

pub record BudgetView : Type 0 where
  pub budget : Budget
  pub amount_limit : ℕ
  pub amount_spent : ℤ
  pub alert_threshold : ℕ
  -- In hundredths of a percent.
  pub utilization : ℤ
  pub remaining : ℕ
  pub is_over_budget : Bool
  pub days_left : ℕ
  -- In whole units of the currency.
  pub daily_allowance : ℕ

unfoldable pub view : (spent : ℤ) (now : ℕ) → Budget → BudgetView
unfolding ceil_div
view spent now b =
    let total_days = max 1 (ceil_div (period_end b - b.start_date) day_ms) in
    let days_elapsed = max 1 (ceil_div (now - b.start_date) day_ms) in
    let days_left = total_days - days_elapsed in
    let remaining = pos_part (pos b.amount_limit -ℤ spent) in
    record {
      budget = b;
      amount_limit = b.amount_limit;
      amount_spent = spent;
      alert_threshold = b.alert_threshold;
      utilization =
          if ltb 0 b.amount_limit then round_div_ℤ (spent *ℤ pos 10000) b.amount_limit else pos 0;
      remaining = remaining;
      is_over_budget = ltb_ℤ (pos b.amount_limit) spent;
      days_left = days_left;
      daily_allowance = if ltb 0 days_left then round_div remaining (100 * days_left) else 0;
    }

abbrev pub same_amount : (a b : ℤ) → Bool
same_amount a b = leb_ℤ a b && leb_ℤ b a

module _ (orm : Client) where
  unfoldable pub amount_spent : (user_id : ℕ) → Budget → List Transaction → ℤ
  amount_spent user_id b ts =
      sum_right amount_of
        (aggregated orm transactions (live transactions (is_spending user_id b)) ts)

  -- `if (Number(budget.amountSpent) !== amountSpent)`
  unfoldable pub persist_spent :
      (spent : ℤ) (now : ℕ) → Budget → List Budget → Result Budget × List Budget
  persist_spent spent now b rows =
      if same_amount b.amount_spent spent
      then (ok b, rows)
      else update orm budgets (having (λ r. r.id == b.id)) (set_spent spent now) rows

  -- computeSpentAndSerialize
  unfoldable pub compute_spent :
      (user_id now : ℕ) → List Transaction → Budget → List Budget → Result BudgetView × List Budget
  compute_spent user_id now ts b rows =
      let spent = amount_spent user_id b ts in
      let (stored, rows') = persist_spent spent now b rows in
      elim stored [ err e ↦ (err e, rows') | ok _ ↦ (ok (view spent now b), rows') ]

  unfoldable pub create :
      (user_id : ℕ)
      → CreateBudgetDto
      → (id now : ℕ) → List Transaction
      → List Budget
      → Result BudgetView × List Budget
  create user_id dto id now ts rows =
      let b = new_budget user_id dto id now in compute_spent user_id now ts b (orm.insert b rows)

  -- The rest of a read, once the budget has been looked for.
  unfoldable pub serialize_found :
      (user_id now : ℕ)
      → List Transaction
      → List Budget
      → Result Budget
      → Result BudgetView × List Budget
  serialize_found user_id now ts rows (err e) = (err e, rows)
  serialize_found user_id now ts rows (ok b) = compute_spent user_id now ts b rows

  unfoldable pub find_one :
      (user_id id now : ℕ) → List Transaction → List Budget → Result BudgetView × List Budget
  find_one user_id id now ts rows =
      serialize_found user_id now ts rows
        (or_not_found (find_first orm budgets (live budgets (is_owned user_id id)) rows))

  -- `Promise.all` over the budgets: all of them run, and one failure fails the call.
  unfoldable pub serialize_all :
      (user_id now : ℕ)
      → List Transaction
      → List Budget
      → List Budget
      → Result (List BudgetView) × List Budget
  serialize_all user_id now ts [] rows = (ok [], rows)
  serialize_all user_id now ts (b ∷ bs) rows =
      let (first, rows') = compute_spent user_id now ts b rows in
      let (others, rows'') = serialize_all user_id now ts bs rows' in
      elim first [
        | err e ↦ (err e, rows'')
        | ok v ↦ elim others [ err e ↦ (err e, rows'') | ok vs ↦ (ok (v ∷ vs), rows'') ]
      ]

  unfoldable pub find_all_budgets :
      (user_id : ℕ) (active_only : Bool) (now : ℕ)
      → List Transaction
      → List Budget
      → Result (List BudgetView) × List Budget
  find_all_budgets user_id active_only now ts rows =
      serialize_all user_id now ts
        (orm.order_by (λ b c. leb c.start_date b.start_date)
          (find_all orm budgets (live budgets (is_shown user_id active_only)) rows))
        rows

  -- The rest of `update`, once the budget has been looked for.
  unfoldable pub update_found :
      (user_id id : ℕ)
      → UpdateBudgetDto
      → (now : ℕ) → List Transaction
      → List Budget
      → Option Budget
      → Result BudgetView × List Budget
  update_found user_id id dto now ts rows none = (err not_found, rows)
  update_found user_id id dto now ts rows (some b) =
      let (updated, rows') =
        update orm budgets (having (λ r. r.id == id)) (apply_update dto now) rows in
      serialize_found user_id now ts rows' updated

  unfoldable pub update_budget :
      (user_id id : ℕ)
      → UpdateBudgetDto
      → (now : ℕ) → List Transaction
      → List Budget
      → Result BudgetView × List Budget
  update_budget user_id id dto now ts rows =
      update_found user_id id dto now ts rows
        (find_first orm budgets (live budgets (is_owned user_id id)) rows)
