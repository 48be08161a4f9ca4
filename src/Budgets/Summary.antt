-- ===== src/Budgets/Summary.antt =====
-- delete and getSummary of backend/src/modules/budget/budget.service.ts.
use money_management_app.Prelude.{ℕ, Bool, true, ◌&&◌, List, map, length, filter, Result, ok, err}
use money_management_app.Prelude.Int.{ℤ, pos, ◌-ℤ◌, ltb_ℤ, leb_ℤ}
use money_management_app.Prelude.Sums.{sum_of}
use money_management_app.Orm.Client.{Client}
use money_management_app.Orm.Query.{live, find_first}
use money_management_app.Orm.Owned.{write_found}
use money_management_app.Transactions.Schema.{Transaction}
use money_management_app.Budgets.Schema.{Budget, budgets}
use money_management_app.Budgets.Service.{BudgetView, is_owned, mark_deleted, find_all_budgets}

abbrev pub is_over : BudgetView → Bool
is_over v = ltb_ℤ (pos v.amount_limit) v.amount_spent

-- `b.amountSpent <= b.amountLimit && b.utilization >= b.alertThreshold * 100`, both of which are in
-- hundredths of a percent.
abbrev pub is_near : BudgetView → Bool
is_near v = leb_ℤ v.amount_spent (pos v.amount_limit) && leb_ℤ (pos v.alert_threshold) v.utilization

pub record BudgetSummary : Type 0 where
  pub total_budgets : ℕ
  pub total_limit : ℤ
  pub total_spent : ℤ
  pub remaining : ℤ
  pub over_budget_count : ℕ
  pub near_limit_count : ℕ
  -- The id and `exceededBy` of each budget that is exceeded.
  pub over_budget : List (ℕ × ℤ)
  pub budgets : List BudgetView

unfoldable pub summarize : List BudgetView → BudgetSummary
summarize views =
    let total_limit = sum_of (λ v. pos v.amount_limit) views in
    let total_spent = sum_of (λ v. v.amount_spent) views in
    record {
      total_budgets = length views;
      total_limit = total_limit;
      total_spent = total_spent;
      remaining = total_limit -ℤ total_spent;
      over_budget_count = length (filter is_over views);
      near_limit_count = length (filter is_near views);
      over_budget =
          map (λ v. (v.budget.id, v.amount_spent -ℤ pos v.amount_limit)) (filter is_over views);
      budgets = views;
    }

module _ (orm : Client) where
  unfoldable pub delete : (user_id id now : ℕ) → List Budget → Result Budget × List Budget
  unfolding write_found
  delete user_id id now rows =
      write_found orm budgets (λ b. b.id) id (mark_deleted now) rows
        (find_first orm budgets (live budgets (is_owned user_id id)) rows)

  unfoldable pub get_summary :
      (user_id now : ℕ) → List Transaction → List Budget → Result BudgetSummary × List Budget
  get_summary user_id now ts rows =
      let (found, rows') = find_all_budgets orm user_id true now ts rows in
      elim found [ err e ↦ (err e, rows') | ok views ↦ (ok (summarize views), rows') ]
