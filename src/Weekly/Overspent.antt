-- ===== src/Weekly/Overspent.antt =====
-- Weeks whose savings rate the database does not hold.
use money_management_app.Prelude.{ℕ, ◌*◌, ◌≤◌, ◌<◌, ◌≡◌, false, List, Result, err, internal, arith}
use money_management_app.Prelude.Int.{pos, ◌-ℤ◌}
use money_management_app.Orm.Client.{Client}
use money_management_app.Orm.Query.{live, find_all}
use money_management_app.Transactions.Schema.{Transaction, transactions}
use money_management_app.Ai.Json.{Json}
use money_management_app.Weekly.Schema.{Totals, WeeklySummary}
use money_management_app.Weekly.Totals.{aggregate, current_week_range}
use money_management_app.Weekly.Service.{
  is_between, oldest_first, rate_of, rate_fits, summary_of, store_week, generate_for_range,
  generate,
}

rate-overspent :
    (i s : ℕ)
    → 0 < i
    → 11 * i ≤ s
    → rate_fits (rate_of (record { total_spent = pos s; total_income = pos i })) ≡ false
unfolding ◌-ℤ◌
rate-overspent i s some_income more = ground arith

module _ (orm : Client) (answer : Result Json) (user_id fresh now : ℕ) (txns : List Transaction)
    (rows : List WeeklySummary) where
  -- The totals of the present week of the user.
  abbrev pub week_totals : Totals
  week_totals =
      let week = current_week_range now in
      aggregate (
        orm.order_by oldest_first (
          find_all orm transactions
            (live transactions (is_between user_id week.week_start week.week_end)) txns))

  -- A week in which eleven times the income or more is spent, some income being there, has no summary: its
  -- savings rate does not fit the column, so the generation fails, whatever the AI service says, and stores
  -- nothing.
  pub generate-overspent :
      (income spent : ℕ)
      → week_totals ≡ record { total_spent = pos spent; total_income = pos income }
      → 0 < income
      → 11 * income ≤ spent
      → generate orm answer user_id fresh now txns rows ≡ (err internal, rows)
  unfolding generate generate_for_range store_week summary_of
  generate-overspent income spent e some_income more =
      let large : rate_fits (rate_of week_totals) ≡ false =
        rw e (rate-overspent income spent some_income more) in
      rw large
