-- ===== src/Tests/Weekly.antt =====
-- Weekly summaries at concrete inputs.
use money_management_app.Prelude.{
  ◌+◌, ◌≡◌, refl, true, false, not, List, [], ◌∷◌, filter, length, Result, ok, err, internal, arith,
}
use money_management_app.Prelude.Int.{◌+ℤ◌, ◌-ℤ◌}
use money_management_app.Calendar.{week_day}
use money_management_app.Transactions.Schema.{Transaction}
use money_management_app.Ai.Json.{Json}
use money_management_app.Weekly.Schema.{WeeklySummary}
use money_management_app.Orm.SoftDelete.{
  is_soft_delete_model, is_read_action, is_write_action, with_live, on_read_or_write, middleware,
}
use money_management_app.Orm.Query.{reach, find_all}
use money_management_app.Weekly.Totals.{
  aggregate, aggregate_from, add_entry, group_entries, insert_by_amount, sort_by_amount,
  top_by_group, compute_behavior_insights, current_week_range,
}
use money_management_app.Weekly.Service.{
  is_week, week_data, summary_of, upsert_week, store_week, generate_for_range, generate,
  get_or_generate_current,
}
use money_management_app.Weekly.Weeks.{generate-one_week}
use money_management_app.Weekly.Overspent.{generate-overspent}
use money_management_app.Tests.Data.{list_client, ledger, payment, early_noon}

abbrev unavailable : Result Json
unavailable = err internal

-- The summary of user 7 for the week of the ledger, under the id 5.
abbrev expected : WeeklySummary
expected =
    let week = current_week_range early_noon in
    week_data list_client unavailable 7 week.week_start week.week_end ledger 5

generate-one_week_example :
    let after = (generate list_client unavailable 7 5 early_noon ledger []).1 in
    let p = is_week 7 (current_week_range early_noon).week_start in
    (length (filter p after) ≡ 1)
    × (filter (λ r. not (p r)) after ≡ filter (λ r. not (p r)) [])
    × (get_or_generate_current list_client (ok Json.null) 7 6 (early_noon + 1) [] after
        ≡ (ok expected, after))
unfolding week_day find_all reach middleware on_read_or_write with_live is_soft_delete_model
    is_read_action is_write_action generate generate_for_range store_week upsert_week summary_of
    current_week_range aggregate aggregate_from top_by_group group_entries sort_by_amount
    insert_by_amount add_entry compute_behavior_insights ◌-ℤ◌ ◌+ℤ◌
generate-one_week_example =
    generate-one_week list_client unavailable (ok Json.null) 7 5 6 early_noon (early_noon + 1)
      ledger [] [] (omega arith) refl refl

-- A pocket money of 10 and a purchase of 200.
abbrev spree : List Transaction
spree = payment 1 7 20000 true early_noon ∷ payment 2 7 1000 false early_noon ∷ []

generate-overspent_example :
    generate list_client unavailable 7 5 early_noon spree [] ≡ (err internal, [])
unfolding week_day find_all reach middleware on_read_or_write with_live is_soft_delete_model
    is_read_action is_write_action current_week_range aggregate aggregate_from ◌+ℤ◌
generate-overspent_example =
    generate-overspent list_client unavailable 7 5 early_noon spree [] 1000 20000 refl (omega arith)
      (omega arith)
