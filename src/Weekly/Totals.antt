-- ===== src/Weekly/Totals.antt =====
-- What backend/src/modules/weekly-summary/weekly-summary.service.ts computes from the transactions of a
-- week: aggregate, topByGroup and computeBehaviorInsights, and the range of the week.
use money_management_app.Prelude.{
  ℕ, ◌+◌, ◌-◌, ◌*◌, ◌/◌, ◌%◌, ◌&&◌, Option, String, List, [], ◌∷◌, filter, length, take,
  if◌then◌else◌, or_text, str_eq,
}
use money_management_app.Prelude.Int.{ℤ, pos, ◌+ℤ◌, ltb_ℤ}
use money_management_app.Prelude.Sums.{sum_of}
use money_management_app.Calendar.{day_ms, week_day}
use money_management_app.Transactions.Schema.{Transaction, credit, debit}
use money_management_app.Transactions.Statistics.{amount_of, is_debit}
use money_management_app.Weekly.Schema.{TopEntry, BehaviorInsights, Totals}

-- The loop of `aggregate`.
unfoldable pub aggregate_from : Totals → List Transaction → Totals
aggregate_from acc [] = acc
aggregate_from acc (t ∷ ts) =
    aggregate_from
      (elim t.type [
        | credit ↦ record acc { total_income = acc.total_income +ℤ t.amount }
        | debit ↦ record acc { total_spent = acc.total_spent +ℤ t.amount }
      ])
      ts

unfoldable pub aggregate : List Transaction → Totals
unfolding aggregate_from
aggregate ts = aggregate_from (record { total_spent = pos 0; total_income = pos 0 }) ts

-- The Map of `topByGroup`, whose entries keep the order in which they came in.
unfoldable pub add_entry : (key : String) (amount : ℤ) → List TopEntry → List TopEntry
add_entry key amount [] = record { name = key; amount = pos 0 +ℤ amount; count = 1 } ∷ []
add_entry key amount (e ∷ es) =
    let rest = add_entry key amount es in
    if str_eq e.name key
    then record e { amount = e.amount +ℤ amount; count = e.count + 1 } ∷ es
    else e ∷ rest

unfoldable pub group_entries :
    (column : Transaction → Option String) → List TopEntry → List Transaction → List TopEntry
unfolding add_entry
group_entries column es [] = es
group_entries column es (t ∷ ts) =
    group_entries column
      (if is_debit t then add_entry (or_text (column t) "OTHER") t.amount es else es) ts

-- The stable `sort` by falling amounts.
unfoldable pub insert_by_amount : TopEntry → List TopEntry → List TopEntry
insert_by_amount e [] = e ∷ []
insert_by_amount e (f ∷ fs) =
    let rest = insert_by_amount e fs in if ltb_ℤ e.amount f.amount then f ∷ rest else e ∷ f ∷ fs

unfoldable pub sort_by_amount : List TopEntry → List TopEntry
unfolding insert_by_amount
sort_by_amount [] = []
sort_by_amount (e ∷ es) = insert_by_amount e (sort_by_amount es)

unfoldable pub top_by_group :
    (column : Transaction → Option String) (limit : ℕ) → List Transaction → List TopEntry
unfolding group_entries sort_by_amount
top_by_group column limit ts = take limit (sort_by_amount (group_entries column [] ts))

unfoldable pub compute_behavior_insights : List Transaction → BehaviorInsights
compute_behavior_insights ts =
    let late_night = filter (λ t. t.is_late_night && is_debit t) ts in
    let weekend = filter (λ t. t.is_weekend && is_debit t) ts in
    let impulse = filter (λ t. t.is_impulse && is_debit t) ts in
    record {
      late_night_count = length late_night;
      late_night_amount = sum_of amount_of late_night;
      weekend_count = length weekend;
      weekend_amount = sum_of amount_of weekend;
      impulse_count = length impulse;
      impulse_amount = sum_of amount_of impulse;
    }

pub record WeekRange : Type 0 where
  pub week_start : ℕ
  pub week_end : ℕ

-- From Monday at midnight to the last millisecond of Sunday.
unfoldable pub current_week_range : (now : ℕ) → WeekRange
current_week_range now =
    let diff_to_monday = (week_day now + 6) % 7 in
    let week_start = (now / day_ms - diff_to_monday) * day_ms in
    record { week_start = week_start; week_end = week_start + 6 * day_ms + (day_ms - 1) }
