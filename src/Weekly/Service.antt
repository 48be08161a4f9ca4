-- ===== src/Weekly/Service.antt =====
-- The operations of backend/src/modules/weekly-summary/weekly-summary.service.ts. `answer` is what the
-- AI service says to getWeeklySummary, or its error.
use money_management_app.Prelude.{
  ℕ, ◌-◌, ◌*◌, Bool, ◌&&◌, Option, none, some, String, List, head, ◌==◌, leb, ltb, if◌then◌else◌,
  Result, ok, err, internal,
}
use money_management_app.Prelude.Int.{pos, pos_part, nat_abs, ◌-ℤ◌, ltb_ℤ}
use money_management_app.Calendar.{day_ms}
use money_management_app.Orm.Client.{Client}
use money_management_app.Orm.Query.{having, live, find_first, find_unique, find_all}
use money_management_app.Orm.Owned.{or_not_found}
use money_management_app.Transactions.Schema.{Transaction, transactions}
use money_management_app.Ai.Json.{Json, member, coalesce, is_truthy}
use money_management_app.Weekly.Schema.{Top, Unusual, Rate, Totals, WeeklySummary, weekly_summaries}
use money_management_app.Weekly.Totals.{
  aggregate, top_by_group, compute_behavior_insights, current_week_range,
}

-- `transactionDate: { gte, lte }` of a user
abbrev pub is_between : (user_id from to : ℕ) → Transaction → Bool
is_between user_id from to t =
    (t.user_id == user_id) && leb from t.transaction_date && leb t.transaction_date to

abbrev pub oldest_first : Transaction → Transaction → Bool
oldest_first s t = leb s.transaction_date t.transaction_date

-- `(userId, weekStartDate)`
abbrev pub is_week : (user_id week_start : ℕ) → WeeklySummary → Bool
is_week user_id week_start s = (s.user_id == user_id) && (s.week_start_date == week_start)

-- `enriched?.data ?? enriched`, when the call succeeds and it is not empty.
abbrev pub data_of : Result Json → Option Json
data_of (err e) = none
data_of (ok enriched) =
    let d = coalesce (member (some enriched) "data") (some enriched) in
    if is_truthy d then d else none

-- `data.name ?? null`
abbrev pub said : Option Json → String → Option Json
said d name = coalesce (member d name) none

abbrev pub top_of : Option Json → Top → Top
top_of none local_ = local_
top_of (some Json.null) local_ = local_
top_of (some j) local_ = Top.answered j

abbrev pub unusual_of : Option Json → Totals → Unusual
unusual_of none prev = Unusual.compared prev
unusual_of (some Json.null) prev = Unusual.compared prev
unusual_of (some j) prev = Unusual.reported j

-- The savings as a part of the income; 0 without an income.
abbrev pub rate_of : Totals → Rate
rate_of t =
    if ltb_ℤ (pos 0) t.total_income
    then record { part = t.total_income -ℤ t.total_spent; whole = t.total_income }
    else record { part = pos 0; whole = pos 1 }

-- `Decimal(5, 4)`: after rounding to four places, the value lies below 10.
abbrev pub rate_fits : Rate → Bool
rate_fits r = ltb (20000 * nat_abs r.part) (199999 * pos_part r.whole)

-- The `data` of the upsert, for the row of this id.
unfoldable pub summary_of :
    (user_id week_start week_end : ℕ) (txs prev : List Transaction)
    → Option Json
    → (id : ℕ) → WeeklySummary
unfolding aggregate top_by_group compute_behavior_insights
summary_of user_id week_start week_end txs prev d id =
    let totals = aggregate txs in
    record {
      id = id;
      user_id = user_id;
      week_start_date = week_start;
      week_end_date = week_end;
      total_spent = totals.total_spent;
      total_income = totals.total_income;
      savings_amount = totals.total_income -ℤ totals.total_spent;
      savings_rate = rate_of totals;
      top_categories =
          top_of (member d "topCategories")
            (Top.computed (top_by_group (λ t. t.category_id) 5 txs));
      top_merchants =
          top_of (member d "topMerchants")
            (Top.computed (top_by_group (λ t. t.merchant_name) 5 txs));
      unusual_spending = unusual_of (member d "unusualSpending") (aggregate prev);
      behavior_insights = compute_behavior_insights txs;
      ai_behavior_insights = said d "behaviorInsights";
      wins_and_improvements = said d "winsAndImprovements";
      ai_stats = said d "stats";
      ai_summary = said d "aiSummary";
      recommendations = said d "recommendations";
    }

module _ (orm : Client) where
  -- The upsert on the unique index of user and week: the row keeps its id.
  unfoldable pub upsert_week :
      (fresh : ℕ) (build : ℕ → WeeklySummary) (user_id week_start : ℕ)
      → List WeeklySummary
      → Option WeeklySummary
      → Result WeeklySummary × List WeeklySummary
  upsert_week fresh build user_id week_start rows none =
      (ok (build fresh), orm.insert (build fresh) rows)
  upsert_week fresh build user_id week_start rows (some s) =
      (ok (build s.id), orm.update_many (is_week user_id week_start) (λ r. build r.id) rows)

  -- A value that the column does not hold is an error of the database.
  unfoldable pub store_week :
      (fresh : ℕ) (build : ℕ → WeeklySummary) (user_id week_start : ℕ)
      → List WeeklySummary
      → Result WeeklySummary × List WeeklySummary
  unfolding upsert_week
  store_week fresh build user_id week_start rows =
      if rate_fits (build fresh).savings_rate
      then upsert_week fresh build user_id week_start rows
          (head (orm.find_many (is_week user_id week_start) rows))
      else (err internal, rows)

  -- The data of a week, from its transactions and those of the week before.
  abbrev pub week_data :
      (answer : Result Json) (user_id week_start week_end : ℕ)
      → List Transaction
      → ℕ
      → WeeklySummary
  week_data answer user_id week_start week_end txns id =
      let txs = orm.order_by oldest_first (
        find_all orm transactions (live transactions (is_between user_id week_start week_end))
          txns) in
      let prev =
        find_all orm transactions
          (live transactions (is_between user_id (week_start - 7 * day_ms) (week_start - 1)))
          txns in
      summary_of user_id week_start week_end txs prev (data_of answer) id

  unfoldable pub generate_for_range :
      (answer : Result Json) (user_id week_start week_end fresh : ℕ)
      → List Transaction
      → List WeeklySummary
      → Result WeeklySummary × List WeeklySummary
  unfolding store_week summary_of
  generate_for_range answer user_id week_start week_end fresh txns rows =
      store_week fresh (week_data answer user_id week_start week_end txns) user_id week_start rows

  unfoldable pub generate :
      (answer : Result Json) (user_id fresh now : ℕ)
      → List Transaction
      → List WeeklySummary
      → Result WeeklySummary × List WeeklySummary
  unfolding generate_for_range current_week_range
  generate answer user_id fresh now txns rows =
      let week = current_week_range now in
      generate_for_range answer user_id week.week_start week.week_end fresh txns rows

  -- The summary of the week that is stored, and a new one only if there is none.
  unfoldable pub current_found :
      (answer : Result Json) (user_id fresh now : ℕ)
      → List Transaction
      → List WeeklySummary
      → Option WeeklySummary
      → Result WeeklySummary × List WeeklySummary
  unfolding generate
  current_found answer user_id fresh now txns rows (some s) = (ok s, rows)
  current_found answer user_id fresh now txns rows none =
      generate answer user_id fresh now txns rows

  unfoldable pub get_or_generate_current :
      (answer : Result Json) (user_id fresh now : ℕ)
      → List Transaction
      → List WeeklySummary
      → Result WeeklySummary × List WeeklySummary
  unfolding current_found current_week_range
  get_or_generate_current answer user_id fresh now txns rows =
      current_found answer user_id fresh now txns rows (
        find_unique orm weekly_summaries
          (having (is_week user_id (current_week_range now).week_start)) rows)

  abbrev pub latest_first : WeeklySummary → WeeklySummary → Bool
  latest_first r s = leb s.week_start_date r.week_start_date

  unfoldable pub get_history : (user_id limit : ℕ) → List WeeklySummary → List WeeklySummary
  get_history user_id limit rows = orm.slice 0 limit (
      orm.order_by latest_first
        (find_all orm weekly_summaries (having (λ s. s.user_id == user_id)) rows))

  unfoldable pub find_one : (user_id id : ℕ) → List WeeklySummary → Result WeeklySummary
  find_one user_id id rows =
      or_not_found (
        find_first orm weekly_summaries (having (λ s. (s.id == id) && (s.user_id == user_id))) rows)
