-- ===== src/Weekly/Schema.antt =====
-- `model WeeklySummary` of backend/prisma/schema.prisma. Summaries are not deleted softly.
use money_management_app.Prelude.{ℕ, Option, none, String, List}
use money_management_app.Prelude.Int.{ℤ}
use money_management_app.Orm.SoftDelete.{Model}
use money_management_app.Orm.Query.{Table}
use money_management_app.Ai.Json.{Json}

-- An entry of `topByGroup`.
pub record TopEntry : Type 0 where
  pub name : String
  pub amount : ℤ
  pub count : ℕ

-- A JSON column: what the service has computed, or what the AI service has answered.
pub data Top : Type 0 where
  computed : List TopEntry → Top
  answered : Json → Top

pub record BehaviorInsights : Type 0 where
  pub late_night_count : ℕ
  pub late_night_amount : ℤ
  pub weekend_count : ℕ
  pub weekend_amount : ℤ
  pub impulse_count : ℕ
  pub impulse_amount : ℤ

pub record Totals : Type 0 where
  pub total_spent : ℤ
  pub total_income : ℤ

-- `unusualSpending ?? { items: [], prevTotals }`
pub data Unusual : Type 0 where
  reported : Json → Unusual
  compared : (prev_totals : Totals) → Unusual

-- The savings rate is kept as the fraction savings / income.
pub record Rate : Type 0 where
  pub part : ℤ
  pub whole : ℤ

pub record WeeklySummary : Type 0 where
  pub id : ℕ
  pub user_id : ℕ
  pub week_start_date : ℕ
  pub week_end_date : ℕ
  pub total_spent : ℤ
  pub total_income : ℤ
  pub savings_amount : ℤ
  pub savings_rate : Rate
  pub top_categories : Top
  pub top_merchants : Top
  pub unusual_spending : Unusual
  -- The computed insights, and what the AI service adds: its own, wins and statistics.
  pub behavior_insights : BehaviorInsights
  pub ai_behavior_insights : Option Json
  pub wins_and_improvements : Option Json
  pub ai_stats : Option Json
  pub ai_summary : Option Json
  pub recommendations : Option Json

abbrev pub weekly_summaries : Table WeeklySummary
weekly_summaries = record { model = Model.weekly_summary; deleted_at = λ s. none }
