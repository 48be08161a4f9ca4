-- ===== src/Budgets/Schema.antt =====
-- `model Budget` of backend/prisma/schema.prisma and the DTOs of backend/src/modules/budget/dto.ts.
-- Amounts are in hundredths of the currency and a limit is not negative; the alert threshold is in
-- ten-thousandths.
use money_management_app.Prelude.{ℕ, Bool, Option, String}
use money_management_app.Prelude.Int.{ℤ}
use money_management_app.Orm.SoftDelete.{Model}
use money_management_app.Orm.Query.{Table}

pub data BudgetPeriod : Type 0 where
  weekly monthly yearly : BudgetPeriod

pub record Budget : Type 0 where
  pub id : ℕ
  pub user_id : ℕ
  pub category_id : Option String
  pub name : String
  pub amount_limit : ℕ
  pub amount_spent : ℤ
  pub currency : String
  pub period : BudgetPeriod
  pub start_date : ℕ
  pub end_date : Option ℕ
  pub alert_threshold : ℕ
  pub is_active : Bool
  pub rollover : Bool
  pub notes : Option String
  pub deleted_at : Option ℕ
  pub updated_at : ℕ

abbrev pub budgets : Table Budget
budgets = record { model = Model.budget; deleted_at = λ b. b.deleted_at }

pub record CreateBudgetDto : Type 0 where
  pub name : String
  pub amount_limit : ℕ
  pub category_id : Option String
  pub currency : Option String
  pub period : Option BudgetPeriod
  pub start_date : Option ℕ
  pub end_date : Option ℕ
  pub alert_threshold : Option ℕ
  pub rollover : Option Bool
  pub notes : Option String

pub record UpdateBudgetDto : Type 0 where
  pub name : Option String
  pub amount_limit : Option ℕ
  pub category_id : Option String
  pub currency : Option String
  pub period : Option BudgetPeriod
  pub start_date : Option ℕ
  pub end_date : Option ℕ
  pub alert_threshold : Option ℕ
  pub rollover : Option Bool
  pub notes : Option String
