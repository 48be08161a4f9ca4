-- ===== src/Goals/Schema.antt =====
-- `model Goal` of backend/prisma/schema.prisma and the DTOs of backend/src/modules/goal/dto.ts.
-- The amounts are not negative, as the DTOs demand; they are in hundredths of the currency, and a
-- percentage of the income is in hundredths of a percent.
use money_management_app.Prelude.{ℕ, Bool, Option, String}
use money_management_app.Orm.SoftDelete.{Model}
use money_management_app.Orm.Query.{Table}

pub record Goal : Type 0 where
  pub id : ℕ
  pub user_id : ℕ
  pub name : String
  pub target_amount : ℕ
  pub current_amount : ℕ
  pub currency : String
  pub target_date : Option ℕ
  pub category : Option String
  pub icon : Option String
  pub color : Option String
  pub auto_allocate : Bool
  pub allocation_percent : Option ℕ
  pub priority : ℕ
  pub is_completed : Bool
  pub completed_at : Option ℕ
  pub deleted_at : Option ℕ
  pub created_at : ℕ

abbrev pub goals : Table Goal
goals = record { model = Model.goal; deleted_at = λ g. g.deleted_at }

pub record CreateGoalDto : Type 0 where
  pub name : String
  pub target_amount : ℕ
  pub current_amount : Option ℕ
  pub currency : Option String
  pub target_date : Option ℕ
  pub category : Option String
  pub icon : Option String
  pub color : Option String
  pub auto_allocate : Option Bool
  pub allocation_percent : Option ℕ
  pub priority : Option ℕ

pub record UpdateGoalDto : Type 0 where
  pub name : Option String
  pub target_amount : Option ℕ
  pub current_amount : Option ℕ
  pub currency : Option String
  pub target_date : Option ℕ
  pub category : Option String
  pub icon : Option String
  pub color : Option String
  pub auto_allocate : Option Bool
  pub allocation_percent : Option ℕ
  pub priority : Option ℕ
