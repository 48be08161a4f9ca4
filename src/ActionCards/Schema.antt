-- ===== src/ActionCards/Schema.antt =====
-- `model ActionCard` of backend/prisma/schema.prisma and backend/src/modules/action-card/dto.ts. The
-- model is not one of those that are deleted softly.
use money_management_app.Prelude.{ℕ, Bool, Option, none, String, List}
use money_management_app.Prelude.Int.{ℤ}
use money_management_app.Orm.SoftDelete.{Model}
use money_management_app.Orm.Query.{Table}

pub record ActionCard : Type 0 where
  pub id : ℕ
  pub user_id : ℕ
  pub type : String
  pub title : String
  pub description : String
  pub priority : String
  pub impact_amount : Option ℤ
  pub impact_type : Option String
  pub status : String
  pub action_data : String
  pub expires_at : Option ℕ
  pub completed_at : Option ℕ
  pub dismissed_at : Option ℕ
  pub created_at : ℕ

abbrev pub action_cards : Table ActionCard
action_cards = record { model = Model.action_card; deleted_at = λ c. none }

-- The JSON of `actionData` is kept as its text.
pub record CreateActionCardDto : Type 0 where
  pub type : String
  pub title : String
  pub description : String
  pub priority : Option String
  pub impact_amount : Option ℤ
  pub impact_type : Option String
  pub action_data : Option String
  pub expires_at : Option ℕ

pub record UpdateActionCardDto : Type 0 where
  pub type : Option String
  pub title : Option String
  pub description : Option String
  pub priority : Option String
  pub impact_amount : Option ℤ
  pub impact_type : Option String
  pub action_data : Option String
  pub expires_at : Option ℕ

pub record BulkSyncCardsDto : Type 0 where
  pub cards : List CreateActionCardDto
  pub replace_pending : Option Bool
