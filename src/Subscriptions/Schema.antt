-- ===== src/Subscriptions/Schema.antt =====
-- `model Subscription` of backend/prisma/schema.prisma, with the columns that the service reads or
-- writes, and shared/src/dto/subscription.dto.ts.
use money_management_app.Prelude.{ℕ, Option, String}
use money_management_app.Prelude.Int.{ℤ}
use money_management_app.Orm.SoftDelete.{Model}
use money_management_app.Orm.Query.{Table}

pub data Frequency : Type 0 where
  daily weekly monthly quarterly yearly : Frequency

pub data Status : Type 0 where
  active paused cancelled expired : Status

pub record Subscription : Type 0 where
  pub id : ℕ
  pub user_id : ℕ
  pub name : String
  pub merchant_name : String
  pub amount : ℤ
  pub frequency : Frequency
  pub status : Status
  pub category_id : Option String
  pub next_billing_date : Option ℕ
  pub notes : Option String
  pub deleted_at : Option ℕ
  pub created_at : ℕ

abbrev pub subscriptions : Table Subscription
subscriptions = record { model = Model.subscription; deleted_at = λ s. s.deleted_at }

pub record CreateSubscriptionDto : Type 0 where
  pub name : String
  pub amount : ℤ
  pub frequency : Frequency
  pub merchant_name : Option String
  pub category_id : Option String
  pub next_billing_date : Option ℕ
  pub notes : Option String

pub record UpdateSubscriptionDto : Type 0 where
  pub name : Option String
  pub amount : Option ℤ
  pub frequency : Option Frequency
  pub merchant_name : Option String
  pub category_id : Option String
  pub next_billing_date : Option ℕ
  pub notes : Option String
  pub status : Option Status
