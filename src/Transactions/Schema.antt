-- ===== src/Transactions/Schema.antt =====
-- `model Transaction` of backend/prisma/schema.prisma, with the columns that the services read or
-- write, and the DTOs of shared/src/dto/transaction.dto.ts.
use money_management_app.Prelude.{ℕ, Bool, Option, String}
use money_management_app.Prelude.Int.{ℤ}
use money_management_app.Orm.SoftDelete.{Model}
use money_management_app.Orm.Query.{Table}

pub data TransactionType : Type 0 where
  credit debit : TransactionType

pub data TransactionSource : Type 0 where
  sms email upi bank_api manual voice imported : TransactionSource

pub record Transaction : Type 0 where
  pub id : ℕ
  pub user_id : ℕ
  pub account_id : Option ℕ
  pub amount : ℤ
  pub type : TransactionType
  pub category_id : Option String
  pub merchant_name : Option String
  pub description : Option String
  pub transaction_date : ℕ
  pub source : TransactionSource
  pub ai_suggested_category : Option String
  pub ai_suggested_merchant : Option String
  pub ai_confidence : Option ℤ
  pub is_user_confirmed : Bool
  pub external_reference_id : Option ℕ
  pub raw_sms_text : Option String
  pub sms_sender_id : Option String
  pub is_subscription : Bool
  pub subscription_id : Option ℕ
  pub is_impulse : Bool
  pub is_late_night : Bool
  pub is_weekend : Bool
  pub deleted_at : Option ℕ
  pub created_at : ℕ
  pub updated_at : ℕ

abbrev pub transactions : Table Transaction
transactions = record { model = Model.transaction; deleted_at = λ t. t.deleted_at }

pub record CreateTransactionDto : Type 0 where
  pub amount : ℤ
  pub type : TransactionType
  pub account_id : Option ℕ
  pub category_id : Option String
  pub category : Option String
  pub merchant_name : Option String
  pub merchant : Option String
  pub description : Option String
  pub transaction_date : Option ℕ
  pub date : Option ℕ
  pub source : Option TransactionSource
  pub raw_sms : Option String
  pub subscription_id : Option ℕ

-- A field that is optional in a body: `undefined`, `null` or a value.
pub data Field (A : Type 0) : Type 0 where
  absent null : Field A
  given : A → Field A

pub record UpdateTransactionDto : Type 0 where
  pub amount : Field ℤ
  pub type : Field TransactionType
  pub category_id : Field String
  pub merchant_name : Field String
  pub description : Field String
  pub transaction_date : Field ℕ
  pub is_user_confirmed : Field Bool

-- A raw query parameter, as `Number(x)` reads it: missing, not a number, or an integer.
pub data QueryNumber : Type 0 where
  missing nan : QueryNumber
  num : ℤ → QueryNumber

pub record TransactionsFilterDto : Type 0 where
  pub from : Option ℕ
  pub to : Option ℕ
  pub start_date : Option ℕ
  pub end_date : Option ℕ
  pub type : Option TransactionType
  pub category : Option String
  pub category_id : Option String
  pub search : Option String
  pub page : QueryNumber
  pub limit : QueryNumber
  pub offset : QueryNumber
  pub min_amount : Option ℤ
  pub max_amount : Option ℤ
