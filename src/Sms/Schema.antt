-- ===== src/Sms/Schema.antt =====
-- `model SmsLog` of backend/prisma/schema.prisma and the DTOs of shared/src/dto/sms.dto.ts. Logs are
-- not deleted softly.
use money_management_app.Prelude.{ℕ, Bool, Option, none, String}
use money_management_app.Prelude.Int.{ℤ}
use money_management_app.Orm.SoftDelete.{Model}
use money_management_app.Orm.Query.{Table}
use money_management_app.Transactions.Schema.{TransactionType, QueryNumber}

-- A number may be missing, or NaN; amounts are in hundredths. The confidence is in ten-thousandths.
pub record ParsedSms : Type 0 where
  pub raw_sms : String
  pub sender : String
  pub timestamp : ℕ
  pub amount : QueryNumber
  pub merchant : Option String
  pub transaction_type : Option TransactionType
  pub category : Option String
  pub balance : QueryNumber
  pub account_last4 : Option String
  pub confidence : ℤ

pub record SmsLog : Type 0 where
  pub id : ℕ
  pub user_id : ℕ
  pub body : String
  pub sender : String
  pub phone_number : Option String
  pub received_at : ℕ
  pub is_processed : Bool
  pub parsed_data : Option ParsedSms
  pub transaction_id : Option ℕ
  pub created_at : ℕ

abbrev pub sms_logs : Table SmsLog
sms_logs = record { model = Model.sms_log; deleted_at = λ l. none }

pub record SmsIngestDto : Type 0 where
  pub body : String
  pub sender : String
  pub phone_number : Option String
  pub timestamp : Option ℕ
  pub received_at : Option ℕ

pub record SmsParseResponse : Type 0 where
  pub success : Bool
  pub parsed : ParsedSms
  pub transaction_created : Bool
  pub transaction_id : Option ℕ
