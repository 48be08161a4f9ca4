-- ===== src/Users/Schema.antt =====
-- `model User` and `model RefreshToken` of backend/prisma/schema.prisma, with the columns that the
-- services read or write. Refresh tokens are not deleted softly.
use money_management_app.Prelude.{ℕ, Bool, Option, none, String}
use money_management_app.Prelude.Int.{ℤ}
use money_management_app.Orm.SoftDelete.{Model}
use money_management_app.Orm.Query.{Table}

-- The JSON of `notificationPrefs`: a field may be missing. The amount is in hundredths.
pub record Preferences : Type 0 where
  pub push_enabled : Option Bool
  pub email_enabled : Option Bool
  pub sms_enabled : Option Bool
  pub transaction_alerts : Option Bool
  pub subscription_alerts : Option Bool
  pub budget_alerts : Option Bool
  pub insight_alerts : Option Bool
  pub security_alerts : Option Bool
  pub min_amount_for_alert : Option ℤ

abbrev pub no_preferences : Preferences
no_preferences = record {
  push_enabled = none;
  email_enabled = none;
  sms_enabled = none;
  transaction_alerts = none;
  subscription_alerts = none;
  budget_alerts = none;
  insight_alerts = none;
  security_alerts = none;
  min_amount_for_alert = none;
}

pub record User : Type 0 where
  pub id : ℕ
  pub email : String
  pub password_hash : String
  pub name : Option String
  pub phone : Option String
  pub email_verified : Bool
  pub notification_prefs : Preferences
  pub is_active : Bool
  pub last_login_at : Option ℕ
  pub token_version : ℕ
  pub deleted_at : Option ℕ
  pub created_at : ℕ

abbrev pub users : Table User
users = record { model = Model.user; deleted_at = λ u. u.deleted_at }

pub record RefreshToken : Type 0 where
  pub id : ℕ
  pub user_id : ℕ
  pub token_hash : String
  pub expires_at : ℕ

abbrev pub refresh_tokens : Table RefreshToken
refresh_tokens = record { model = Model.refresh_token; deleted_at = λ t. none }
