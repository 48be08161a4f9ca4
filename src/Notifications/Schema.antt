-- ===== src/Notifications/Schema.antt =====
-- `model Notification` of backend/prisma/schema.prisma and shared/src/dto/notification.dto.ts. The JSON
-- column `data`, which the service passes through, is left out.
use money_management_app.Prelude.{ℕ, Bool, Option, String, List}
use money_management_app.Orm.SoftDelete.{Model}
use money_management_app.Orm.Query.{Table}
use money_management_app.Broker.{Event}
use money_management_app.Push.Schema.{DeviceToken, PushConfig}
use money_management_app.Users.Schema.{User}

pub data NotificationType : Type 0 where
  transaction subscription budget_alert insight reminder security : NotificationType

pub data NotificationPriority : Type 0 where
  low normal high urgent : NotificationPriority

pub data NotificationChannel : Type 0 where
  in_app push email sms : NotificationChannel

-- The value of an enum member, as it is sent to the broker.
abbrev pub type_text : NotificationType → String
type_text NotificationType.transaction = "TRANSACTION"
type_text NotificationType.subscription = "SUBSCRIPTION"
type_text NotificationType.budget_alert = "BUDGET_ALERT"
type_text NotificationType.insight = "INSIGHT"
type_text NotificationType.reminder = "REMINDER"
type_text NotificationType.security = "SECURITY"

pub record Notification : Type 0 where
  pub id : ℕ
  pub user_id : ℕ
  pub type : NotificationType
  pub priority : NotificationPriority
  pub title : String
  pub message : String
  pub channel : NotificationChannel
  pub is_read : Bool
  pub read_at : Option ℕ
  pub sent_at : Option ℕ
  pub deleted_at : Option ℕ
  pub created_at : ℕ

abbrev pub notifications : Table Notification
notifications = record { model = Model.notification; deleted_at = λ n. n.deleted_at }

pub record CreateNotificationDto : Type 0 where
  pub type : NotificationType
  pub title : String
  pub body : String
  pub channel : Option NotificationChannel
  pub priority : Option NotificationPriority
  pub send_push : Option Bool

-- What the service reads and writes: three tables and the queue of the broker.
pub record Stores : Type 0 where
  pub notifications : List Notification
  pub users : List User
  pub device_tokens : List DeviceToken
  pub queue : List Event

-- The environment of the service: whether the broker takes an event, and the push service.
pub record Outside : Type 0 where
  pub accepts : Event → Bool
  pub push_config : PushConfig
