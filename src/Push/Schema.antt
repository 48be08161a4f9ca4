-- ===== src/Push/Schema.antt =====
-- `model DeviceToken` of backend/prisma/schema.prisma, backend/src/modules/push/dto/push.dto.ts and the
-- messages and tickets of Expo's push service. Device tokens are not deleted softly.
use money_management_app.Prelude.{ℕ, Bool, Option, none, String, List}
use money_management_app.Orm.SoftDelete.{Model}
use money_management_app.Orm.Query.{Table}

pub record DeviceToken : Type 0 where
  pub id : ℕ
  pub user_id : ℕ
  pub token : String
  pub platform : String
  pub device_id : Option String
  pub app_version : Option String
  pub is_active : Bool
  pub last_used_at : ℕ

abbrev pub device_tokens : Table DeviceToken
device_tokens = record { model = Model.device_token; deleted_at = λ t. none }

pub record RegisterPushTokenDto : Type 0 where
  pub token : String
  pub platform : String
  pub device_id : Option String
  pub app_version : Option String

pub record Message : Type 0 where
  pub to : String
  pub title : String
  pub body : String

-- ExpoPushTicket: `status: 'ok'`, or `status: 'error'` with `details?.error`.
pub data ExpoPushTicket : Type 0 where
  delivered : ExpoPushTicket
  failed : (error : Option String) → ExpoPushTicket

-- The configuration and the network. `post` is the answer of Expo's HTTP service to a batch of
-- messages, none where the request fails or its status is not a success.
pub record PushConfig : Type 0 where
  pub enabled : Bool
  pub post : List Message → Option (List ExpoPushTicket)
