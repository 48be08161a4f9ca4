-- ===== src/Push/Service.antt =====
-- The operations of backend/src/modules/push/push.service.ts. `now` is the clock and `id` the uuid of a
-- new row.
use money_management_app.Prelude.{
  ℕ, suc, Bool, true, false, ◌&&◌, ◌||◌, Option, none, some, String, List, [], ◌∷◌, map, length,
  filter, ◌==◌, leb, if◌then◌else◌, or_else, or_option, str_eq, starts_with, any, Result, ok,
}
use money_management_app.Orm.Client.{Client}
use money_management_app.Orm.Query.{having, find_unique, find_all, update, update_many}
use money_management_app.Push.Schema.{
  DeviceToken, device_tokens, RegisterPushTokenDto, Message, ExpoPushTicket, PushConfig,
}

unfoldable pub new_token : (user_id : ℕ) → RegisterPushTokenDto → (id now : ℕ) → DeviceToken
new_token user_id dto id now = record {
  id = id;
  user_id = user_id;
  token = dto.token;
  platform = dto.platform;
  device_id = dto.device_id;
  app_version = dto.app_version;
  is_active = true;
  last_used_at = now;
}

-- The new values of a token that is registered again, perhaps by another user.
unfoldable pub moved :
    (user_id : ℕ)
    → RegisterPushTokenDto
    → (existing : DeviceToken) (now : ℕ) → DeviceToken
    → DeviceToken
moved user_id dto existing now t = record t {
  user_id = user_id;
  platform = dto.platform;
  device_id = or_option dto.device_id existing.device_id;
  app_version = or_option dto.app_version existing.app_version;
  is_active = true;
  last_used_at = now;
}

abbrev pub set_inactive : DeviceToken → DeviceToken
set_inactive t = record t { is_active = false }

abbrev pub set_last_used : (now : ℕ) → DeviceToken → DeviceToken
set_last_used now t = record t { last_used_at = now }

abbrev pub is_active_of : (user_id : ℕ) → DeviceToken → Bool
is_active_of user_id t = (t.user_id == user_id) && t.is_active

-- `id: { in: ids }`
abbrev pub id_in : List ℕ → DeviceToken → Bool
id_in ids t = any (λ i. t.id == i) ids

-- `ticket.status === 'error'` with the error DeviceNotRegistered
abbrev pub is_unregistered : ExpoPushTicket → Bool
is_unregistered ExpoPushTicket.delivered = false
is_unregistered (ExpoPushTicket.failed none) = false
is_unregistered (ExpoPushTicket.failed (some e)) = str_eq e "DeviceNotRegistered"

abbrev pub is_delivered : ExpoPushTicket → Bool
is_delivered ExpoPushTicket.delivered = true
is_delivered (ExpoPushTicket.failed e) = false

abbrev pub is_expo_token : String → Bool
is_expo_token token = starts_with token "ExponentPushToken[" || starts_with token "ExpoPushToken["

-- `badTokens` of processTickets: a ticket belongs to the token of its index.
unfoldable pub bad_tokens : List ExpoPushTicket → List DeviceToken → List ℕ
bad_tokens [] ts = []
bad_tokens (k ∷ ks) [] = []
bad_tokens (k ∷ ks) (t ∷ ts) =
    let rest = bad_tokens ks ts in if is_unregistered k then t.id ∷ rest else rest

pub record SendResult : Type 0 where
  pub sent : ℕ
  pub attempted : ℕ

abbrev pub message_to : (title body : String) → DeviceToken → Message
message_to title body t = record { to = t.token; title = title; body = body }

module _ (orm : Client) where
  unfoldable pub register_found :
      (user_id : ℕ)
      → RegisterPushTokenDto
      → (id now : ℕ) → List DeviceToken
      → Option DeviceToken
      → Result DeviceToken × List DeviceToken
  register_found user_id dto id now rows none =
      let t = new_token user_id dto id now in (ok t, orm.insert t rows)
  register_found user_id dto id now rows (some existing) =
      update orm device_tokens (having (λ t. str_eq t.token dto.token))
        (moved user_id dto existing now) rows

  unfoldable pub register_token :
      (user_id : ℕ)
      → RegisterPushTokenDto
      → (id now : ℕ) → List DeviceToken
      → Result DeviceToken × List DeviceToken
  register_token user_id dto id now rows =
      register_found user_id dto id now rows
        (find_unique orm device_tokens (having (λ t. str_eq t.token dto.token)) rows)

  unfoldable pub unregister_token :
      (user_id : ℕ) (token : String) → List DeviceToken → List DeviceToken
  unregister_token user_id token rows =
      update_many orm device_tokens (having (λ t. (t.user_id == user_id) && str_eq t.token token))
        set_inactive rows

  unfoldable pub list_user_tokens : (user_id : ℕ) → List DeviceToken → List DeviceToken
  list_user_tokens user_id rows =
      orm.order_by (λ s t. leb t.last_used_at s.last_used_at)
        (find_all orm device_tokens (having (is_active_of user_id)) rows)

  -- `if (badTokens.length > 0)`
  unfoldable pub disable : (bad : List ℕ) → List DeviceToken → List DeviceToken
  disable [] rows = rows
  disable (b ∷ bs) rows = update_many orm device_tokens (having (id_in (b ∷ bs))) set_inactive rows

  unfoldable pub process_tickets :
      List ExpoPushTicket → List DeviceToken → List DeviceToken → List DeviceToken
  process_tickets tickets tokens rows = disable (bad_tokens tickets tokens) rows

  -- The `try` around the request to Expo: a failure is logged.
  unfoldable pub deliver :
      Option (List ExpoPushTicket) → List DeviceToken → List DeviceToken → ℕ × List DeviceToken
  deliver none tokens rows = (0, rows)
  deliver (some tickets) tokens rows =
      (length (filter is_delivered tickets), process_tickets tickets tokens rows)

  -- The tokens of Expo among the active ones; the others are skipped with a warning.
  unfoldable pub send_to_tokens :
      PushConfig
      → (title body : String) (now : ℕ) → List DeviceToken
      → List DeviceToken
      → SendResult × List DeviceToken
  send_to_tokens config title body now [] rows = (record { sent = 0; attempted = 0 }, rows)
  send_to_tokens config title body now (t ∷ ts) rows =
      let (sent, rows') =
        deliver (config.post (map (message_to title body) (t ∷ ts))) (t ∷ ts) rows in
      (
        record { sent = sent; attempted = suc (length ts) },
        update_many orm device_tokens (having (id_in (map (λ u. u.id) (t ∷ ts))))
            (set_last_used now) rows',
      )

  unfoldable pub send_to_user :
      PushConfig
      → (user_id : ℕ) (title body : String) (now : ℕ) → List DeviceToken
      → SendResult × List DeviceToken
  send_to_user config user_id title body now rows =
      if config.enabled
      then send_to_tokens config title body now
          (filter (λ t. is_expo_token t.token)
            (find_all orm device_tokens (having (is_active_of user_id)) rows))
          rows
      else (record { sent = 0; attempted = 0 }, rows)

  unfoldable pub test_push :
      PushConfig
      → (user_id : ℕ) (title body : Option String) (now : ℕ) → List DeviceToken
      → SendResult × List DeviceToken
  test_push config user_id title body now rows =
      send_to_user config user_id (or_else title "Test from MoneyMind")
        (or_else body "If you see this, push notifications are working") now rows
