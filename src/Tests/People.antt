-- ===== src/Tests/People.antt =====
-- Runs on users, notifications and action cards.
use money_management_app.Prelude.{
  String, ℕ, ◌+◌, ◌≡◌, ◌≢◌, refl, Bool, true, false, not, Option, some, none, List, [], ◌∷◌, filter,
  find, arith, err, unauthorized, ◌==◌, str_eq, if◌then◌else◌, eq_iff,
}
use money_management_app.Orm.Query.{find_first, find_unique, reach, update, delete}
use money_management_app.Users.Schema.{User, Preferences, no_preferences}
use money_management_app.Users.Tokens.{Claims, Crypto, validate}
use money_management_app.Users.Auth.{
  Stores, logout_everywhere, revoke_written, refresh_session, refresh_found, refresh_owner,
  issue_session, save_refresh_token, session_saved,
}
use money_management_app.Users.Service.{UpdateUserDto}
use money_management_app.Users.Revocation.{logout_everywhere_lem}
use money_management_app.Users.Rotation.{refresh_session-once}
use money_management_app.Notifications.Schema.{
  Notification, NotificationType, NotificationPriority, NotificationChannel,
}
use money_management_app.Prelude.Int.{pos}
use money_management_app.Orm.Rows.{foreign}
use money_management_app.Push.Schema.{PushConfig, DeviceToken, ExpoPushTicket}
use money_management_app.Push.Service.{send_to_user}
use money_management_app.Push.Devices.{send_to_user-isolated}
use money_management_app.Notifications.Schema as NotificationSchema
use money_management_app.Notifications.Preferences.{update_preferences}
use money_management_app.Notifications.Alerts.{
  Texts, send_transaction_notification, send_subscription_notification, send_budget_alert,
  send_insight_notification,
}
use money_management_app.Notifications.Inbox.{mark_all_as_read_lem}
use money_management_app.Notifications.Service.{mark_all_as_read, get_unread_count}
use money_management_app.Notifications.Muted.{update_preferences-mutes}
use money_management_app.ActionCards.Schema.{ActionCard, CreateActionCardDto, BulkSyncCardsDto}
use money_management_app.ActionCards.Service.{is_pending, new_card, bulk_sync}
use money_management_app.ActionCards.Sync.{bulk_sync-replaces}
use money_management_app.Tests.Data.{list_client}

abbrev pub asha : User
asha = record {
  id = 7;
  email = "asha@example.com";
  password_hash = "hash";
  name = none;
  phone = none;
  email_verified = true;
  notification_prefs = no_preferences;
  is_active = true;
  last_login_at = none;
  token_version = 2;
  deleted_at = none;
  created_at = 0;
}

abbrev pub plain : Crypto
plain = record {
  sha256 = λ s. s;
  hash_password = λ s. s;
  compare_password = str_eq;
  sign_access = λ c. c.email;
  sign_refresh = λ c. c.email;
}

abbrev pub claims : Claims
claims = record { sub = 7; email = "asha@example.com"; tv = some 2; is_refresh = false; iat = 0 }

abbrev pub stores : Stores
stores = record {
  users = asha ∷ [];
  refresh_tokens = record { id = 1; user_id = 7; token_hash = "t"; expires_at = 9 } ∷ [];
  accounts = [];
}

logout_everywhere_lem_example :
    let s' = (logout_everywhere list_client plain 7 stores).1 in
    (validate list_client claims s'.users ≡ err unauthorized)
    × (find (λ t. t.user_id == 7) s'.refresh_tokens ≡ none)
unfolding logout_everywhere find_first reach revoke_written update
logout_everywhere_lem_example =
    logout_everywhere_lem list_client plain 7 stores claims {u = asha} refl refl (omega arith) refl

abbrev new_password : UpdateUserDto
new_password = record { email = none; password = some "correct horse"; name = none; phone = none }

abbrev news : (id user_id : ℕ) → Notification
news id user_id = record {
  id = id;
  user_id = user_id;
  type = NotificationType.reminder;
  priority = NotificationPriority.low;
  title = "Bill";
  message = "Due soon";
  channel = NotificationChannel.in_app;
  is_read = false;
  read_at = none;
  sent_at = none;
  deleted_at = none;
  created_at = 0;
}

abbrev inbox : List Notification
inbox = news 1 7 ∷ news 2 8 ∷ news 3 7 ∷ []

mark_all_as_read_lem_example :
    (get_unread_count list_client 7 (mark_all_as_read list_client 7 20 inbox) ≡ 0)
    × (filter (λ n. not (n.user_id == 7)) (mark_all_as_read list_client 7 20 inbox)
        ≡ filter (λ n. not (n.user_id == 7)) inbox)
mark_all_as_read_lem_example = mark_all_as_read_lem list_client 7 20 inbox

abbrev tip : CreateActionCardDto
tip = record {
  type = "SET_BUDGET";
  title = "Set a budget";
  description = "Food is up";
  priority = none;
  impact_amount = none;
  impact_type = none;
  action_data = none;
  expires_at = none;
}

abbrev deck : List ActionCard
deck =
    new_card 7 tip 1 0
    ∷ record (new_card 7 tip 2 0) { status = "COMPLETED" }
    ∷ new_card 8 tip 3 0
    ∷ []

abbrev batch : Option Bool → BulkSyncCardsDto
batch b = record { cards = tip ∷ tip ∷ []; replace_pending = b }

bulk_sync-replaces_example :
    let after = bulk_sync list_client 7 (batch none) (λ n. 10 + n) 20 deck in
    (filter (is_pending 7) after.1 ≡ after.0.cards)
    × (filter (λ c. not (is_pending 7 c)) after.1 ≡ filter (λ c. not (is_pending 7 c)) deck)
bulk_sync-replaces_example =
    bulk_sync-replaces list_client 7 20 (λ n. 10 + n) (batch none) deck refl

-- A signature of its own for each second.
abbrev timed : Crypto
timed = record plain { sign_refresh = λ c. if c.iat == 0 then "first" else "second" }

abbrev signed_in : Stores
signed_in = record stores {
  refresh_tokens = record { id = 1; user_id = 7; token_hash = "first"; expires_at = 900000 } ∷ [];
}

second_first : ◌≢◌ {A = String} "second" "first"
second_first k = let e : false ≡ true = (eq_iff "second" "first").1 k in cc

refresh_session-once_example :
    let s' = (refresh_session list_client timed "first" 2 5000 signed_in).1 in
    (refresh_session list_client timed "first" 3 6000 s').0 ≡ err unauthorized
unfolding refresh_session refresh_found refresh_owner issue_session save_refresh_token session_saved
    find_unique reach delete
refresh_session-once_example =
    refresh_session-once list_client timed "first" 2 5000 3 6000 signed_in (tt, tt) refl
      second_first

abbrev quiet : Preferences
quiet = record no_preferences {
  transaction_alerts = some false;
  subscription_alerts = some false;
  budget_alerts = some false;
  insight_alerts = some false;
}

abbrev pub world : User → NotificationSchema.Stores
world u = record { notifications = inbox; users = u ∷ []; device_tokens = []; queue = [] }

abbrev pub open_broker : NotificationSchema.Outside
open_broker = record {
  accepts = λ e. true;
  push_config = record { enabled = true; post = λ messages. none };
}

abbrev pub texts : Texts
texts = record { number = λ a. "1"; date = λ d. "today"; percent = λ part whole. "50" }

update_preferences-mutes_example :
    let s = record (world asha) {
      users = (update_preferences list_client 7 quiet (asha ∷ [])).1;
    } in
    (send_transaction_notification list_client open_broker texts 7 9 20 (pos 500000) none true s
      ≡ s)
    × (send_subscription_notification list_client open_broker texts 7 9 20 "Netflix"
          (pos 500000)
          30
          s
        ≡ s)
    × (send_budget_alert list_client open_broker texts 7 9 20 "Netflix" 9 10 s ≡ s)
    × (send_insight_notification list_client open_broker texts 7 9 20 "Netflix" "Up" s ≡ s)
unfolding reach
update_preferences-mutes_example =
    update_preferences-mutes list_client open_broker texts 7 9 20 (world asha) quiet (pos 500000)
      none true "Netflix" "Up" 30 9 10 {u = asha} (tt, tt) refl refl refl refl refl

abbrev phone : (id user_id : ℕ) (token : String) → DeviceToken
phone id user_id token = record {
  id = id;
  user_id = user_id;
  token = token;
  platform = "ios";
  device_id = none;
  app_version = none;
  is_active = true;
  last_used_at = 0;
}

abbrev phones : List DeviceToken
phones = phone 1 7 "ExpoPushToken[a]" ∷ phone 2 8 "ExpoPushToken[b]" ∷ []

abbrev uninstalled : PushConfig
uninstalled = record {
  enabled = true;
  post = λ messages. some (ExpoPushTicket.failed (some "DeviceNotRegistered") ∷ []);
}

send_to_user-isolated_example :
    foreign
      (λ t. t.id)
      (λ t. t.user_id)
      7
      (send_to_user list_client uninstalled 7 "Bill" "Due soon" 20 phones).1
    ≡ foreign (λ t. t.id) (λ t. t.user_id) 7 phones
send_to_user-isolated_example =
    send_to_user-isolated list_client 7 uninstalled "Bill" "Due soon" 20 phones (ground arith)
