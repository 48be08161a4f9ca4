-- ===== src/Notifications/Service.antt =====
-- The inbox operations of backend/src/modules/notification/notification.service.ts. `now` is the clock
-- and `id` the uuid of a new row.
use money_management_app.Prelude.{
  ℕ, Bool, true, false, ◌&&◌, ◌||◌, not, Option, none, some, List, ◌==◌, leb, if◌then◌else◌,
  or_else, Result, ok, err,
}
use money_management_app.Orm.Client.{Client}
use money_management_app.Orm.Query.{
  live, having, find_first, find_all, count, update, update_many, delete,
}
use money_management_app.Broker.{publish_notification_request}
use money_management_app.Push.Service.{send_to_user}
use money_management_app.Notifications.Schema.{
  Notification, NotificationChannel, notifications, CreateNotificationDto, NotificationPriority,
  Stores, Outside, type_text,
}

unfoldable pub new_notification :
    (user_id : ℕ) → CreateNotificationDto → (id now : ℕ) → Notification
new_notification user_id dto id now = record {
  id = id;
  user_id = user_id;
  type = dto.type;
  priority = or_else dto.priority NotificationPriority.normal;
  title = dto.title;
  message = dto.body;
  channel = or_else dto.channel NotificationChannel.in_app;
  is_read = false;
  read_at = none;
  sent_at = none;
  deleted_at = none;
  created_at = now;
}

-- `dto.channel === NotificationChannel.PUSH`
abbrev pub is_push : Option NotificationChannel → Bool
is_push (some NotificationChannel.push) = true
is_push _ = false

unfoldable pub mark_read : (now : ℕ) → Notification → Notification
mark_read now n = record n { is_read = true; read_at = some now }

unfoldable pub mark_sent : (now : ℕ) → Notification → Notification
mark_sent now n = record n { sent_at = some now }

abbrev pub is_owned : (user_id id : ℕ) → Notification → Bool
is_owned user_id id n = (n.id == id) && (n.user_id == user_id)

abbrev pub is_unread : (user_id : ℕ) → Notification → Bool
is_unread user_id n = (n.user_id == user_id) && not n.is_read

abbrev pub newest_first : Notification → Notification → Bool
newest_first m n = leb n.created_at m.created_at

module _ (orm : Client) where
  -- sendPushNotification: the devices, the broker, and `sentAt`; an error is logged.
  unfoldable pub send_push_notification :
      Outside → (user_id : ℕ) → Notification → (now : ℕ) → Stores → Stores
  send_push_notification outside user_id n now s = record s {
    device_tokens =
        (send_to_user orm outside.push_config user_id n.title n.message now s.device_tokens).1;
    queue =
        publish_notification_request outside.accepts user_id (type_text n.type) n.title n.message
          s.queue;
    notifications =
        (update orm notifications (having (λ m. m.id == n.id)) (mark_sent now) s.notifications).1;
  }

  unfoldable pub create :
      Outside
      → (user_id : ℕ) → CreateNotificationDto
      → (id now : ℕ) → Stores
      → Notification × Stores
  create outside user_id dto id now s =
      let n = new_notification user_id dto id now in
      let s' = record s { notifications = orm.insert n s.notifications } in
      (
        n,
        if or_else dto.send_push false || is_push dto.channel
            then send_push_notification outside user_id n now s'
            else s',
      )

  -- `take: 50`
  unfoldable pub find_all_notifications :
      (user_id : ℕ) (unread_only : Bool) → List Notification → List Notification
  find_all_notifications user_id unread_only rows = orm.slice 0 50 (
      orm.order_by newest_first (
        find_all orm notifications
          (live notifications (λ n. (n.user_id == user_id) && (not unread_only || not n.is_read)))
          rows))

  unfoldable pub find_one : (user_id id : ℕ) → List Notification → Option Notification
  find_one user_id id rows = find_first orm notifications (having (is_owned user_id id)) rows

  -- The rest of `markAsRead`; an unknown id is answered with null.
  unfoldable pub mark_found :
      (id now : ℕ)
      → List Notification
      → Option Notification
      → Result (Option Notification) × List Notification
  mark_found id now rows none = (ok none, rows)
  mark_found id now rows (some n) =
      let (written, rows') =
        update orm notifications (having (λ r. r.id == id)) (mark_read now) rows in
      elim written [ ok m ↦ (ok (some m), rows') | err e ↦ (err e, rows') ]

  unfoldable pub mark_as_read :
      (user_id id now : ℕ) → List Notification → Result (Option Notification) × List Notification
  mark_as_read user_id id now rows =
      mark_found id now rows (find_first orm notifications (having (is_owned user_id id)) rows)

  unfoldable pub mark_all_as_read : (user_id now : ℕ) → List Notification → List Notification
  mark_all_as_read user_id now rows =
      update_many orm notifications (having (is_unread user_id)) (mark_read now) rows

  -- The rest of `delete`: the row is removed, the answer says whether there was one.
  unfoldable pub delete_found :
      (id : ℕ) → List Notification → Option Notification → Bool × List Notification
  delete_found id rows none = (false, rows)
  delete_found id rows (some n) = (true, delete orm notifications (having (λ r. r.id == id)) rows)

  unfoldable pub delete_notification :
      (user_id id : ℕ) → List Notification → Bool × List Notification
  delete_notification user_id id rows =
      delete_found id rows (find_first orm notifications (having (is_owned user_id id)) rows)

  unfoldable pub get_unread_count : (user_id : ℕ) → List Notification → ℕ
  get_unread_count user_id rows = count orm notifications (having (is_unread user_id)) rows
