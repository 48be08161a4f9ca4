-- ===== src/Consumers/Events.antt =====
-- The handlers of backend/src/common/consumers/rabbitmq.consumer.ts. The branches of an event that run
-- in parallel are taken one after the other, in the order of the source.
use money_management_app.Prelude.{
  ℕ, false, ◌&&◌, Option, none, some, String, List, ◌==◌, if◌then◌else◌, or_else, or_text, truthy,
  str_eq,
}
use money_management_app.Prelude.Doubles.{Doubles}
use money_management_app.Orm.Client.{Client}
use money_management_app.Orm.Query.{having, find_unique}
use money_management_app.Transactions.Schema.{Transaction, transactions}
use money_management_app.Transactions.Statistics.{is_credit, is_debit}
use money_management_app.Subscriptions.Schema.{Subscription, subscriptions}
use money_management_app.Notifications.Schema.{
  Notification, NotificationType, NotificationPriority, NotificationChannel, type_text, Outside,
}
use money_management_app.Notifications.Schema
use money_management_app.Notifications.Alerts.{
  Texts, send_transaction_notification, send_subscription_notification,
}
use money_management_app.Ai.Cache.{Cache, Outages}
use money_management_app.Consumers.Patterns.{Desk, maybe_check_for_subscription_pattern}

-- The member of the enum that a text names.
abbrev pub type_named : String → Option NotificationType
type_named s =
    if str_eq s "TRANSACTION"
    then some NotificationType.transaction
    else if str_eq s "SUBSCRIPTION"
    then some NotificationType.subscription
    else if str_eq s "BUDGET_ALERT"
    then some NotificationType.budget_alert
    else if str_eq s "INSIGHT"
    then some NotificationType.insight
    else if str_eq s "REMINDER"
    then some NotificationType.reminder
    else if str_eq s "SECURITY"
    then some NotificationType.security
    else none

abbrev pub requested :
    (user_id : ℕ) → NotificationType → (title body : String) (id now : ℕ) → Notification
requested user_id type title body id now = record {
  id = id;
  user_id = user_id;
  type = type;
  priority = NotificationPriority.normal;
  title = title;
  message = body;
  channel = NotificationChannel.push;
  is_read = false;
  read_at = none;
  sent_at = some now;
  deleted_at = none;
  created_at = now;
}

module _ (orm : Client) where
  -- A type that the database does not know is an error, which is logged.
  unfoldable pub handle_notification_request :
      (user_id : ℕ) (type title body : String) (id now : ℕ) → List Notification → List Notification
  handle_notification_request user_id type title body id now rows = elim (type_named type) [
    | none ↦ rows
    | some ty ↦ orm.insert (requested user_id ty title body id now) rows
  ]

  module _ (outside : Outside) (texts : Texts) where
    -- The alert, once the subscription has been looked for.
    unfoldable pub subscription_found :
        (user_id id now : ℕ) → Option Subscription → Schema.Stores → Schema.Stores
    unfolding send_subscription_notification
    subscription_found user_id id now none s = s
    subscription_found user_id id now (some sub) s =
        send_subscription_notification orm outside texts user_id id now sub.name sub.amount
          (or_else sub.next_billing_date now) s

    unfoldable pub handle_subscription_detected : (subscription_id user_id id now : ℕ) → Desk → Desk
    unfolding subscription_found
    handle_subscription_detected subscription_id user_id id now s = record s {
      alerts =
          subscription_found user_id id now
            (find_unique orm subscriptions (having (λ r. r.id == subscription_id))
              s.subscription_rows)
            s.alerts;
    }

    module _ (num : Doubles) (cache : Cache) (outages : Outages) (key_of : String → String) where
      -- Branch A, once the transaction has been looked for.
      unfoldable pub transaction_found :
          (user_id id alert_id sub_id now : ℕ)
          → Option Transaction
          → Desk × cache.Store
          → Desk × cache.Store
      unfolding send_transaction_notification maybe_check_for_subscription_pattern
      transaction_found user_id id alert_id sub_id now none s = s
      transaction_found user_id id alert_id sub_id now (some t) (s, store) =
          let s' = record s {
            alerts =
                send_transaction_notification orm outside texts user_id id now t.amount
                  t.merchant_name (is_credit t) s.alerts;
          } in
          if is_debit t && truthy t.merchant_name
          then maybe_check_for_subscription_pattern orm num outside texts user_id
              (or_text t.merchant_name "") sub_id alert_id now cache outages key_of (s', store)
          else (s', store)

      -- `enrich` is branch B, on the transactions and the cache, whose errors are logged.
      unfoldable pub handle_transaction_created :
          (enrich : List Transaction × cache.Store → List Transaction × cache.Store)
          → (transaction_id user_id id alert_id sub_id now : ℕ) → Desk × cache.Store
          → Desk × cache.Store
      unfolding transaction_found
      handle_transaction_created enrich transaction_id user_id id alert_id sub_id now (s, store) =
          let (s', store') =
            transaction_found user_id id alert_id sub_id now
              (find_unique orm transactions (having (λ t. t.id == transaction_id))
                s.transaction_rows)
              (s, store) in
          let (rows, store'') = enrich (s'.transaction_rows, store') in
          (record s' { transaction_rows = rows }, store'')
