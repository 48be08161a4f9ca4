-- ===== src/Notifications/Alerts.antt =====
-- The alerts of backend/src/modules/notification/notification.service.ts. The rendering of numbers and
-- dates as text is the language's, and is a parameter.
use money_management_app.Prelude.{
  ℕ, zero, ◌*◌, Bool, true, false, ◌&&◌, not, Option, none, some, String, ltb, leb, ◌==◌,
  if◌then◌else◌, append, str_eq,
}
use money_management_app.Prelude.Int.{ℤ, pos, ltb_ℤ}
use money_management_app.Orm.Client.{Client}
use money_management_app.Notifications.Schema.{
  NotificationType, NotificationPriority, NotificationChannel, CreateNotificationDto, Stores,
  Outside,
}
use money_management_app.Notifications.Preferences.{get_preferences}
use money_management_app.Notifications.Service.{create}

pub record Texts : Type 0 where
  pub number : ℤ → String
  pub date : ℕ → String
  -- `percentage.toFixed(0)`
  pub percent : (part whole : ℤ) → String

infixr 65 ◌++◌
abbrev ◌++◌ : String → String → String
s ++ t = append s t

-- A number as a condition: every one but 0 is true.
abbrev pub is_nonzero : ℤ → Bool
is_nonzero (pos zero) = false
is_nonzero _ = true

abbrev pub at_merchant : Option String → String
at_merchant none = ""
at_merchant (some m) = if str_eq m "" then "" else " at " ++ m

-- `(spent / limit) * 100 >= percent`, for a limit that is not negative: without a limit the quotient
-- is infinite, or not a number if nothing was spent.
abbrev pub at_least_percent : (percent spent limit : ℕ) → Bool
at_least_percent percent spent limit =
    if limit == 0 then ltb 0 spent else leb (percent * limit) (100 * spent)

abbrev pub alert :
    (type : NotificationType) (title body : String)
    → NotificationPriority
    → (send_push : Bool) → Option NotificationChannel
    → CreateNotificationDto
alert type title body priority send_push channel = record {
  type = type;
  title = title;
  body = body;
  channel = channel;
  priority = some priority;
  send_push = some send_push;
}

module _ (orm : Client) (outside : Outside) (texts : Texts) (user_id id now : ℕ) where
  unfoldable pub send_transaction_notification :
      (amount : ℤ) (merchant : Option String) (is_credit : Bool) → Stores → Stores
  send_transaction_notification amount merchant is_credit s =
      let prefs = get_preferences orm user_id s.users in
      if not prefs.transaction_alerts
      then s
      else if is_nonzero prefs.min_amount_for_alert && ltb_ℤ amount prefs.min_amount_for_alert
      then s
      else (create orm outside user_id
          (alert NotificationType.transaction
            (if is_credit then "Money Credited" else "Money Debited")
            ((if is_credit then "₹" else "-₹") ++ texts.number amount ++ at_merchant merchant)
            NotificationPriority.normal prefs.push_enabled none)
          id now s).1

  unfoldable pub send_subscription_notification :
      (name : String) (amount : ℤ) (next_billing_date : ℕ) → Stores → Stores
  send_subscription_notification name amount next_billing_date s =
      let prefs = get_preferences orm user_id s.users in
      if not prefs.subscription_alerts
      then s
      else (create orm outside user_id
          (alert NotificationType.subscription "Upcoming Subscription Payment"
            (name ++ " of ₹" ++ texts.number amount ++ " due on " ++ texts.date next_billing_date)
            NotificationPriority.high prefs.push_enabled none)
          id now s).1

  unfoldable pub send_budget_alert : (category : String) (spent limit : ℕ) → Stores → Stores
  send_budget_alert category spent limit s =
      let prefs = get_preferences orm user_id s.users in
      if not prefs.budget_alerts
      then s
      else (create orm outside user_id
          (alert NotificationType.budget_alert
            (if at_least_percent 100 spent limit then "Budget Exceeded" else "Budget Warning")
            ("You've spent "
              ++ texts.percent (pos spent) (pos limit)
              ++ "% of your "
              ++ category
              ++ " budget (₹"
              ++ texts.number (pos spent)
              ++ " of ₹"
              ++ texts.number (pos limit)
              ++ ")")
            (if at_least_percent 90 spent limit
              then NotificationPriority.urgent
              else NotificationPriority.high)
            prefs.push_enabled none)
          id now s).1

  unfoldable pub send_insight_notification : (title body : String) → Stores → Stores
  send_insight_notification title body s =
      let prefs = get_preferences orm user_id s.users in
      if not prefs.insight_alerts
      then s
      else (create orm outside user_id
          (alert NotificationType.insight title body NotificationPriority.normal prefs.push_enabled
            none)
          id now s).1

  -- A security alert is not subject to the preferences.
  unfoldable pub send_security_alert : (title body : String) → Stores → Stores
  send_security_alert title body s =
      let prefs = get_preferences orm user_id s.users in
      (create orm outside user_id
        (alert NotificationType.security title body NotificationPriority.urgent prefs.push_enabled
          (some NotificationChannel.push))
        id now s).1
