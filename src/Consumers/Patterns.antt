-- ===== src/Consumers/Patterns.antt =====
-- The detection of subscriptions in backend/src/common/consumers/rabbitmq.consumer.ts, which runs once
-- for a merchant in a cooldown. Its analyzeFrequency and calculateNextBillingDate are those of the
-- subscription service, word for word.
use money_management_app.Prelude.{
  ℕ, ◌*◌, Bool, false, ◌&&◌, none, some, String, List, map, length, ◌==◌, ltb, leb, if◌then◌else◌,
  str_eq,
}
use money_management_app.Prelude.Int.{ℤ}
use money_management_app.Prelude.Doubles.{Doubles}
use money_management_app.Prelude.Sums.{sum_of}
use money_management_app.Prelude.Rounding.{round_div_ℤ}
use money_management_app.Orm.Client.{Client}
use money_management_app.Orm.Query.{having, find_first, find_all}
use money_management_app.Transactions.Schema.{Transaction, transactions}
use money_management_app.Transactions.Statistics.{amount_of, is_debit}
use money_management_app.Subscriptions.Schema.{Frequency, active, Subscription, subscriptions}
use money_management_app.Subscriptions.Service.{same_status}
use money_management_app.Subscriptions.Detection.{
  analyze_frequency, varies_below, calculate_next_billing_date,
}
use money_management_app.Notifications.Schema.{Outside}
use money_management_app.Notifications.Schema
use money_management_app.Notifications.Alerts.{Texts, send_subscription_notification}
use money_management_app.Ai.Json.{Json, is_truthy}
use money_management_app.Ai.Cache.{Key, Cache, Outages}

-- SUB_DETECT_COOLDOWN_SECONDS
abbrev pub sub_detect_cooldown_seconds : ℕ
sub_detect_cooldown_seconds = 60 * 60

-- The tables and the queue that the detection reads and writes.
pub record Desk : Type 0 where
  pub transaction_rows : List Transaction
  pub subscription_rows : List Subscription
  pub alerts : Schema.Stores

-- `{ userId, merchantName, type: 'DEBIT' }`
abbrev pub is_payment_to : (user_id : ℕ) (merchant : String) → Transaction → Bool
is_payment_to user_id merchant t =
    (t.user_id == user_id)
    && (elim t.merchant_name [ none ↦ false | some m ↦ str_eq m merchant ])
    && is_debit t

-- `{ userId, merchantName, status: 'ACTIVE' }`
abbrev pub is_subscribed : (user_id : ℕ) (merchant : String) → Subscription → Bool
is_subscribed user_id merchant s =
    (s.user_id == user_id) && str_eq s.merchant_name merchant && same_status s.status active

abbrev pub oldest_first : Transaction → Transaction → Bool
oldest_first s t = leb s.transaction_date t.transaction_date

-- The columns that the model of a subscription has; the mean is rounded to hundredths.
abbrev pub detected_subscription :
    (user_id : ℕ) (merchant : String) (mean : ℤ) → Frequency → (id now : ℕ) → Subscription
detected_subscription user_id merchant mean frequency id now = record {
  id = id;
  user_id = user_id;
  name = merchant;
  merchant_name = merchant;
  amount = mean;
  frequency = frequency;
  status = active;
  category_id = none;
  next_billing_date = some (calculate_next_billing_date frequency now);
  notes = none;
  deleted_at = none;
  created_at = now;
}

module _ (orm : Client) (num : Doubles) (outside : Outside) (texts : Texts) (user_id : ℕ)
    (merchant : String) (id alert_id now : ℕ) where
  -- The subscription, when the amounts are consistent.
  unfoldable pub subscribe : Frequency → List Transaction → Desk → Desk
  unfolding send_subscription_notification calculate_next_billing_date varies_below
  subscribe frequency txs s =
      let mean = round_div_ℤ (sum_of amount_of txs) (length txs) in
      if varies_below 30 (map amount_of txs)
      then record s {
        subscription_rows =
            orm.insert (detected_subscription user_id merchant mean frequency id now)
              s.subscription_rows;
        alerts =
            send_subscription_notification orm outside texts user_id alert_id now merchant mean
              (calculate_next_billing_date frequency now) s.alerts;
      }
      else s

  unfoldable pub check_for_subscription_pattern : Desk → Desk
  unfolding subscribe analyze_frequency
  check_for_subscription_pattern s =
      let txs =
        orm.order_by oldest_first (
          find_all orm transactions (having (is_payment_to user_id merchant)) s.transaction_rows) in
      if ltb (length txs) 3
      then s
      else elim (find_first orm subscriptions (having (is_subscribed user_id merchant))
          s.subscription_rows) [
            | some _ ↦ s
            | none ↦ elim (analyze_frequency num (map (λ t. t.transaction_date) txs)) [
              | none ↦ s
              | some frequency ↦ subscribe frequency txs s
            ]
          ]

  module _ (cache : Cache) (outages : Outages) (key_of : String → String) where
    -- The cooldown, which a read of the cache that throws does not have.
    abbrev pub cooling : cache.Store → Bool
    cooling store =
        if outages.get_fails
        then false
        else is_truthy (cache.get now (Key.detection user_id (key_of merchant)) store)

    abbrev pub hold_detection : cache.Store → cache.Store
    hold_detection store =
        if outages.set_fails
        then store
        else cache.set now (Key.detection user_id (key_of merchant)) (Json.str "1")
            (sub_detect_cooldown_seconds * 1000) store

    -- `key_of` is `toLowerCase().trim()`.
    unfoldable pub maybe_check_for_subscription_pattern : Desk × cache.Store → Desk × cache.Store
    unfolding check_for_subscription_pattern
    maybe_check_for_subscription_pattern (s, store) =
        if cooling store
        then (s, store)
        else (check_for_subscription_pattern s, hold_detection store)
