-- ===== src/Subscriptions/Detection.antt =====
-- detectSubscriptions and saveDetectedSubscriptions of
-- backend/src/modules/subscription/subscription.service.ts. `now` is the clock and `fresh` gives the
-- uuids of new rows. The intervals are doubles; of the amounts, deviations are compared by integers: `n` amounts of the sum `s` have
-- the mean s / n, and their standard deviation is below k percent of it when
-- 10000 * (sum of (n * a - s)²) < k² * n * s².
use money_management_app.Prelude.{
  ℕ, suc, ◌+◌, ◌-◌, ◌*◌, min, Bool, true, ◌&&◌, Option, none, some, String, List, [], ◌∷◌, map,
  length, ◌==◌, ltb, leb, if◌then◌else◌, or_text, truthy, str_eq, ◌++◌, Result, ok, err,
}
use money_management_app.Prelude.Int.{ℤ, pos, ◌-ℤ◌, ◌*ℤ◌, ltb_ℤ}
use money_management_app.Prelude.Doubles.{Doubles}
use money_management_app.Prelude.Sums.{sum_of}
use money_management_app.Calendar.{day_ms, add_months}
use money_management_app.Orm.Client.{Client}
use money_management_app.Orm.Query.{live, having, find_first, find_all, update}
use money_management_app.Broker.{Event, publish_subscription_detected}
use money_management_app.Transactions.Schema.{Transaction, transactions}
use money_management_app.Transactions.Statistics.{amount_of, is_debit}
use money_management_app.Subscriptions.Schema.{
  Frequency, daily, weekly, monthly, quarterly, yearly, active, Subscription, subscriptions,
}

-- SUBSCRIPTION_DEFAULTS.DETECTION_THRESHOLD
abbrev pub detection_threshold : ℕ
detection_threshold = 3

-- The interval between two dates in ascending order, in days.
abbrev pub interval : (num : Doubles) (d e : ℕ) → num.Num
interval num d e = num.div (num.of_nat (e - d)) (num.of_nat day_ms)

-- `intervals.reduce((a, b) => a + b, ...)`
unfoldable pub sum_intervals : (num : Doubles) (sum : num.Num) (d : ℕ) → List ℕ → num.Num
sum_intervals num sum d [] = sum
sum_intervals num sum d (e ∷ es) = sum_intervals num (num.add sum (interval num d e)) e es

-- The average interval against the bounds, in days.
unfoldable pub classify : (num : Doubles) (average : num.Num) → Frequency
classify num average =
    if num.leb_num average (num.of_nat 2)
    then daily
    else if num.leb_num average (num.of_nat 10)
    then weekly
    else if num.leb_num average (num.of_nat 40)
    then monthly
    else if num.leb_num average (num.of_nat 100)
    then quarterly
    else yearly

unfoldable pub analyze_frequency : Doubles → List ℕ → Option Frequency
unfolding sum_intervals classify
analyze_frequency num [] = none
analyze_frequency num (d ∷ []) = none
analyze_frequency num (d ∷ e ∷ es) = some (
    classify num
      (num.div (sum_intervals num (num.of_nat 0) d (e ∷ es)) (num.of_nat (suc (length es)))))

-- The sum of (n * a - s)².
abbrev pub sum_squares : (n : ℕ) (s : ℤ) → List ℤ → ℤ
sum_squares n s amounts = sum_of (λ a. (pos n *ℤ a -ℤ s) *ℤ (pos n *ℤ a -ℤ s)) amounts

-- `stdDev / avgAmount < k / 100`. A mean of 0 gives no number or infinity, a negative mean a quotient
-- that is negative or 0.
unfoldable pub varies_below : (k : ℕ) → List ℤ → Bool
varies_below k amounts =
    let n = length amounts in
    let s = sum_of (λ a. a) amounts in
    if ltb_ℤ s (pos 0)
    then true
    else ltb_ℤ (pos 10000 *ℤ sum_squares n s amounts) (pos (k * k * n) *ℤ (s *ℤ s))

-- calculateConfidence, in hundredths.
unfoldable pub calculate_confidence : List ℤ → ℕ
unfolding varies_below
calculate_confidence amounts =
    if ltb (length amounts) detection_threshold
    then 0
    else min 100 (
        50
        + min (length amounts * 5) 20
        + (if varies_below 10 amounts then 20 else if varies_below 20 amounts then 10 else 0))

-- DetectedSubscriptionDto; `amount` is the mean, as a sum and a count.
pub record Detected : Type 0 where
  pub merchant : String
  pub total : ℤ
  pub count : ℕ
  pub frequency : Frequency
  pub confidence : ℕ
  pub transaction_ids : List ℕ

-- The groups of the Map, in the order of their first members. `key` is `toLowerCase().trim()`.
unfoldable pub add_to_group :
    (key : String)
    → Transaction
    → List (String × List Transaction)
    → List (String × List Transaction)
add_to_group key t [] = (key, t ∷ []) ∷ []
add_to_group key t (g ∷ gs) =
    let rest = add_to_group key t gs in
    if str_eq g.0 key then (g.0, g.1 ++ t ∷ []) ∷ gs else g ∷ rest

-- The loop over the transactions, which skips those without a merchant.
unfoldable pub group_from :
    (key_of : String → String)
    → List (String × List Transaction)
    → List Transaction
    → List (String × List Transaction)
unfolding add_to_group
group_from key_of groups [] = groups
group_from key_of groups (t ∷ ts) =
    group_from key_of
      (if truthy t.merchant_name
        then add_to_group (key_of (or_text t.merchant_name "")) t groups
        else groups)
      ts

unfoldable pub judge_group : Doubles → String × List Transaction → Option Detected
judge_group num (merchant, txns) =
    if ltb (length txns) detection_threshold
    then none
    else elim (analyze_frequency num (map (λ t. t.transaction_date) txns)) [
      | none ↦ none
      | some frequency ↦
          let confidence = calculate_confidence (map amount_of txns) in
          if ltb confidence 50
          then none
          else some (record {
            merchant = merchant;
            total = sum_of amount_of txns;
            count = length txns;
            frequency = frequency;
            confidence = confidence;
            transaction_ids = map (λ t. t.id) txns;
          })
    ]

unfoldable pub judge_all : Doubles → List (String × List Transaction) → List Detected
judge_all num [] = []
judge_all num (g ∷ gs) =
    let rest = judge_all num gs in elim (judge_group num g) [ none ↦ rest | some d ↦ d ∷ rest ]

-- calculateNextBillingDate
unfoldable pub calculate_next_billing_date : Frequency → (now : ℕ) → ℕ
calculate_next_billing_date Frequency.daily now = now + day_ms
calculate_next_billing_date Frequency.weekly now = now + 7 * day_ms
calculate_next_billing_date Frequency.monthly now = add_months 1 now
calculate_next_billing_date Frequency.quarterly now = add_months 3 now
calculate_next_billing_date Frequency.yearly now = add_months 12 now

-- What a detected subscription overwrites; `mean` rounds an average to the column's hundredths.
unfoldable pub set_detected : (amount : ℤ) → Frequency → Subscription → Subscription
set_detected amount frequency s = record s { amount = amount; frequency = frequency }

unfoldable pub new_detected : (user_id : ℕ) → (amount : ℤ) → Detected → (id now : ℕ) → Subscription
new_detected user_id amount d id now = record {
  id = id;
  user_id = user_id;
  name = d.merchant;
  merchant_name = d.merchant;
  amount = amount;
  frequency = d.frequency;
  status = active;
  category_id = none;
  next_billing_date = some (calculate_next_billing_date d.frequency now);
  notes = none;
  deleted_at = none;
  created_at = now;
}

module _ (orm : Client) where
  unfoldable pub detect_subscriptions :
      (num : Doubles) (key_of : String → String) (user_id : ℕ) → List Transaction → List Detected
  detect_subscriptions num key_of user_id rows = judge_all num (
      group_from key_of [] (
        orm.order_by (λ s t. leb s.transaction_date t.transaction_date)
          (find_all orm transactions (live transactions (λ t. (t.user_id == user_id) && is_debit t))
            rows)))

  module _ (mean : (total : ℤ) (count : ℕ) → ℤ) (user_id : ℕ) (fresh : ℕ → ℕ) (now : ℕ) where
    unfoldable pub save_one :
        Detected
        → (n : ℕ) → List Subscription
        → Option Subscription
        → Result Subscription × List Subscription
    save_one d n rows none =
        let s = new_detected user_id (mean d.total d.count) d (fresh n) now in
        (ok s, orm.insert s rows)
    save_one d n rows (some existing) =
        update orm subscriptions (having (λ s. s.id == existing.id))
          (set_detected (mean d.total d.count) d.frequency) rows

    abbrev pub is_same_merchant : Detected → Subscription → Bool
    is_same_merchant d s =
        (s.user_id == user_id) && orm.contains_insensitive s.merchant_name d.merchant

    -- The first loop of `saveDetectedSubscriptions`, which stops at the first error.
    unfoldable pub save_all :
        List Detected → (n : ℕ) → List Subscription → Result (List Subscription) × List Subscription
    save_all [] n rows = (ok [], rows)
    save_all (d ∷ ds) n rows =
        let (first, rows') =
          save_one d n rows
            (find_first orm subscriptions (live subscriptions (is_same_merchant d)) rows) in
        let (others, rows'') = save_all ds (suc n) rows' in
        elim first [
          | err e ↦ (err e, rows')
          | ok s ↦ elim others [ err e ↦ (err e, rows'') | ok ss ↦ (ok (s ∷ ss), rows'') ]
        ]

    -- The second loop publishes an event for each.
    unfoldable pub publish_all :
        (accepts : Event → Bool) → List Subscription → List Event → List Event
    publish_all accepts [] queue = queue
    publish_all accepts (s ∷ ss) queue =
        publish_all accepts ss
          (publish_subscription_detected accepts s.id user_id s.merchant_name s.amount queue)

    unfoldable pub save_detected :
        (accepts : Event → Bool)
        → List Detected
        → List Subscription
        → List Event
        → Result (List Subscription) × List Subscription × List Event
    save_detected accepts ds rows queue =
        let (saved, rows') = save_all ds 0 rows in
        elim saved [
          | err e ↦ (err e, rows', queue)
          | ok ss ↦ (ok ss, rows', publish_all accepts ss queue)
        ]
