-- ===== src/Consumers/Repeated.antt =====
-- The detection of a pattern that runs again.
use money_management_app.Prelude.{
  ℕ, ◌≡◌, refl, sym, ap, ◌∙◌, true, false, Option, none, some, String, List, map, length, ltb,
  ==_refl, eq_iff, find, find-snoc, Bool-cases, Option-cases, inl, inr, arith,
}
use money_management_app.Prelude.Int.{ℤ}
use money_management_app.Prelude.Sums.{sum_of}
use money_management_app.Prelude.Rounding.{round_div_ℤ}
use money_management_app.Prelude.Doubles.{Doubles}
use money_management_app.Orm.Client.{Client}
use money_management_app.Orm.SoftDelete.{Action}
use money_management_app.Orm.Query.{having, reach, find_all, find_first, find_first-find}
use money_management_app.Transactions.Schema.{Transaction, transactions}
use money_management_app.Transactions.Statistics.{amount_of}
use money_management_app.Subscriptions.Schema.{Frequency, Subscription, subscriptions}
use money_management_app.Subscriptions.Detection.{analyze_frequency, varies_below}
use money_management_app.Notifications.Schema.{Outside}
use money_management_app.Notifications.Alerts.{Texts}
use money_management_app.Consumers.Patterns.{
  Desk, is_payment_to, is_subscribed, oldest_first, detected_subscription, subscribe,
  check_for_subscription_pattern,
}

module _ (orm : Client) (num : Doubles) (outside : Outside) (texts : Texts) (user_id : ℕ)
    (merchant : String) where
  abbrev pub check_at : (id alert_id now : ℕ) → Desk → Desk
  check_at id alert_id now s =
      check_for_subscription_pattern orm num outside texts user_id merchant id alert_id now s

  abbrev known : List Subscription → Option Subscription
  known rows = find_first orm subscriptions (having (is_subscribed user_id merchant)) rows

  abbrev payments : Desk → List Transaction
  payments s =
      orm.order_by oldest_first
        (find_all orm transactions (having (is_payment_to user_id merchant)) s.transaction_rows)

  check_short :
      (id alert_id now : ℕ) (s : Desk)
      → ltb (length (payments s)) 3 ≡ true
      → check_at id alert_id now s ≡ s
  unfolding check_for_subscription_pattern
  check_short id alert_id now s e = rw (e, check_for_subscription_pattern)

  check_known :
      (id alert_id now : ℕ) (s : Desk) {x : Subscription}
      → known s.subscription_rows ≡ some x
      → check_at id alert_id now s ≡ s
  unfolding check_for_subscription_pattern
  check_known id alert_id now s e = elim (Bool-cases (ltb (length (payments s)) 3)) [
    | inl short ↦ check_short id alert_id now s short
    | inr enough ↦ rw (enough, check_for_subscription_pattern) (rw e)
  ]

  known_after :
      (mean : ℤ) (frequency : Frequency) (id now : ℕ) (rows : List Subscription)
      → known rows ≡ none
      → known (orm.insert (detected_subscription user_id merchant mean frequency id now) rows)
        ≡ some (detected_subscription user_id merchant mean frequency id now)
  unfolding reach
  known_after mean frequency id now rows e =
      let w = having (is_subscribed user_id merchant) in
      let p = reach subscriptions Action.find_first w in
      let new = detected_subscription user_id merchant mean frequency id now in
      let hit : p new ≡ true = ground (arith, ==_refl user_id, (eq_iff merchant merchant).1 refl) in
      find_first-find orm subscriptions w (orm.insert new rows)
      ∙ ap (find p) (orm.insert-append new rows)
      ∙ find-snoc p rows new
      ∙ rw (sym (find_first-find orm subscriptions w rows) ∙ e, hit)

  -- With enough payments and no subscription, the frequency decides.
  check_open :
      (id alert_id now : ℕ) (s : Desk)
      → ltb (length (payments s)) 3 ≡ false
      → known s.subscription_rows ≡ none
      → check_at id alert_id now s
        ≡ (elim (analyze_frequency num
            (map (λ (t : Transaction). t.transaction_date) (payments s))) [
              | none ↦ s
              | some frequency ↦
                  subscribe orm num outside texts user_id merchant id alert_id now frequency
                    (payments s)
                    s
            ])
  unfolding check_for_subscription_pattern
  check_open id alert_id now s enough e = rw (enough, check_for_subscription_pattern) (rw e)

  -- What is subscribed to is known afterwards, or nothing has been done.
  subscribed-known :
      (frequency : Frequency) (id alert_id now later_id later_alert later : ℕ) (s : Desk)
      → known s.subscription_rows ≡ none
      → check_at id alert_id now s
        ≡ subscribe orm num outside texts user_id merchant id alert_id now frequency (payments s) s
      → check_at later_id later_alert later s
        ≡ subscribe orm num outside texts user_id merchant later_id later_alert later frequency
            (payments s)
            s
      → check_at later_id later_alert later (check_at id alert_id now s)
        ≡ check_at id alert_id now s
  unfolding subscribe
  subscribed-known frequency id alert_id now later_id later_alert later s e first again =
      let mean = round_div_ℤ (sum_of amount_of (payments s)) (length (payments s)) in
      elim (Bool-cases (varies_below 30 (map amount_of (payments s)))) [
        | inl even ↦ rw first (
            rw (even, subscribe)
              (check_known later_id later_alert later _
                (known_after mean frequency id now s.subscription_rows e)))
        | inr uneven ↦ rw first (rw (uneven, subscribe) (again ∙ rw (uneven, subscribe)))
      ]

  -- Running the detection for a merchant again, at any later time, does nothing more than running it once: no
  -- second subscription, and no second alert.
  pub check_for_subscription_pattern_idempotent :
      (id alert_id now later_id later_alert later : ℕ) (s : Desk)
      → check_at later_id later_alert later (check_at id alert_id now s)
        ≡ check_at id alert_id now s
  check_for_subscription_pattern_idempotent id alert_id now later_id later_alert later s =
      elim (Bool-cases (ltb (length (payments s)) 3)) [
        | inl short ↦
            rw (check_short id alert_id now s short)
              (check_short later_id later_alert later s short)
        | inr enough ↦ elim (Option-cases (known s.subscription_rows)) [
          | inr (x, e) ↦
              rw (check_known id alert_id now s e) (check_known later_id later_alert later s e)
          | inl e ↦
              let first = check_open id alert_id now s enough e in
              let again = check_open later_id later_alert later s enough e in
              elim (Option-cases (
                analyze_frequency num
                  (map (λ (t : Transaction). t.transaction_date) (payments s)))) [
                    | inl irregular ↦
                        let still : check_at id alert_id now s ≡ s = first ∙ rw irregular in
                        let still' : check_at later_id later_alert later s ≡ s =
                          again ∙ rw irregular in
                        rw still still'
                    | inr (frequency, regular) ↦
                        subscribed-known frequency id alert_id now later_id later_alert later s e
                          (first ∙ rw regular) (again ∙ rw regular)
                  ]
        ]
      ]
