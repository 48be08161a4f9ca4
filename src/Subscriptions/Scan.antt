-- ===== src/Subscriptions/Scan.antt =====
-- backend/src/modules/subscription/subscription-scan.cron.ts: the weekly scan over all users. The
-- schedule and the log lines are left out.
use money_management_app.Prelude.{
  ℕ, zero, suc, ◌+◌, Bool, true, false, Option, none, some, String, List, [], ◌∷◌, length, leb, ltb,
  if◌then◌else◌, Result, ok, err, internal,
}
use money_management_app.Prelude.Int.{ℤ}
use money_management_app.Prelude.Doubles.{Doubles}
use money_management_app.Broker.{Event}
use money_management_app.Orm.Client.{Client}
use money_management_app.Orm.Query.{having, find_all}
use money_management_app.Orm.Cursor.{last, page_after}
use money_management_app.Transactions.Schema.{Transaction}
use money_management_app.Users.Schema.{User, users}
use money_management_app.Subscriptions.Schema.{Subscription}
use money_management_app.Subscriptions.Detection.{Detected, detect_subscriptions, save_detected}

abbrev pub users_per_batch : ℕ
users_per_batch = 200

-- The counters of the scan, the subscriptions, and the queue of the broker.
pub record Progress : Type 0 where
  pub processed : ℕ
  pub detected : ℕ
  pub rows : List Subscription
  pub queue : List Event

-- The rest of the detection of a user, after the answer of saveDetectedSubscriptions.
unfoldable pub saved_count :
    Progress → Result (List Subscription) × List Subscription × List Event → Result ℕ × Progress
saved_count s (err e, rows, queue) = (err e, record s { rows = rows; queue = queue })
saved_count s (ok saved, rows, queue) = (ok (length saved), record s { rows = rows; queue = queue })

-- The answer of a user counts when there is one; otherwise it is logged.
unfoldable pub counted : Result ℕ × Progress → Progress
counted (err e, s) = s
counted (ok n, s) = record s { processed = s.processed + 1; detected = s.detected + n }

abbrev pub by_id : User → User → Bool
by_id u v = leb u.id v.id

-- The active users, in the order in which they are paged.
abbrev pub active_users : Client → List User → List User
active_users orm people = orm.order_by by_id (find_all orm users (having (λ u. u.is_active)) people)

module _ (orm : Client) (num : Doubles) (key_of : String → String)
    (mean : (total : ℤ) (count : ℕ) → ℤ) (fresh : (user_id n : ℕ) → ℕ) (now : ℕ)
    (accepts : Event → Bool) (times_out : (user_id : ℕ) → Bool) (txns : List Transaction) where
  unfoldable pub detect_and_save : (user_id : ℕ) → List Detected → Progress → Result ℕ × Progress
  unfolding saved_count
  detect_and_save user_id [] s = (ok 0, s)
  detect_and_save user_id (d ∷ ds) s =
      saved_count s
        (save_detected orm mean user_id (fresh user_id) now accepts (d ∷ ds) s.rows s.queue)

  -- A detection that loses the race against the timeout is not stopped: what it writes stays.
  unfoldable pub run_for_user_with_timeout : (user_id : ℕ) → Progress → Result ℕ × Progress
  unfolding detect_and_save
  run_for_user_with_timeout user_id s =
      let found = detect_and_save user_id (detect_subscriptions orm num key_of user_id txns) s in
      if times_out user_id then (err internal, found.1) else found

  -- The loop over the users of a page.
  unfoldable pub scan_users : List User → Progress → Progress
  unfolding counted run_for_user_with_timeout
  scan_users [] s = s
  scan_users (u ∷ us) s = scan_users us (counted (run_for_user_with_timeout u.id s))

  -- The `while` loop over the ordered users; `none` when the fuel runs out.
  unfoldable pub scan_pages :
      (size fuel : ℕ) (people : List User) (cursor : Option ℕ) → Progress → Option Progress
  unfolding scan_users
  scan_pages size zero people cursor s = none
  scan_pages size (suc fuel) people cursor s =
      let page = page_after orm (λ u. u.id) cursor size people in
      elim (last page) [
        | none ↦ some s
        | some u ↦ elim (ltb (length page) size) [
          | true ↦ some (scan_users page s)
          | false ↦ scan_pages size fuel people (some u.id) (scan_users page s)
        ]
      ]

  unfoldable pub run_weekly_scan :
      (people : List User) (rows : List Subscription) (queue : List Event) → Option Progress
  unfolding scan_pages
  run_weekly_scan people rows queue =
      scan_pages users_per_batch (suc (length (active_users orm people))) (active_users orm people)
        none (record { processed = 0; detected = 0; rows = rows; queue = queue })
