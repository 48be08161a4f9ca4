-- ===== src/Tests/Scan.antt =====
-- The weekly scan at a concrete input.
use money_management_app.Prelude.{ℕ, ◌+◌, ◌*◌, ◌≡◌, Bool, true, some, List, [], ◌∷◌, ◌==◌}
use money_management_app.Calendar.{day_ms}
use money_management_app.Transactions.Schema.{Transaction}
use money_management_app.Users.Schema.{User}
use money_management_app.Subscriptions.Scan.{scan_users, run_weekly_scan}
use money_management_app.Subscriptions.Everyone.{in_order, run_weekly_scan_visits}
use money_management_app.Tests.Data.{list_client, payment}
use money_management_app.Tests.Exact.{exact}
use money_management_app.Tests.People.{asha}

-- Two users; the detection of the second one takes too long.
abbrev people : List User
people = asha ∷ record asha { id = 8 } ∷ []

abbrev slow : (user_id : ℕ) → Bool
slow user_id = user_id == 8

-- Three payments, a month apart.
abbrev monthly : List Transaction
monthly =
    payment 1 7 19900 true 0
    ∷ payment 2 7 19900 true (30 * day_ms)
    ∷ payment 3 7 19900 true (60 * day_ms)
    ∷ []

run_weekly_scan_visits_example :
    run_weekly_scan list_client exact
      (λ name. name)
      (λ total count. total)
      (λ user_id n. 100 * user_id + n)
      90
      (λ e. true)
      slow
      monthly
      people
      []
      []
    ≡ some (
        scan_users list_client exact
          (λ name. name)
          (λ total count. total)
          (λ user_id n. 100 * user_id + n)
          90
          (λ e. true)
          slow
          monthly
          (in_order list_client people)
          (record { processed = 0; detected = 0; rows = []; queue = [] }))
run_weekly_scan_visits_example =
    run_weekly_scan_visits list_client exact (λ name. name) (λ total count. total)
      (λ user_id n. 100 * user_id + n) 90 (λ e. true) slow monthly people [] []
      (((λ e. cc), tt), (tt, tt))
