-- ===== src/Transactions/Totals.antt =====
-- What the monthly statistics of backend/src/modules/transaction/transaction.service.ts leave out.
use money_management_app.Prelude.{
  ℕ, ◌+◌, ◌-◌, ◌*◌, ◌<◌, ◌≡◌, false, ◌&&◌, List, ◌∷◌, is_none, arith,
}
use money_management_app.Calendar.{local_date, month_start, day_ms}
use money_management_app.Orm.Client.{Client}
use money_management_app.Orm.Query.{live, find_all-filter, reach}
use money_management_app.Transactions.Schema.{Transaction, transactions}
use money_management_app.Transactions.Statistics.{is_month_row, get_monthly_stats}

module _ (orm : Client) (user_id : ℕ) where
  late_row :
      (year month : ℕ) (t : Transaction)
      → (month_start (year * 12 + month) - 1) * day_ms < t.transaction_date
      → (is_month_row orm user_id year month t && is_none t.deleted_at) ≡ false
  unfolding local_date
  late_row year month t late = ground arith

  -- A transaction that is dated in the asked month, but after the midnight with which its last day
  -- begins, leaves the monthly statistics as they are without it.
  pub last_day_omitted :
      (year month : ℕ) (t : Transaction) (rows : List Transaction)
      → (month_start (year * 12 + month) - 1) * day_ms < t.transaction_date
      → t.transaction_date < month_start (year * 12 + month) * day_ms
      → get_monthly_stats orm user_id year month (t ∷ rows)
        ≡ get_monthly_stats orm user_id year month rows
  unfolding get_monthly_stats reach local_date
  last_day_omitted year month t rows late inside = rw (
    find_all-filter orm transactions (live transactions (is_month_row orm user_id year month))
        (t ∷ rows),
    find_all-filter orm transactions (live transactions (is_month_row orm user_id year month)) rows,
    late_row year month t late,
  )
