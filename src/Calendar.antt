-- ===== src/Calendar.antt =====
-- The JavaScript `Date` on a server that runs in UTC: the proleptic Gregorian calendar. A point in
-- time is the number of milliseconds since 1 January of the year 1.
use money_management_app.Prelude.{
  ℕ, zero, suc, ◌+◌, ◌-◌, ◌*◌, ◌/◌, ◌%◌, Bool, ◌&&◌, ◌||◌, not, ◌==◌, if◌then◌else◌, ltb, leb,
}

abbrev pub day_ms : ℕ
day_ms = 86400000

unfoldable pub is_leap : ℕ → Bool
is_leap y = (y % 4 == 0) && (not (y % 100 == 0) || (y % 400 == 0))

-- The days of a month, numbered from 0.
unfoldable pub month_length : Bool → ℕ → ℕ
month_length leap m =
    if m == 1
    then (if leap then 29 else 28)
    else if (m == 3) || (m == 5) || (m == 8) || (m == 10)
    then 30
    else 31

-- The days of a year before one of its months.
unfoldable pub days_before_month : Bool → ℕ → ℕ
days_before_month leap zero = 0
days_before_month leap (suc m) = days_before_month leap m + month_length leap m

-- The days before the first of January of a year.
unfoldable pub days_before_year : ℕ → ℕ
days_before_year y = 365 * (y - 1) + (y - 1) / 4 + (y - 1) / 400 - (y - 1) / 100

-- The day on which a month begins; months are counted through, year * 12 + month.
unfoldable pub month_start : ℕ → ℕ
unfolding days_before_year days_before_month month_length is_leap
month_start m = days_before_year (m / 12) + days_before_month (is_leap (m / 12)) (m % 12)

-- `new Date(year, month, day)`, for a month index that may exceed 11 and a day that may be 0.
unfoldable pub local_date : (months day : ℕ) → ℕ
unfolding month_start
local_date months day = (month_start months + day - 1) * day_ms

-- `getFullYear()`, from the days since 1 January of the year 1: the first year from `y` on that ends
-- after the day.
unfoldable pub year_from : (fuel y days : ℕ) → ℕ
unfolding days_before_year
year_from zero y days = y
year_from (suc fuel) y days =
    let rest = year_from fuel (suc y) days in
    if ltb days (days_before_year (suc y)) then y else rest

-- A year has at most 366 days, and the search takes at most one step for each of the years skipped.
unfoldable pub year_of : (days : ℕ) → ℕ
unfolding year_from
year_of days = year_from (days / 366 + 2) (days / 366 + 1) days

-- The last month up to `m` that begins by the given day of the year.
unfoldable pub month_at : (leap : Bool) (day m : ℕ) → ℕ
unfolding days_before_month
month_at leap day zero = zero
month_at leap day (suc m) =
    let rest = month_at leap day m in
    if leb (days_before_month leap (suc m)) day then suc m else rest

-- The month of a time, counted through.
unfoldable pub months_of : (time : ℕ) → ℕ
unfolding year_of month_at days_before_year
months_of time =
    let days = time / day_ms in
    let y = year_of days in y * 12 + month_at (is_leap y) (days - days_before_year y) 11

-- `getDay()`: Sunday is 0, and 1 January of the year 1 is a Monday.
unfoldable pub week_day : (time : ℕ) → ℕ
week_day time = (time / day_ms + 1) % 7

-- `setMonth(getMonth() + n)`: the same day of a later month, or as many days after its end as the
-- month is too short.
unfoldable pub add_months : (n time : ℕ) → ℕ
unfolding months_of local_date month_start
add_months n time =
    let m = months_of time in local_date (m + n) (time / day_ms - month_start m + 1) + time % day_ms

-- `new Date(getFullYear(), getMonth(), 1)` and `new Date(getFullYear(), 0, 1)`
unfoldable pub month_begin : (time : ℕ) → ℕ
unfolding months_of local_date
month_begin time = local_date (months_of time) 1

unfoldable pub year_begin : (time : ℕ) → ℕ
unfolding months_of local_date
year_begin time = local_date (months_of time / 12 * 12) 1
