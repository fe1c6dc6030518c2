-- ===== src/Calendar.antt =====
-- What internal/server/traffic.go uses of Go's package time, in UTC: Year, Month, Day, Date with
-- its normalisation of days and months out of range, and AddDate by months.
-- An instant is the number of nanoseconds since the zero Time, 1 January of year 1, so IsZero is a
-- test for 0. A month is counted from January of year 1 as month 0.
pub mod Months
use dingzi.Base.{
  ℕ, zero, suc, ◌+◌, ◌-◌, ◌*◌, ◌/◌, ◌%◌, ◌≤◌, ◌<◌, ◌≡◌, Bool, true, false, not, ◌&&◌, ◌||◌, arith,
  ltb, leb, eqb, if◌then◌else◌, Bool-cases, inl, inr,
}

abbrev pub second_ns : ℕ
second_ns = 1_000_000_000

abbrev pub day_ns : ℕ
day_ns = 86_400 * second_ns

-- `y` counts years from 1; the Gregorian rule for the year y + 1.
unfoldable pub is_leap : ℕ → Bool
is_leap y = eqb ((y + 1) % 4) 0 && (not (eqb ((y + 1) % 100) 0) || eqb ((y + 1) % 400) 0)

-- The days before the first of January of the year y + 1.
unfoldable pub days_before_year : ℕ → ℕ
days_before_year y = 365 * y + y / 4 - y / 100 + y / 400

-- The lengths of the months of a year, January first.
unfoldable pub days_in_month : ℕ → ℕ → ℕ
unfolding is_leap
days_in_month y m =
    if eqb m 1
    then (if is_leap y then 29 else 28)
    else if eqb m 3 || eqb m 5 || eqb m 8 || eqb m 10
    then 30
    else 31

-- The days of the year before its month m.
unfoldable pub days_before_month : ℕ → ℕ → ℕ
unfolding days_in_month
days_before_month y zero = 0
days_before_month y (suc m) = days_before_month y m + days_in_month y m

unfoldable pub month_length : ℕ → ℕ
unfolding days_in_month
month_length k = days_in_month (k / 12) (k % 12)

unfoldable pub month_start : ℕ → ℕ
unfolding days_before_year days_before_month
month_start k = days_before_year (k / 12) + days_before_month (k / 12) (k % 12)

unfoldable pub find_month : ℕ → ℕ → ℕ → ℕ
unfolding month_start
find_month zero d k = k
find_month (suc fuel) d k = elim (leb (month_start (k + 1)) d) [
  | true ↦ find_month fuel d (k + 1)
  | false ↦ k
]

-- The month in which a day lies. No month has more than 31 days, so the search starts at d / 31.
unfoldable pub month_of_day : ℕ → ℕ
month_of_day d = find_month (d + 1) d (d / 31)

unfoldable pub month_index : ℕ → ℕ
month_index t = month_of_day (t / day_ns)

-- t.Year(), t.Month() and t.Day()
unfoldable pub year : ℕ → ℕ
year t = month_index t / 12 + 1

unfoldable pub month : ℕ → ℕ
month t = month_index t % 12 + 1

unfoldable pub day : ℕ → ℕ
day t = t / day_ns - month_start (month_index t) + 1

-- Midnight of day d of the month; d 0 is the last day of the month before.
unfoldable pub date_at : ℕ → ℕ → ℕ
date_at k d = (month_start k + d - 1) * day_ns

-- time.Date(y, m, d, 0, 0, 0, 0, time.UTC); m 13 is January of the next year.
unfoldable pub date : ℕ → ℕ → ℕ → ℕ
date y m d = date_at ((y - 1) * 12 + (m - 1)) d

-- t.AddDate(0, -1, 0) at a midnight
unfoldable pub month_before : ℕ → ℕ
month_before t = date_at (month_index t - 1) (day t)
