-- ===== src/Calendar/Months.antt =====
-- Months tile the days, so every day lies in exactly one of them.
use dingzi.Base.{
  ℕ, zero, suc, ◌+◌, ◌-◌, ◌*◌, ◌/◌, ◌%◌, ◌≤◌, ◌<◌, ◌≡◌, ◌⊎◌, refl, arith, leb, if◌then◌else◌,
  Bool-cases, inl, inr, ap, leb→le,
}
use native.Mathlib.Nat.{add-zero}
use native.Mathlib.Decide.{dec_lt}
use dingzi.Calendar.{
  day_ns, is_leap, days_before_year, days_in_month, days_before_month, month_length, month_start,
  find_month, month_of_day, month_index, year, month, day, date_at, date, month_before,
}

leap_step :
    (y : ℕ) → days_before_year (y + 1) ≡ days_before_year y + 365 + (if is_leap y then 1 else 0)
unfolding days_before_year is_leap
leap_step y = ground arith

year_length : (y : ℕ) → days_before_month y 12 ≡ 365 + (if is_leap y then 1 else 0)
unfolding days_before_month days_in_month
year_length y = ground arith

month_length_range : (k : ℕ) → (28 ≤ month_length k) × (month_length k ≤ 31)
unfolding month_length
month_length_range k = ground arith

-- The same month of the year, or January of the next year.
next_month :
    (k : ℕ)
    → (((k + 1) / 12 ≡ k / 12) × ((k + 1) % 12 ≡ suc (k % 12)))
      ⊎ (((k + 1) / 12 ≡ k / 12 + 1) × ((k + 1) % 12 ≡ 0) × (k % 12 ≡ 11))
next_month k = elim (dec_lt (k % 12) 11) [
  | yes h ↦ inl (omega arith, omega arith)
  | no h ↦ inr (omega arith, omega arith, omega arith)
]

pub month_start-suc : (k : ℕ) → month_start (k + 1) ≡ month_start k + month_length k
unfolding month_start month_length days_before_month
month_start-suc k = elim (next_month k) [
  | inl (y, m) ↦ rw (y, m) (omega arith)
  | inr (y, m, last) ↦ rw (y, m, last) (omega (arith, leap_step (k / 12), year_length (k / 12)))
]

month_start-add : (j k : ℕ) → month_start k + j ≤ month_start (k + j)
month_start-add zero k = simp add-zero (omega arith)
month_start-add (suc j) k =
    let e : k + suc j ≡ k + j + 1 = omega arith in
    rw e (omega (arith, month_start-add j k, month_start-suc (k + j), month_length_range (k + j)))

pub month_start_mono : (j k : ℕ) → j ≤ k → month_start j ≤ month_start k
month_start_mono j k h =
    let e : k ≡ j + (k - j) = omega arith in
    omega (arith, month_start-add (k - j) j, ap month_start e)

month_start_zero : month_start 0 ≡ 0
unfolding month_start
month_start_zero = refl

pub month_start-le : (k : ℕ) → month_start k ≤ 31 * k
month_start-le zero = omega (arith, month_start_zero)
month_start-le (suc k) =
    let e : suc k ≡ k + 1 = omega arith in
    omega (arith, ap month_start e, month_start-le k, month_start-suc k, month_length_range k)

-- The day d lies in the month k.
pub record Lies (d k : ℕ) : Type 0 where
  pub from : month_start k ≤ d
  pub until : d < month_start (k + 1)

-- A day lies in one month only.
pub Lies-unique : (d j k : ℕ) → Lies d j → Lies d k → j ≡ k
Lies-unique d j k a b = elim (dec_lt j k) [
  | yes lt ↦ absurd (omega (arith, a.until, b.from, month_start_mono (j + 1) k (omega arith)))
  | no ge ↦ elim (dec_lt k j) [
    | yes gt ↦ absurd (omega (arith, b.until, a.from, month_start_mono (k + 1) j (omega arith)))
    | no le ↦ omega arith
  ]
]

find_month-Lies :
    (fuel d k : ℕ) → month_start k ≤ d → d < month_start k + fuel → Lies d (find_month fuel d k)
unfolding find_month
find_month-Lies zero d k lo hi = absurd (omega arith)
find_month-Lies (suc fuel) d k lo hi = elim (Bool-cases (leb (month_start (k + 1)) d)) [
  | inl on ↦
      rw (on, find_month)
        (find_month-Lies fuel d (k + 1) (leb→le _ _ on)
          (omega (arith, month_start-suc k, month_length_range k)))
  | inr here ↦ rw (here, find_month) (record { from = lo; until = ground arith })
]

-- The search ends within its fuel, in the month of the day.
pub month_of_day-Lies : (d : ℕ) → Lies d (month_of_day d)
unfolding month_of_day
month_of_day-Lies d =
    find_month-Lies (d + 1) d (d / 31) (omega (arith, month_start-le (d / 31))) (omega arith)

-- The date of a day of a month is read back from its midnight.
module _ (k d : ℕ) (lo : 1 ≤ d) (hi : d ≤ month_length k) where
  day_number : date_at k d / day_ns ≡ month_start k + d - 1
  unfolding date_at
  day_number = omega arith

  pub month_index-date_at : month_index (date_at k d) ≡ k
  unfolding month_index
  month_index-date_at = rw day_number (
      Lies-unique (month_start k + d - 1) (month_of_day (month_start k + d - 1)) k
        (month_of_day-Lies (month_start k + d - 1))
        (record { from = omega arith; until = omega (arith, month_start-suc k) }))

  pub day-date_at : day (date_at k d) ≡ d
  unfolding day
  day-date_at = rw (month_index-date_at, day_number) (omega arith)

pub month_length_pos : (k : ℕ) → 1 ≤ month_length k
month_length_pos k = omega (arith, month_length_range k)

-- Year and month make up the index, so Date at the year and month of an instant is a day of its
-- month.
pub date-same_month : (t d : ℕ) → date (year t) (month t) d ≡ date_at (month_index t) d
unfolding date year month
date-same_month t d = ap (λ k. date_at k d) (omega arith)

date_at_last : (k : ℕ) → date_at (k + 1) 0 ≡ date_at k (month_length k)
unfolding date_at
date_at_last k = ap (λ (n : ℕ). n * day_ns) (omega (arith, month_start-suc k))

-- `time.Date(year, month+1, 0).Day()` is the length of the month.
pub last_day : (t : ℕ) → day (date (year t) (month t + 1) 0) ≡ month_length (month_index t)
unfolding date year month
last_day t =
    let k = month_index t in
    let e : (k / 12 + 1 - 1) * 12 + (k % 12 + 1 + 1 - 1) ≡ k + 1 = omega arith in
    rw (e, date_at_last k) (day-date_at k (month_length k) (month_length_pos k) (omega arith))

pub date_at_day : (k d : ℕ) → 1 ≤ d → date_at k d ≡ (month_start k + (d - 1)) * day_ns
unfolding date_at
date_at_day k d lo = ap (λ (n : ℕ). n * day_ns) (omega arith)

pub month_index-Lies : (t : ℕ) → Lies (t / day_ns) (month_index t)
unfolding month_index
month_index-Lies t = month_of_day-Lies (t / day_ns)

-- `time.Date(y, m, 1)` of the month before, found as the source finds it.
pub month_before_lem :
    (t : ℕ) → month_index (month_before (date (year t) (month t) 1)) ≡ month_index t - 1
unfolding month_before
month_before_lem t =
    let k = month_index t in
    let first : date (year t) (month t) 1 ≡ date_at k 1 = date-same_month t 1 in
    let one : 1 ≤ month_length k = month_length_pos k in
    rw (first, month_index-date_at k 1 (omega arith) one, day-date_at k 1 (omega arith) one)
      (month_index-date_at (k - 1) 1 (omega arith) (month_length_pos (k - 1)))
