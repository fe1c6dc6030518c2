-- ===== src/Traffic/Cycle.antt =====
-- CycleStart: the latest cycle boundary at or before an instant.
use dingzi.Base.{
  ℕ, ◌+◌, ◌-◌, ◌*◌, ◌≤◌, ◌<◌, ◌≡◌, ◌≢◌, refl, arith, ltb, if◌then◌else◌, Bool-cases, inl, inr, ap,
  ◌∙◌, sym, ltb→lt, min, max,
}
use native.Mathlib.Decide.{dec_lt}
use dingzi.Calendar.{
  day_ns, year, month, date, date_at, month_before, month_index, month_length, month_start,
}
use dingzi.Calendar.Months.{
  month_index-Lies, month_index-date_at, last_day, date-same_month, month_before_lem,
  month_start-suc, month_length_pos, date_at_day, month_start_mono, month_start-le,
}
use dingzi.Traffic.{clamp_day, cycle_start}

-- The day of month k on which a cycle with this reset day turns over: a day that the month does
-- not have is replaced by its last.
abbrev pub boundary_day : ℕ → ℕ → ℕ
boundary_day reset_day k = min (max reset_day 1) (month_length k)

-- Midnight UTC of that day.
abbrev pub boundary : ℕ → ℕ → ℕ
boundary reset_day k = date_at k (boundary_day reset_day k)

clamp_day-boundary_day : (r t : ℕ) → clamp_day r (year t) (month t) ≡ boundary_day r (month_index t)
unfolding clamp_day
clamp_day-boundary_day r t = ground (arith, last_day t, month_length_pos (month_index t))

date-boundary :
    (r t : ℕ)
    → date (year t) (month t) (clamp_day r (year t) (month t)) ≡ boundary r (month_index t)
date-boundary r t =
    rw (clamp_day-boundary_day r t) (date-same_month t (boundary_day r (month_index t)))

-- The boundary of the month before, found as the source finds it.
prev-boundary :
    (r t : ℕ)
    → let before = month_before (date (year t) (month t) 1) in
      let prev = date (year before) (month before) 1 in
      date (year prev) (month prev) (clamp_day r (year prev) (month prev))
      ≡ boundary r (month_index t - 1)
prev-boundary r t =
    let before = month_before (date (year t) (month t) 1) in
    let prev = date (year before) (month before) 1 in
    let same : month_index prev ≡ month_index before = rw (date-same_month before 1) (
      month_index-date_at (month_index before) 1 (omega arith)
        (month_length_pos (month_index before))) in
    date-boundary r prev ∙ ap (boundary r) (same ∙ month_before_lem t)

-- CycleStart in terms of months.
cycle_start-boundary :
    (now r : ℕ)
    → cycle_start now r ≡ (
        if ltb now (boundary r (month_index now))
        then boundary r (month_index now - 1)
        else boundary r (month_index now))
unfolding cycle_start
cycle_start-boundary now r = rw (date-boundary r now, prev-boundary r now)

module _ (r k : ℕ) where
  boundary-ge : month_start k * day_ns ≤ boundary r k
  boundary-ge = omega (
    arith,
    month_length_pos k,
    date_at_day k (boundary_day r k) (omega (arith, month_length_pos k)),
  )

  boundary-lt : boundary r k < month_start (k + 1) * day_ns
  boundary-lt = omega (
    arith,
    month_length_pos k,
    month_start-suc k,
    date_at_day k (boundary_day r k) (omega (arith, month_length_pos k)),
  )

  in_cycle : (j : ℕ) → k < j → boundary r k < month_start j * day_ns
  in_cycle j h = omega (arith, boundary-lt, month_start_mono (k + 1) j (omega arith))

boundary_mono : (r j k : ℕ) → j < k → boundary r j < boundary r k
boundary_mono r j k h = omega (arith, in_cycle r j k h, boundary-ge r k)

first_month : (t : ℕ) → month_index t ≡ 0 → t < 31 * day_ns
first_month t e = omega (
  arith,
  (month_index-Lies t).until,
  ap (λ k. month_start (k + 1)) e,
  month_start-le 1,
  ap month_start (one_more),
)
  where
    one_more : ◌≡◌ {A = ℕ} (0 + 1) 1
    one_more = refl

-- An instant lies in the cycle that begins in month k.
pub record InCycle (r now k : ℕ) : Type 0 where
  pub begun : boundary r k ≤ now
  pub not_over : now < boundary r (k + 1)

boundary_mono_le : (r j k : ℕ) → j ≤ k → boundary r j ≤ boundary r k
boundary_mono_le r j k h = elim (dec_lt j k) [
  | yes lt ↦ omega (arith, boundary_mono r j k lt)
  | no ge ↦ let e : j ≡ k = omega arith in omega (arith, ap (boundary r) e)
]

InCycle-unique : (r now j k : ℕ) → InCycle r now j → InCycle r now k → j ≡ k
InCycle-unique r now j k a b = elim (dec_lt j k) [
  | yes lt ↦ absurd (omega (arith, a.not_over, b.begun, boundary_mono_le r (j + 1) k (omega arith)))
  | no ge ↦ elim (dec_lt k j) [
    | yes gt ↦
        absurd (omega (arith, b.not_over, a.begun, boundary_mono_le r (k + 1) j (omega arith)))
    | no le ↦ omega arith
  ]
]

-- The instant lies in its month, in nanoseconds.
in_month :
    (t : ℕ)
    → (month_start (month_index t) * day_ns ≤ t) × (t < month_start (month_index t + 1) * day_ns)
in_month t = (omega (arith, (month_index-Lies t).from), omega (arith, (month_index-Lies t).until))

-- From February of year 1 on, CycleStart is the boundary of the cycle in which the instant lies:
-- the last midnight, at or before it, of the reset day or of the last day of a month that is too
-- short for it, and the next such midnight is later than the instant.
pub cycle_start-InCycle :
    (now r : ℕ) → 31 * day_ns ≤ now → (k : ℕ) × (cycle_start now r ≡ boundary r k) × InCycle r now k
cycle_start-InCycle now r h = elim (Bool-cases (ltb now (boundary r (month_index now)))) [
  | inl before ↦
      let k = month_index now in
      let nz : k ≢ 0 = λ e. absurd (omega (arith, first_month now e)) in
      let e : k - 1 + 1 ≡ k = omega arith in
      (
        k - 1,
        cycle_start-boundary now r ∙ (rw before),
        record {
          begun = omega (arith, in_cycle r (k - 1) k (omega arith), (in_month now).0);
          not_over = rw e (ltb→lt _ _ before);
        },
      )
  | inr after ↦
      let k = month_index now in
      (
        k,
        cycle_start-boundary now r ∙ (rw after),
        record {
          begun = ground arith;
          not_over = omega (arith, (in_month now).1, boundary-ge r (k + 1));
        },
      )
]

cycle_start_unique :
    (now r k : ℕ) → 31 * day_ns ≤ now → InCycle r now k → cycle_start now r ≡ boundary r k
cycle_start_unique now r k h c =
    let (j, e, d) = cycle_start-InCycle now r h in
    e ∙ ap (boundary r) (InCycle-unique r now j k d c)

-- CycleStart is constant within a cycle: any instant from the start of the cycle up to `now` has
-- the start that `now` has, the start itself included.
pub cycle_start_stable :
    (now t r : ℕ)
    → 31 * day_ns ≤ t
    → cycle_start now r ≤ t
    → t ≤ now
    → cycle_start t r ≡ cycle_start now r
cycle_start_stable now t r h lo hi =
    let (k, e, c) = cycle_start-InCycle now r (omega arith) in
    cycle_start_unique t r k h
      (record { begun = omega (arith, e); not_over = omega (arith, c.not_over) })
    ∙ sym e

-- A later instant never has an earlier cycle start.
pub cycle_start_mono :
    (t now r : ℕ) → 31 * day_ns ≤ t → t ≤ now → cycle_start t r ≤ cycle_start now r
cycle_start_mono t now r h le = elim (dec_lt t (cycle_start now r)) [
  | yes lt ↦ let (j, e, c) = cycle_start-InCycle t r h in omega (arith, e, c.begun)
  | no ge ↦ omega (arith, cycle_start_stable now t r h (omega arith) le)
]
