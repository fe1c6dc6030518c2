-- ===== src/Traffic/Tests.antt =====
-- Runs of the calendar and of the accumulator, and each theorem at a concrete input.
use dingzi.Base.{ℕ, ◌+◌, ◌*◌, ◌≡◌, refl, true, arith, List, [], ◌∷◌}
use dingzi.Calendar.{
  day_ns, date, date_at, year, month, day, month_before, month_index, month_of_day, find_month,
  month_start, days_before_year, days_before_month,
}
use dingzi.Traffic.{
  Traffic, cycle_start, clamp_day, accumulate, fold_reading, roll_cycle, set_defaults, add_counter,
  delta, count_sum,
}
use dingzi.Traffic.Cycle.{boundary, InCycle, cycle_start-InCycle}
use dingzi.Traffic.Counters.{inbound, Reading, run, closed_bytes, sum_deltas, run_conserves, bytes}

-- 15 March 2024: the cycle with reset day 31 began on 29 February, the one with 10 on 10 March.
february : cycle_start (date 2024 3 15) 31 ≡ date 2024 2 29
unfolding cycle_start clamp_day date date_at year month day month_before month_index month_of_day
    find_month month_start days_before_year days_before_month
february = refl

march : cycle_start (date 2024 3 15) 10 ≡ date 2024 3 10
unfolding cycle_start clamp_day date date_at year month day month_before month_index month_of_day
    find_month month_start days_before_year days_before_month
march = refl

-- January goes back to December of the year before.
december : cycle_start (date 2026 1 4 + 5) 5 ≡ date 2025 12 5
unfolding cycle_start clamp_day date date_at year month day month_before month_index month_of_day
    find_month month_start days_before_year days_before_month
december = refl

-- A machine whose cycle began on 1 February of year 1, with 40 bytes in and 7 out.
abbrev counted : Traffic
counted = record {
  cycle_start = 31 * day_ns;
  in_bytes = 40;
  out_bytes = 7;
  last_raw_in = 100;
  last_raw_out = 10;
  has_raw = true;
  quota = 0;
  reset_day = 1;
  count_mode = count_sum;
}

-- Ten bytes in February; a counter reset; then a reading in March.
abbrev readings : List Reading
readings =
    record { raw_in = 110; raw_out = 11; at = 40 * day_ns }
    ∷ record { raw_in = 5; raw_out = 12; at = 41 * day_ns }
    ∷ record { raw_in = 9; raw_out = 13; at = 60 * day_ns }
    ∷ []

-- February closes with 55 bytes; March begins with the 4 of the last interval.
march_turn :
    (closed_bytes inbound readings counted ≡ 55)
    × ((run readings counted).in_bytes ≡ 4)
    × ((run readings counted).cycle_start ≡ 59 * day_ns)
unfolding run closed_bytes accumulate fold_reading roll_cycle set_defaults add_counter delta
    cycle_start clamp_day date date_at year month day month_before month_index month_of_day
    find_month month_start days_before_year days_before_month
march_turn = (refl, refl, refl)

cycle_start-InCycle_example :
    (k : ℕ) × (cycle_start (40 * day_ns) 31 ≡ boundary 31 k) × InCycle 31 (40 * day_ns) k
cycle_start-InCycle_example = cycle_start-InCycle (40 * day_ns) 31 (omega arith)

run_conserves_example :
    closed_bytes inbound readings counted + bytes inbound (run readings counted)
    ≡ bytes inbound counted + sum_deltas inbound 100 readings
unfolding sum_deltas delta
run_conserves_example = run_conserves inbound readings counted refl (omega arith)
