-- ===== src/Traffic.antt =====
-- internal/server/traffic.go: the billing cycle and the transfer counted in it.
-- uint64 counters are numbers below 2 ^ 64, with each addition reduced; int days are numbers, since
-- a negative day takes the same branch as day 0.
pub mod Cycle
pub mod Counters
mod Tests
use dingzi.Base.{
  ℕ, zero, suc, ◌+◌, ◌-◌, ◌*◌, ◌/◌, ◌%◌, ◌^◌, Bool, true, false, not, ◌&&◌, ◌||◌, String, ltb, leb,
  eqb, if◌then◌else◌, text_key, ◌==◌, List, [], ◌∷◌,
}
use dingzi.Calendar.{day_ns, year, month, day, date, month_before}

abbrev pub count_sum : String
count_sum = "sum"

abbrev pub count_out : String
count_out = "out"

abbrev pub count_max : String
count_max = "max"

pub valid_count_mode : String → Bool
valid_count_mode mode = mode == count_sum || (mode == count_out || mode == count_max)

abbrev pub max_int64 : ℕ
max_int64 = 2 ^ 63 - 1

pub record Traffic : Type 0 where
  pub cycle_start : ℕ
  pub in_bytes : ℕ
  pub out_bytes : ℕ
  pub last_raw_in : ℕ
  pub last_raw_out : ℕ
  pub has_raw : Bool
  pub quota : ℕ
  pub reset_day : ℕ
  pub count_mode : String

unfoldable pub sqlite_counter : ℕ → ℕ
sqlite_counter n = if ltb max_int64 n then max_int64 else n

-- `math.MaxInt64-a` and `a + b` stay in range, since a is at most MaxInt64 there.
pub add_counter : ℕ → ℕ → ℕ
unfolding sqlite_counter
add_counter a b =
    let a' = sqlite_counter a in if ltb (max_int64 - a') b then max_int64 else (a' + b) % 2 ^ 64

pub delta : ℕ → ℕ → ℕ
delta prev cur = if ltb cur prev then cur else cur - prev

pub clamp_day : ℕ → ℕ → ℕ → ℕ
clamp_day d y m =
    if ltb d 1 then 1 else (let last = day (date y (m + 1) 0) in if ltb last d then last else d)

pub cycle_start : ℕ → ℕ → ℕ
cycle_start now reset_day =
    let start = date (year now) (month now) (clamp_day reset_day (year now) (month now)) in
    if ltb now start
    then (let before = month_before (date (year now) (month now) 1) in
        let prev = date (year before) (month before) 1 in
        date (year prev) (month prev) (clamp_day reset_day (year prev) (month prev)))
    else start

pub roll_cycle : ℕ → Traffic → Traffic
roll_cycle now t =
    let start = cycle_start now t.reset_day in
    if not (ltb t.cycle_start start)
    then t
    else record t { cycle_start = start; in_bytes = 0; out_bytes = 0 }

-- The three defaults that Accumulate fills in first.
pub set_defaults : ℕ → Traffic → Traffic
set_defaults now t =
    let r = if eqb t.reset_day 0 then 1 else t.reset_day in
    record t {
      reset_day = r;
      count_mode = if t.count_mode == "" then count_sum else t.count_mode;
      cycle_start = if eqb t.cycle_start 0 then cycle_start now r else t.cycle_start;
    }

-- The part of Accumulate after the cycle has been turned.
pub fold_reading : ℕ → ℕ → Traffic → Traffic
fold_reading raw_in raw_out t =
    if not t.has_raw
    then record t { last_raw_in = raw_in; last_raw_out = raw_out; has_raw = true }
    else record t {
      in_bytes = add_counter t.in_bytes (delta t.last_raw_in raw_in);
      out_bytes = add_counter t.out_bytes (delta t.last_raw_out raw_out);
      last_raw_in = raw_in;
      last_raw_out = raw_out;
    }

pub accumulate : ℕ → ℕ → ℕ → Traffic → Traffic
accumulate raw_in raw_out now t = fold_reading raw_in raw_out (roll_cycle now (set_defaults now t))

pub billed : Traffic → ℕ
billed t =
    if t.count_mode == count_out
    then t.out_bytes
    else if t.count_mode == count_max
    then (if ltb t.in_bytes t.out_bytes then t.out_bytes else t.in_bytes)
    else (t.in_bytes + t.out_bytes) % 2 ^ 64
