-- ===== src/Traffic/Counters.antt =====
-- What Accumulate counts: each interval's traffic once, in one cycle, and never past MaxInt64.
use dingzi.Base.{
  ℕ, ◌+◌, ◌≤◌, ◌≡◌, ◌≢◌, Bool, true, false, arith, List, [], ◌∷◌, ltb, if◌then◌else◌, ap, ◌∙◌, min,
  max, text_key, ◌==◌,
}
use dingzi.Traffic.{
  Traffic, max_int64, add_counter, delta, cycle_start, roll_cycle, set_defaults, fold_reading,
  accumulate, billed, count_out, count_max,
}

add_counter-min : (a b : ℕ) → add_counter a b ≡ min (a + b) max_int64
unfolding add_counter
add_counter-min a b = ground arith

pub data Direction : Type 0 where
  inbound outbound : Direction

pub record Reading : Type 0 where
  pub raw_in : ℕ
  pub raw_out : ℕ
  pub at : ℕ

abbrev pub raw : Direction → Reading → ℕ
raw inbound r = r.raw_in
raw outbound r = r.raw_out

abbrev pub bytes : Direction → Traffic → ℕ
bytes inbound t = t.in_bytes
bytes outbound t = t.out_bytes

abbrev pub last_raw : Direction → Traffic → ℕ
last_raw inbound t = t.last_raw_in
last_raw outbound t = t.last_raw_out

abbrev pub read : Reading → Traffic → Traffic
read r t = accumulate r.raw_in r.raw_out r.at t

-- Whether this reading begins a new cycle.
abbrev pub turns : ℕ → Traffic → Bool
turns now t = ltb (set_defaults now t).cycle_start (cycle_start now (set_defaults now t).reset_day)

-- A reading after the first adds its delta to the cycle in which it falls, up to the limit.
pub bytes-read :
    (d : Direction) (r : Reading) (t : Traffic)
    → t.has_raw ≡ true
    → (bytes d (read r t)
        ≡ min ((if turns r.at t then 0 else bytes d t) + delta (last_raw d t) (raw d r)) max_int64)
      × (last_raw d (read r t) ≡ raw d r)
      × ((read r t).has_raw ≡ true)
unfolding accumulate fold_reading roll_cycle set_defaults
bytes-read inbound r t h = ground (
  arith,
  add_counter-min 0 (delta t.last_raw_in r.raw_in),
  add_counter-min t.in_bytes (delta t.last_raw_in r.raw_in),
)
bytes-read outbound r t h = ground (
  arith,
  add_counter-min 0 (delta t.last_raw_out r.raw_out),
  add_counter-min t.out_bytes (delta t.last_raw_out r.raw_out),
)

-- The first reading of a machine is a baseline: it is billed to nobody.
pub bytes-read_first :
    (d : Direction) (r : Reading) (t : Traffic)
    → t.has_raw ≡ false
    → (bytes d (read r t) ≡ (if turns r.at t then 0 else bytes d t))
      × (last_raw d (read r t) ≡ raw d r)
      × ((read r t).has_raw ≡ true)
unfolding accumulate fold_reading roll_cycle set_defaults
bytes-read_first inbound r t h = ground arith
bytes-read_first outbound r t h = ground arith

unfoldable pub run : List Reading → Traffic → Traffic
run [] t = t
run (r ∷ rs) t = run rs (read r t)

-- What was counted in the cycles that the readings brought to an end.
unfoldable pub closed_bytes : Direction → List Reading → Traffic → ℕ
closed_bytes d [] t = 0
closed_bytes d (r ∷ rs) t = (if turns r.at t then bytes d t else 0) + closed_bytes d rs (read r t)

-- The traffic of each interval, with a counter that went back counted from 0.
unfoldable pub sum_deltas : Direction → ℕ → List Reading → ℕ
sum_deltas d prev [] = 0
sum_deltas d prev (r ∷ rs) = delta prev (raw d r) + sum_deltas d (raw d r) rs

-- Over any sequence of readings, across any number of cycle turns and counter resets, every
-- interval's traffic is counted in exactly one cycle: what the closed cycles held and what the
-- current one holds make up what there was at first and all the deltas, as long as that sum is at
-- most MaxInt64.
pub run_conserves :
    (d : Direction) (rs : List Reading) (t : Traffic)
    → t.has_raw ≡ true
    → bytes d t + sum_deltas d (last_raw d t) rs ≤ max_int64
    → closed_bytes d rs t + bytes d (run rs t) ≡ bytes d t + sum_deltas d (last_raw d t) rs
unfolding run closed_bytes sum_deltas
run_conserves d [] t h b = omega arith
run_conserves d (r ∷ rs) t h b =
    let (now, last, has) = bytes-read d r t h in
    let rest : sum_deltas d (last_raw d (read r t)) rs ≡ sum_deltas d (raw d r) rs =
      ap (λ p. sum_deltas d p rs) last in
    conserve_step (turns r.at t) (bytes d t) (delta (last_raw d t) (raw d r))
      (sum_deltas d (raw d r) rs) (bytes d (read r t)) (closed_bytes d rs (read r t))
      (bytes d (run rs (read r t))) b now
      (λ fits.
        run_conserves d rs (read r t) has (omega (arith, rest, fits))
        ∙ ap (λ n. bytes d (read r t) + n) rest)
  where
    conserve_step :
        (turn : Bool) (old new later mid closed end : ℕ)
        → old + (new + later) ≤ max_int64
        → mid ≡ min ((if turn then 0 else old) + new) max_int64
        → (mid + later ≤ max_int64 → closed + end ≡ mid + later)
        → (if turn then old else 0) + closed + end ≡ old + (new + later)
    conserve_step true old new later mid closed end b e ih = omega (arith, ih (omega arith))
    conserve_step false old new later mid closed end b e ih = omega (arith, ih (omega arith))

-- The totals fit the database's signed integers.
pub record IsBounded (t : Traffic) : Type 0 where
  pub in_fits : t.in_bytes ≤ max_int64
  pub out_fits : t.out_bytes ≤ max_int64

read-IsBounded : (r : Reading) (t : Traffic) → IsBounded t → IsBounded (read r t)
unfolding accumulate fold_reading roll_cycle set_defaults
read-IsBounded r t v = ground (
  arith,
  add_counter-min 0 (delta t.last_raw_in r.raw_in),
  add_counter-min t.in_bytes (delta t.last_raw_in r.raw_in),
  add_counter-min 0 (delta t.last_raw_out r.raw_out),
  add_counter-min t.out_bytes (delta t.last_raw_out r.raw_out),
)

run-IsBounded : (rs : List Reading) (t : Traffic) → IsBounded t → IsBounded (run rs t)
unfolding run
run-IsBounded [] t v = v
run-IsBounded (r ∷ rs) t v = run-IsBounded rs (read r t) (read-IsBounded r t v)

-- The quota's figure under each counting rule, with no wrap-around of the uint64 sum.
abbrev pub billed_exactly : Traffic → ℕ
billed_exactly t =
    if t.count_mode == count_out
    then t.out_bytes
    else if t.count_mode == count_max
    then max t.in_bytes t.out_bytes
    else t.in_bytes + t.out_bytes

-- From totals that fit, whatever readings come, the totals still fit and the billed figure is the
-- exact sum, outbound total or larger direction: the uint64 addition never wraps.
pub billed-run :
    (rs : List Reading) (t : Traffic)
    → IsBounded t
    → IsBounded (run rs t) × (billed (run rs t) ≡ billed_exactly (run rs t))
unfolding billed
billed-run rs t v = (run-IsBounded rs t v, ground (arith, run-IsBounded rs t v))

-- After a reading the stored cycle starts at CycleStart of the time of the reading, and the reset
-- day is as it was, if a reset day is set and the stored cycle did not start later than that.
pub cycle_start-read :
    (r : Reading) (t : Traffic)
    → t.reset_day ≢ 0
    → t.cycle_start ≤ cycle_start r.at t.reset_day
    → ((read r t).cycle_start ≡ cycle_start r.at t.reset_day) × ((read r t).reset_day ≡ t.reset_day)
unfolding accumulate fold_reading roll_cycle set_defaults
cycle_start-read r t nz le = ground arith
