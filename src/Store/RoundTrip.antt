-- ===== src/Store/RoundTrip.antt =====
-- What SaveTraffic writes is what a restart reads.
use dingzi.Base.{
  false, ℕ, zero, suc, ◌-◌, eqb, ap, sym, ◌+◌, ◌*◌, ◌/◌, ◌≤◌, ◌<◌, ◌⊎◌, pos, ltb, ◌≡◌, inl, inr,
  refl, ◌∙◌, none, some, [], ◌∷◌, String, arith, number_key, true, Bool-cases, Option-cases, ◌==◌,
  if◌then◌else◌,
}
use dingzi.Base.Table.{Table, lookup, IsUnique, lookup-insert}
use dingzi.Sessions.{second}
use dingzi.Traffic.{Traffic, sqlite_counter, max_int64}
use dingzi.Fleet.{Host, Sample}
use dingzi.Store.{
  Database, ServerRow, TrafficSnapshot, affect_one, save_row, save_each, save_traffic, scan_machine,
  epoch, unix, from_unix, cycle_column, read_cycle,
}

-- The counters of a machine in memory, as a row can hold them, with the settings of the row.
pub record Fits (t : Traffic) (row : ServerRow) : Type 0 where
  pub cycle_start :
      (t.cycle_start ≡ 0)
      ⊎ ((seconds : ℕ) × (0 < seconds) × (t.cycle_start ≡ (epoch + seconds) * second))
  pub in_bytes : t.in_bytes ≤ max_int64
  pub out_bytes : t.out_bytes ≤ max_int64
  pub last_raw_in : t.last_raw_in ≤ max_int64
  pub last_raw_out : t.last_raw_out ≤ max_int64
  pub quota : row.quota ≡ t.quota
  pub reset_day : row.reset_day ≡ t.reset_day
  pub count_mode : row.count_mode ≡ t.count_mode

counter_id : (n : ℕ) → n ≤ max_int64 → sqlite_counter n ≡ n
unfolding sqlite_counter
counter_id n h = ground (arith, h)

cycle_read :
    (at : ℕ)
    → (at ≡ 0) ⊎ ((seconds : ℕ) × (0 < seconds) × (at ≡ (epoch + seconds) * second))
    → read_cycle (cycle_column at) ≡ at
unfolding read_cycle cycle_column unix from_unix
cycle_read at (inl zero_) = rw zero_ refl
cycle_read at (inr (zero, late, e)) = absurd (ground (arith, late))
cycle_read at (inr (suc n, late, e)) =
    let whole : at / second ≡ epoch + suc n = omega (arith, e) in
    let set_ : eqb at 0 ≡ false = ground (arith, e) in
    let after_ : ltb (epoch + suc n) epoch ≡ false = ground arith in
    let past : epoch + suc n - epoch ≡ suc n = omega arith in
    let column : cycle_column at ≡ pos (suc n) =
      rw (cycle_column, set_, unix, whole, after_, past) refl in
    ap read_cycle column ∙ sym e

lookup-affect :
    (id k : ℕ) (set_ : ServerRow → ServerRow) (row : ServerRow) (db : Database)
    → lookup k db.servers ≡ some row
    → lookup k (affect_one id set_ db).0.servers ≡ some (if id == k then set_ row else row)
unfolding affect_one
lookup-affect id k set_ row db h = elim (Option-cases (lookup id db.servers)) [
  | inl e ↦ rw (e, affect_one) (ground (arith, e, h, number_key.same_iff id k))
  | inr (r, e) ↦
      rw (e, affect_one)
        (ground (arith, e, h, number_key.same_iff id k, lookup-insert k id (set_ r) db.servers))
]

save_each_other :
    (k : ℕ) (row : ServerRow) (snap : Table ℕ TrafficSnapshot) (db : Database)
    → lookup k snap ≡ none
    → lookup k db.servers ≡ some row
    → lookup k (save_each snap db).servers ≡ some row
unfolding save_each
save_each_other k row [] db out h = h
save_each_other k row ((id, t) ∷ snap) db out h =
    save_each_other k row snap (affect_one id (save_row t) db).0 (ground (arith, out))
      (ground (arith, out, lookup-affect id k (save_row t) row db h))

save_each_own :
    (k : ℕ) (t : TrafficSnapshot) (row : ServerRow) (snap : Table ℕ TrafficSnapshot) (db : Database)
    → IsUnique snap
    → lookup k snap ≡ some t
    → lookup k db.servers ≡ some row
    → lookup k (save_each snap db).servers ≡ some (save_row t row)
unfolding save_each
save_each_own k t row [] db u in_ h = absurd (ground (arith, in_))
save_each_own k t row ((id, s) ∷ snap) db u in_ h = elim (Bool-cases (id == k)) [
  | inl here ↦
      let same : s ≡ t = ground (arith, in_, here) in
      let no_more : lookup k snap ≡ none = ground (arith, u.0, number_key.same_iff id k, here) in
      save_each_other k (save_row t row) snap _ no_more
        (lookup-affect id k (save_row s) row db h ∙ rw (here, same) refl)
  | inr there ↦
      save_each_own k t row snap (affect_one id (save_row s) db).0 u.1 (ground (arith, in_, there))
        (lookup-affect id k (save_row s) row db h ∙ rw there refl)
]

module _ {Float : Type 0} (unmarshal : String → Host) (blank : Sample Float) where
  scan_saved :
      (id : ℕ) (t : TrafficSnapshot) (row : ServerRow)
      → Fits t.traffic row
      → (scan_machine unmarshal blank id (save_row t row)).traffic ≡ t.traffic
  unfolding scan_machine
  scan_saved id t row f =
      rw
        (
          counter_id t.traffic.in_bytes f.in_bytes,
          counter_id t.traffic.out_bytes f.out_bytes,
          counter_id t.traffic.last_raw_in f.last_raw_in,
          counter_id t.traffic.last_raw_out f.last_raw_out,
          cycle_read t.traffic.cycle_start f.cycle_start,
          f.quota,
          f.reset_day,
          f.count_mode,
        )
        refl

  -- After SaveTraffic over the machines of the hub, a restart reads the transfer counts of each
  -- machine that has a row as they were, when the counters fit an int64, the cycle has no start yet or
  -- starts at a whole second after 1 January 1970, and the row has the machine's settings.
  pub save_traffic-scan :
      (id : ℕ) (t : TrafficSnapshot) (row : ServerRow) (snap : Table ℕ TrafficSnapshot)
      (db : Database)
      → IsUnique snap
      → lookup id snap ≡ some t
      → lookup id db.servers ≡ some row
      → Fits t.traffic row
      → (after : ServerRow) × (lookup id (save_traffic snap true db).servers ≡ some after)
        × ((scan_machine unmarshal blank id after).traffic ≡ t.traffic)
  unfolding save_traffic
  save_traffic-scan id t row snap db u in_ h f =
      (save_row t row, save_each_own id t row snap db u in_ h, scan_saved id t row f)
