-- ===== src/Control/Edited.antt =====
-- A check of a monitor that was edited or deleted while it ran stores nothing.
use dingzi.Base.{
  ℕ, ◌<◌, ◌≡◌, inl, inr, refl, ◌∙◌, false, Option, none, some, arith, eqb, number_key, Bool-cases,
  Option-cases, ==_refl, eqb_iff,
}
use dingzi.Base.Table.{lookup, IsUnique, lookup-insert, lookup-erase}
use dingzi.Base.Table.Sweep.{lookup-sweep}
use dingzi.Schedule.{Monitor}
use dingzi.Control.{Control, MonitorResult, drop_monitor, drop_server}
use dingzi.Control.Monitors.{update_monitor, revise, is_moved}
use dingzi.Control.Checks.{store_result}

-- The row that a check holds is out of date once its id has a later revision or no row.
abbrev pub IsPast : Monitor → Option Monitor → Type 0
IsPast held none = Unit
IsPast held (some row) = held.revision < row.revision

module _ {Value : Type 0} where
  update_stored :
      (id : ℕ) (m old : Monitor) (c : Control Value)
      → lookup id (update_monitor id m old c).monitors ≡ some (revise id m old)
  unfolding update_monitor
  update_stored id m old c = elim (Bool-cases (is_moved old m)) [
    | inl moved ↦
        rw (moved, update_monitor)
          (lookup-insert id id (revise id m old) c.monitors ∙ rw (==_refl id) refl)
    | inr stayed ↦
        rw (stayed, update_monitor)
          (lookup-insert id id (revise id m old) c.monitors ∙ rw (==_refl id) refl)
  ]

  store_result_past :
      (held : Monitor) (p : MonitorResult Value) (c : Control Value)
      → IsPast held (lookup held.id c.monitors)
      → store_result held p c ≡ c
  unfolding store_result
  store_result_past held p c past = elim (Option-cases (lookup held.id c.monitors)) [
    | inl e ↦ rw (e, store_result) refl
    | inr (row, e) ↦
        let later : held.revision < row.revision = rw e at past in
        let stale : eqb row.revision held.revision ≡ false = ground (arith, later) in
        rw (e, store_result, stale) refl
  ]

  -- A check that holds the row of a monitor stores nothing once the monitor has been updated, updated
  -- twice, or deleted, or its machine has been deleted.
  pub store_result_stale :
      (held first second : Monitor) (p : MonitorResult Value) (c : Control Value)
      → IsUnique c.monitors
      → lookup held.id c.monitors ≡ some held
      → let once = update_monitor held.id first held c in
        let twice = update_monitor held.id second (revise held.id first held) once in
        (store_result held p once ≡ once)
        × (store_result held p twice ≡ twice)
        × (store_result held p (drop_monitor held.id c) ≡ drop_monitor held.id c)
        × (store_result held p (drop_server held.server_id c) ≡ drop_server held.server_id c)
  unfolding drop_monitor drop_server
  store_result_stale held first second p c u there =
      let once = update_monitor held.id first held c in
      let again = revise held.id first held in
      let runs = λ (m : Monitor). eqb m.server_id held.server_id in
      (
        store_result_past held p once (rw (update_stored held.id first held c) (omega arith)),
        store_result_past held p (update_monitor held.id second again once)
            (rw (update_stored held.id second again once) (omega arith)),
        store_result_past held p (drop_monitor held.id c)
            (rw (lookup-erase held.id held.id c.monitors, ==_refl held.id) tt),
        store_result_past held p (drop_server held.server_id c) (
            rw
              (
                lookup-sweep held.id runs c.monitors u,
                there,
                (eqb_iff held.server_id held.server_id).1 refl,
              )
              tt),
      )
