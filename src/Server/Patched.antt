-- ===== src/Server/Patched.antt =====
-- The machine and its row as a patch that is carried out leaves them.
use dingzi.Base.{
  ℕ, ◌≡◌, ◌≢◌, inl, inr, refl, ap, true, false, String, arith, text_key, number_key, Bool-cases,
  pos, if◌then◌else◌,
}
use dingzi.Fleet.{Machine}
use dingzi.Store.{ServerRow, cycle_column}
use dingzi.Server.Admin.{Plan, PatchBody, patch_row, patch_traffic}
use dingzi.Server.Plans.{wanted, wanted_name, Proper, Planned}
use dingzi.Traffic.{cycle_start}

-- The machine and its row, before and after a patch that is carried out.
pub record Patched {Float : Type 0} (runes : String → ℕ) (trim_space : String → String)
    (body : PatchBody) (now : ℕ) (m m' : Machine Float) (row row' : ServerRow) : Type 0 where
  pub proper : Proper runes trim_space body
  pub named : m'.name ≡ wanted_name trim_space body.name m.name
  pub quota : m'.traffic.quota ≡ wanted body.quota m.traffic.quota
  pub mode : m'.traffic.count_mode ≡ wanted body.count_mode m.traffic.count_mode
  pub day : pos m'.traffic.reset_day ≡ wanted body.reset_day (pos m.traffic.reset_day)
  pub same_day :
      m'.traffic.reset_day ≡ m.traffic.reset_day
      → (m'.traffic.cycle_start ≡ m.traffic.cycle_start)
        × (m'.traffic.in_bytes ≡ m.traffic.in_bytes)
        × (m'.traffic.out_bytes ≡ m.traffic.out_bytes)
        × (row'.in_bytes ≡ row.in_bytes)
        × (row'.out_bytes ≡ row.out_bytes)
  pub new_day :
      m'.traffic.reset_day ≢ m.traffic.reset_day
      → (m'.traffic.cycle_start ≡ cycle_start now m'.traffic.reset_day)
        × (m'.traffic.in_bytes ≡ 0)
        × (m'.traffic.out_bytes ≡ 0)
        × (row'.in_bytes ≡ 0)
        × (row'.out_bytes ≡ 0)
  -- The row has the settings of the machine, and the rest of both is as it was.
  pub row_settings :
      (row'.name ≡ m'.name)
      × (row'.quota ≡ m'.traffic.quota)
      × (row'.count_mode ≡ m'.traffic.count_mode)
      × (row'.reset_day ≡ m'.traffic.reset_day)
      × (row'.cycle_start ≡ cycle_column m'.traffic.cycle_start)
  pub row_rest :
      (row'.uuid ≡ row.uuid)
      × (row'.host ≡ row.host)
      × (row'.version ≡ row.version)
      × (row'.first_seen ≡ row.first_seen)
      × (row'.last_seen ≡ row.last_seen)
      × (row'.last_raw_in ≡ row.last_raw_in)
      × (row'.last_raw_out ≡ row.last_raw_out)
      × (row'.has_raw ≡ row.has_raw)
  pub machine_rest :
      (record m' { name = m.name; traffic = m.traffic } ≡ m)
      × (m'.traffic.last_raw_in ≡ m.traffic.last_raw_in)
      × (m'.traffic.last_raw_out ≡ m.traffic.last_raw_out)
      × (m'.traffic.has_raw ≡ m.traffic.has_raw)

module _ {Float : Type 0} (runes : String → ℕ) (trim_space : String → String) where
  -- What the columns and the fields of a plan come to.
  pub plan-Patched :
      (body : PatchBody) (now : ℕ) (m : Machine Float) (row : ServerRow) (plan : Plan)
      → Planned runes trim_space body now m.name m.traffic plan
      → Patched runes trim_space body now m
          (record m { name = plan.name; traffic = patch_traffic plan m.traffic })
          row
          (patch_row plan row)
  plan-Patched body now m row plan p = record {
    proper = p.proper;
    named = p.named;
    quota = p.quota;
    mode = p.mode;
    day = p.day;
    same_day = λ same.
        let kept : plan.reset ≡ false = ground (arith, p.reset, same) in
        rw kept (refl, refl, refl, refl, refl);
    new_day = λ other.
        let moved : plan.reset ≡ true = ground (arith, p.reset, other) in
        let cycle = rw moved at p.cycle in rw moved (cycle, refl, refl, refl, refl);
    row_settings = (refl, refl, refl, refl, row_cycle);
    row_rest = (refl, refl, refl, refl, refl, refl, refl, refl);
    machine_rest = (refl, refl, refl, refl);
  }
    where
      row_cycle :
          cycle_column plan.traffic.cycle_start
          ≡ cycle_column (if plan.reset then plan.traffic.cycle_start else m.traffic.cycle_start)
      row_cycle = elim (Bool-cases plan.reset) [
        | inl moved ↦ rw moved refl
        | inr kept ↦ rw kept (ap cycle_column (rw kept at p.cycle))
      ]
