-- ===== src/Server/Admin.antt =====
-- internal/server/api.go and settings.go: the handlers that change a machine, delete it, and save the
-- settings of the panel. `parse_int` is strconv.ParseInt, `runes` counts the runes of a text and
-- `trim` is strings.TrimSpace; a body is none when its JSON is refused.
use dingzi.Base.{
  ℕ, zero, suc, Bool, true, false, ◌&&◌, ◌||◌, Option, none, some, List, ◌∷◌, String, ltb, eqb,
  if◌then◌else◌, text_key, number_key, ◌==◌, ℤ, pos, negsuc, ◌>>=◌,
}
use dingzi.Base.Table.{lookup}
use dingzi.Traffic.{Traffic, valid_count_mode, max_int64, cycle_start}
use dingzi.Terminals.{TerminalRegistry, close_machine}
use dingzi.Fleet.{Sample, rename, set_traffic, remove}
use dingzi.Fleet.Reports.{view}
use dingzi.Store.{ServerRow, cycle_column, affect_one, delete_machine}
use dingzi.Server.{Server}

pub data Status : Type 0 where
  ok bad_request not_found server_error : Status

abbrev pub positive_of : ℤ → Option ℕ
positive_of (pos zero) = none
positive_of (pos (suc n)) = some (suc n)
positive_of (negsuc n) = none

unfoldable pub path_id : (String → Option ℤ) → String → Option ℕ
path_id parse_int text = do id ← parse_int text; positive_of id

pub record PatchBody : Type 0 where
  pub name : Option String
  pub quota : Option ℕ
  pub reset_day : Option ℤ
  pub count_mode : Option String

-- What a request that passes every check is about to write.
pub record Plan : Type 0 where
  pub name : String
  pub traffic : Traffic
  pub reset : Bool

module _ (runes : String → ℕ) (trim_space : String → String) where
  unfoldable pub patch_name : Option String → String → Option String
  patch_name none name = some name
  patch_name (some text) name =
      let trimmed = trim_space text in
      if trimmed == "" || ltb 64 (runes trimmed) then none else some trimmed

unfoldable pub patch_quota : Option ℕ → Traffic → Option Traffic
patch_quota none t = some t
patch_quota (some n) t = if ltb max_int64 n then none else some (record t { quota = n })

unfoldable pub patch_mode : Option String → Traffic → Option Traffic
patch_mode none t = some t
patch_mode (some mode) t =
    if valid_count_mode mode then some (record t { count_mode = mode }) else none

unfoldable pub patch_day : Option ℤ → ℕ → Traffic → Option (Traffic × Bool)
patch_day none now t = some (t, false)
patch_day (some (negsuc n)) now t = none
patch_day (some (pos day)) now t =
    let moved = record t { reset_day = day } in
    if ltb day 1 || ltb 31 day
    then none
    else (if eqb day t.reset_day
        then some (moved, false)
        else some (record moved { cycle_start = cycle_start now day }, true))

-- The columns that the handler writes.
abbrev pub patch_row : Plan → ServerRow → ServerRow
patch_row plan row = record row {
  name = plan.name;
  quota = plan.traffic.quota;
  reset_day = plan.traffic.reset_day;
  count_mode = plan.traffic.count_mode;
  cycle_start = cycle_column plan.traffic.cycle_start;
  in_bytes = if plan.reset then 0 else row.in_bytes;
  out_bytes = if plan.reset then 0 else row.out_bytes;
}

-- What it changes in memory.
abbrev pub patch_traffic : Plan → Traffic → Traffic
patch_traffic plan dst = record dst {
  quota = plan.traffic.quota;
  reset_day = plan.traffic.reset_day;
  count_mode = plan.traffic.count_mode;
  cycle_start = if plan.reset then plan.traffic.cycle_start else dst.cycle_start;
  in_bytes = if plan.reset then 0 else dst.in_bytes;
  out_bytes = if plan.reset then 0 else dst.out_bytes;
}

module _ {Float : Type 0} where
  -- The part of the handler once the request is checked.
  unfoldable pub write_patch : ℕ → Plan → Bool → Server Float → Server Float × Status
  write_patch id plan works s =
      if works
      then (let (db, found) = affect_one id (patch_row plan) s.db in
          if found
          then (
            record s {
              db = db;
              hub = (set_traffic id (patch_traffic plan) (rename id plan.name s.hub).0).0;
            },
            ok,
          )
          else (s, not_found))
      else (s, server_error)

module _ (runes : String → ℕ) (trim_space : String → String) where
  unfoldable pub plan_patch : PatchBody → ℕ → String → Traffic → Option Plan
  plan_patch body now name t = do
    name' ← patch_name runes trim_space body.name name
    t₁ ← patch_quota body.quota t
    t₂ ← patch_mode body.count_mode t₁
    (t₃, reset) ← patch_day body.reset_day now t₂
    some (record { name = name'; traffic = t₃; reset = reset })

  module _ {Float : Type 0} (blank : Sample Float) (parse_int : String → Option ℤ) where
    unfoldable pub handle_patch_server :
        String → Option PatchBody → ℕ → Bool → Server Float → Server Float × Status
    handle_patch_server text body now works s = elim (path_id parse_int text) [
      | none ↦ (s, bad_request)
      | some id ↦ elim body [
        | none ↦ (s, bad_request)
        | some b ↦ elim (view blank id now s.hub) [
          | none ↦ (s, not_found)
          | some v ↦ elim (plan_patch b now v.machine.name v.machine.traffic) [
            | none ↦ (s, bad_request)
            | some plan ↦ write_patch id plan works s
          ]
        ]
      ]
    ]

-- `if c := s.hub.Remove(id); c != nil { c.closeWith(…) }`
abbrev pub tell : Option ℕ → List ℕ → List ℕ
tell none told = told
tell (some c) told = c ∷ told

module _ {Float : Type 0} (parse_int : String → Option ℤ) where
  unfoldable pub handle_delete_server : String → Bool → Server Float → Server Float × Status
  handle_delete_server text works s = elim (path_id parse_int text) [
    | none ↦ (s, bad_request)
    | some id ↦
        if works
        then elim (lookup id s.db.servers) [
          | none ↦ (s, not_found)
          | some row ↦
              let (db, _) = delete_machine id works s.db in
              let (hub, conn) = remove id s.hub in
              (
                record s {
                  db = db;
                  hub = hub;
                  told = tell conn s.told;
                  terminals = close_machine id s.terminals;
                },
                ok,
              )
        ]
        else (s, server_error)
  ]

pub record PanelSettings : Type 0 where
  pub site_name : String
  pub description : String
  pub terminal_enabled : Bool

unfoldable pub terminal_allowed : Bool → PanelSettings → Bool
terminal_allowed option settings = option && settings.terminal_enabled

module _ (runes : String → ℕ) (trim : String → String) where
  unfoldable pub handle_save_settings :
      Option PanelSettings
      → Bool
      → PanelSettings
      → TerminalRegistry
      → (PanelSettings × TerminalRegistry) × Status
  handle_save_settings none works settings reg = ((settings, reg), bad_request)
  handle_save_settings (some body) works settings reg =
      let cfg = record body {
        site_name = trim body.site_name;
        description = trim body.description;
      } in
      if cfg.site_name == "" || ltb 80 (runes cfg.site_name) || ltb 240 (runes cfg.description)
      then ((settings, reg), bad_request)
      else (if works
          then ((cfg, if cfg.terminal_enabled then reg else close_machine 0 reg), ok)
          else ((settings, reg), server_error))
