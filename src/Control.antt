-- ===== src/Control.antt =====
-- internal/server/monitors.go, alerts.go and store_migrate.go: the tables of monitors, their results,
-- notification channels, alert rules and the states of rules, with what SQLite does to them: ids count
-- up, and a row that is deleted takes the rows that refer to it along. Value is float64.
pub mod Monitors
pub mod Channels
pub mod Rules
pub mod Checks
pub mod Tables
pub mod Sound
pub mod Edited
pub mod Handlers
pub mod History
mod Tests
use dingzi.Base.{
  ℕ, ◌+◌, Bool, true, false, Option, none, some, List, [], ◌∷◌, String, eqb, if◌then◌else◌, is_some,
  number_key, text_key, ◌==◌, ◌&&◌, ◌||◌, not,
}
use dingzi.Base.Table.{Table, lookup, erase, insert}
use dingzi.Base.Table.Sweep.{sweep}
use dingzi.Schedule.{Monitor}
use dingzi.Alerts.{AlertRule, AlertState}
use dingzi.Alerts.Notify.{NotificationChannel}

pub record MonitorResult (Value : Type 0) : Type 0 where
  pub at : ℕ
  pub status : String
  pub latency_ms : Value
  pub loss : Value
  pub status_code : ℕ
  pub error : String

-- A row of monitor_results.
pub record ResultRow (Value : Type 0) : Type 0 where
  pub monitor_id : ℕ
  pub result : MonitorResult Value

pub record Control (Value : Type 0) : Type 0 where
  pub monitors : Table ℕ Monitor
  pub next_monitor : ℕ
  pub results : List (ResultRow Value)
  pub channels : Table ℕ NotificationChannel
  pub next_channel : ℕ
  pub rules : Table ℕ (AlertRule Value)
  pub next_rule : ℕ
  pub states : Table ℕ AlertState

module _ {Value : Type 0} where
  unfoldable pub new_control : Control Value
  new_control = record {
    monitors = [];
    next_monitor = 1;
    results = [];
    channels = [];
    next_channel = 1;
    rules = [];
    next_rule = 1;
    states = [];
  }

  -- `DELETE FROM monitor_results WHERE monitor_id=?`
  unfoldable pub drop_results : ℕ → List (ResultRow Value) → List (ResultRow Value)
  drop_results id [] = []
  drop_results id (r ∷ rest) =
      let kept = drop_results id rest in if eqb r.monitor_id id then kept else r ∷ kept

  -- The rules that watch a monitor; a rule about a machine has no monitor.
  abbrev pub watches : ℕ → AlertRule Value → Bool
  watches id a = a.metric == "monitor" && eqb a.monitor_id id

  -- The states of the rules that are left.
  unfoldable pub states_of : Table ℕ (AlertRule Value) → Table ℕ AlertState → Table ℕ AlertState
  states_of rules [] = []
  states_of rules ((id, st) ∷ rest) =
      let kept = states_of rules rest in if is_some (lookup id rules) then (id, st) ∷ kept else kept

  -- `DELETE FROM alert_states WHERE rule_id IN (SELECT id FROM alert_rules WHERE monitor_id=?)`
  unfoldable pub forget_states :
      ℕ → Table ℕ (AlertRule Value) → Table ℕ AlertState → Table ℕ AlertState
  forget_states id rules [] = []
  forget_states id rules ((rule, st) ∷ rest) =
      let kept = forget_states id rules rest in
      elim (lookup rule rules) [
        | none ↦ (rule, st) ∷ kept
        | some a ↦ if watches id a then kept else (rule, st) ∷ kept
      ]

  -- `DELETE FROM monitors WHERE id=?`, with its results, its rules and their states.
  unfoldable pub drop_monitor : ℕ → Control Value → Control Value
  unfolding drop_results states_of
  drop_monitor id c =
      let rules = sweep (watches id) c.rules in
      record c {
        monitors = erase id c.monitors;
        results = drop_results id c.results;
        rules = rules;
        states = states_of rules c.states;
      }

  -- The results of the monitors that are left.
  unfoldable pub results_of : Table ℕ Monitor → List (ResultRow Value) → List (ResultRow Value)
  results_of monitors [] = []
  results_of monitors (r ∷ rest) =
      let kept = results_of monitors rest in
      if is_some (lookup r.monitor_id monitors) then r ∷ kept else kept

  -- A rule about the machine, or about a monitor that went with it.
  abbrev pub is_orphan : ℕ → Table ℕ Monitor → AlertRule Value → Bool
  is_orphan id monitors a =
      eqb a.server_id id || (a.metric == "monitor" && not (is_some (lookup a.monitor_id monitors)))

  -- What `DELETE FROM servers WHERE id=?` takes along here.
  unfoldable pub drop_server : ℕ → Control Value → Control Value
  unfolding results_of states_of
  drop_server id c =
      let monitors = sweep (λ (m : Monitor). eqb m.server_id id) c.monitors in
      let rules = sweep (is_orphan id monitors) c.rules in
      record c {
        monitors = monitors;
        results = results_of monitors c.results;
        rules = rules;
        states = states_of rules c.states;
      }
