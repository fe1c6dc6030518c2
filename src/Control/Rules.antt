-- ===== src/Control/Rules.antt =====
-- internal/server/alerts.go: the handlers that save and delete an alert rule, and what a rule observes.
-- `Scale` holds what the code does with float64: the tests of a threshold, and the numbers of a view.
use dingzi.Base.{
  ℕ, ◌+◌, ◌*◌, Bool, true, false, ◌||◌, ◌&&◌, Option, none, some, [], ◌∷◌, String, ltb, leb, eqb,
  if◌then◌else◌, length, number_key, text_key, ◌==◌, ℤ, pos, negsuc, is_some, List,
}
use dingzi.Base.Table.{lookup, insert, erase}
use dingzi.Fleet.{Hub, MachineView, Sample}
use dingzi.Fleet.Reports.{view}
use dingzi.Alerts.{AlertRule}
use dingzi.Server.Admin.{Status, ok, bad_request, not_found, server_error, path_id}
use dingzi.Control.{Control, ResultRow, MonitorResult}
use dingzi.Control.Monitors.{Text}

abbrev pub max_rules : ℕ
max_rules = 200

pub record Scale (Value : Type 0) : Type 0 where
  -- finite and not negative
  pub is_threshold : Value → Bool
  pub exceeds : Value → ℕ → Bool
  pub zero : Value
  pub one : Value

-- The body of the request.
pub record RuleForm (Value : Type 0) : Type 0 where
  pub rule : AlertRule Value
  pub duration : ℤ

-- `a.DurationSeconds < 0 || a.DurationSeconds > 86400`
unfoldable pub duration_of : ℤ → Option ℕ
duration_of (pos n) = if ltb 86400 n then none else some n
duration_of (negsuc n) = none

abbrev pub limit_of : String → ℕ
limit_of metric = if metric == "quota" then 1000 else if metric == "load1" then 1000000 else 100

-- The metrics of a machine.
abbrev pub is_machine_metric : String → Bool
is_machine_metric metric =
    metric == "cpu"
    || metric == "mem"
    || metric == "swap"
    || metric == "disk"
    || metric == "load1"
    || metric == "quota"
    || metric == "offline"

module _ {Value : Type 0} (x : Text) (scale : Scale Value) where
  -- The tests of the form before the switch.
  unfoldable pub checked_form : RuleForm Value → Option (AlertRule Value)
  checked_form form =
      let name = x.trim form.rule.name in
      if ltb (x.runes name) 1 || ltb 64 (x.runes name)
      then none
      else elim (duration_of form.duration) [
        | none ↦ none
        | some seconds ↦
            if scale.is_threshold form.rule.threshold
            then some (record form.rule { name = name; duration_seconds = seconds })
            else none
      ]

  -- The switch on the metric. A rule has a machine or a monitor; the other column is NULL, read as 0.
  unfoldable pub aim : Bool → Control Value → AlertRule Value → Option (AlertRule Value)
  aim machine_known c a =
      if a.metric == "monitor"
      then (if is_some (lookup a.monitor_id c.monitors)
          then some (record a { server_id = 0; threshold = scale.one })
          else none)
      else (if is_machine_metric a.metric && machine_known
          then (let aimed = record a {
            monitor_id = 0;
            threshold = if a.metric == "offline" then scale.one else a.threshold;
          } in
              if scale.exceeds aimed.threshold (limit_of a.metric) then none else some aimed)
          else none)

module _ {Value : Type 0} where
  unfoldable pub add_rule : AlertRule Value → Control Value → Control Value
  add_rule a c = record c {
    rules = insert c.next_rule (record a { id = c.next_rule; revision = 1 }) c.rules;
    next_rule = c.next_rule + 1;
  }

  unfoldable pub update_rule : ℕ → AlertRule Value → AlertRule Value → Control Value → Control Value
  update_rule id a old c = record c {
    rules = insert id (record a { id = id; revision = old.revision + 1 }) c.rules;
    states = erase id c.states;
  }

  -- The part of the handler once the rule is checked.
  unfoldable pub store_rule :
      (String → Option ℤ)
      → Bool
      → String
      → AlertRule Value
      → Bool
      → Control Value
      → Control Value × Status
  unfolding add_rule update_rule
  store_rule parse_int true text a works c =
      if works
      then (if leb max_rules (length c.rules) then (c, bad_request) else (add_rule a c, ok))
      else (c, server_error)
  store_rule parse_int false text a works c = elim (path_id parse_int text) [
    | none ↦ (c, bad_request)
    | some id ↦
        if works
        then elim (lookup id c.rules) [
          | none ↦ (c, not_found)
          | some old ↦ (update_rule id a old c, ok)
        ]
        else (c, server_error)
  ]

  module _ {Float : Type 0} (x : Text) (scale : Scale Value) (blank : Sample Float)
      (parse_int : String → Option ℤ) where
    unfoldable pub handle_save_rule :
        Bool
        → String
        → Option (RuleForm Value)
        → ℕ
        → Bool
        → Hub Float
        → Control Value
        → Control Value × Status
    unfolding store_rule checked_form aim
    handle_save_rule post text none now works hub c = (c, bad_request)
    handle_save_rule post text (some form) now works hub c = elim (checked_form x scale form) [
      | none ↦ (c, bad_request)
      | some a ↦ elim (aim x scale (is_some (view blank a.server_id now hub)) c a) [
        | none ↦ (c, bad_request)
        | some aimed ↦
            if is_some (lookup aimed.channel_id c.channels)
            then store_rule parse_int post text aimed works c
            else (c, bad_request)
      ]
    ]

  unfoldable pub handle_delete_rule :
      (String → Option ℤ) → String → Bool → Control Value → Control Value × Status
  handle_delete_rule parse_int text works c = elim (path_id parse_int text) [
    | none ↦ (c, bad_request)
    | some id ↦
        if works
        then (if is_some (lookup id c.rules)
            then (record c { rules = erase id c.rules; states = erase id c.states }, ok)
            else (c, not_found))
        else (c, server_error)
  ]

  -- The latest result of a monitor; `results` has the newest first.
  unfoldable pub monitor_last : ℕ → List (ResultRow Value) → Option (MonitorResult Value)
  monitor_last id [] = none
  monitor_last id (r ∷ rest) =
      let older = monitor_last id rest in if eqb r.monitor_id id then some r.result else older

  unfoldable pub observe_monitor : Scale Value → AlertRule Value → ℕ → Control Value → Option Value
  unfolding monitor_last
  observe_monitor scale a now c = elim (lookup a.monitor_id c.monitors) [
    | none ↦ none
    | some m ↦
        if m.enabled
        then elim (monitor_last a.monitor_id c.results) [
          | none ↦ none
          | some p ↦
              if p.status == "unknown" || ltb (p.at + (m.interval_seconds * 2 + 60)) now
              then none
              else (if p.status == "down" then some scale.one else some scale.zero)
        ]
        else none
  ]

  module _ {Float : Type 0} (blank : Sample Float)
      (read : String → MachineView Float → Option Value) where
    -- `read` computes the number of a metric from a view that has a sample; `seconds` is `now` in
    -- Unix seconds.
    unfoldable pub observation :
        Scale Value → AlertRule Value → ℕ → ℕ → Hub Float → Control Value → Option Value
    unfolding observe_monitor
    observation scale a now seconds hub c =
        if a.metric == "monitor"
        then observe_monitor scale a seconds c
        else elim (view blank a.server_id now hub) [
          | none ↦ none
          | some v ↦
              if a.metric == "offline"
              then some (if v.online then scale.zero else scale.one)
              else (if v.online && is_some v.recent then read a.metric v else none)
        ]
