-- ===== src/Control/Tests.antt =====
-- Monitors, channels and rules that are saved and deleted, and each theorem at a concrete input.
-- Percentages stand in for float64.
use dingzi.Base.{ℕ, ◌≡◌, refl, none, some, [], ◌∷◌, number_key, text_key, true, false, pos, ltb}
use dingzi.Fleet.{Hub, new_hub, install, get}
use dingzi.Fleet.Examples.{blank, machine}
use dingzi.Fleet.Reports.{view, view_of}
use dingzi.Schedule.{Monitor}
use dingzi.Alerts.{AlertRule}
use dingzi.Alerts.Notify.{NotificationChannel}
use dingzi.Server.Admin.{path_id}
use dingzi.Control.{Control, MonitorResult, new_control, drop_monitor, drop_server}
use dingzi.Control.Monitors.{
  update_monitor, revise, validate, is_valid, is_target, handle_save_monitor, add_monitor,
}
use dingzi.Control.Channels.{
  handle_save_channel, handle_delete_channel, create_channel, channel_shape, add_channel,
  has_bad_length, conflict, rules_using,
}
use dingzi.Control.Rules.{handle_save_rule, checked_form, duration_of, aim, store_rule, add_rule}
use dingzi.Control.Checks.{store_result}
use dingzi.Control.Tables.{IsSound}
use dingzi.Control.History.{
  Tools, saves_monitor, saves_channel, saves_rule, step, Reachable, start, next, Reachable-IsSound,
}
use dingzi.Control.Edited.{store_result_stale}

abbrev tools : Tools ℕ ℕ
tools = record {
  text = record {
    trim = λ text. text;
    runes = λ text. 3;
    len = λ text. 9;
    parse = λ text. none;
    split_host_port = λ text. some ("db", "5432");
    atoi = λ text. some (pos 5432);
    contains_any = λ text chars. false;
  };
  scale = record {
    is_threshold = λ value. true;
    exceeds = λ value limit. ltb limit value;
    zero = 0;
    one = 1;
  };
  blank = blank;
  parse_int = λ text. some (pos 1);
  is_telegram_token = λ text. true;
}

abbrev fleet : Hub ℕ
fleet = install (machine 1 "a") new_hub

abbrev port : Monitor
port = record {
  id = 0;
  name = "port";
  server_id = 1;
  type = "tcp";
  target = "db:5432";
  interval_seconds = 60;
  timeout_ms = 5000;
  enabled = true;
  revision = 0;
}

abbrev bot : NotificationChannel
bot = record {
  id = 0;
  name = "bot";
  type = "telegram";
  url = "";
  token = "1:a";
  chat_id = "7";
  enabled = true;
}

abbrev down : AlertRule ℕ
down = record {
  id = 0;
  name = "down";
  server_id = 0;
  monitor_id = 1;
  metric = "monitor";
  threshold = 1;
  duration_seconds = 0;
  channel_id = 1;
  enabled = true;
  revision = 0;
}

-- A monitor, a channel and a rule that uses both.
abbrev used : Control ℕ
used =
    step tools
      (step tools (step tools new_control (saves_monitor true "" (some port) 5 true fleet))
        (saves_channel true "" (some (record { channel = bot; clear_token = false })) true))
      (saves_rule true "" (some (record { rule = down; duration = pos 30 })) 5 true fleet)

used-Reachable : Reachable tools used
used-Reachable =
    next
      (next (next start (saves_monitor true "" (some port) 5 true fleet))
        (saves_channel true "" (some (record { channel = bot; clear_token = false })) true))
      (saves_rule true "" (some (record { rule = down; duration = pos 30 })) 5 true fleet)

-- The channel is in use and stays.
conflict_runs : handle_delete_channel tools.parse_int "1" true used ≡ (used, conflict)
unfolding step new_control handle_save_monitor validate is_valid is_target add_monitor view view_of
    get install new_hub handle_save_channel has_bad_length create_channel channel_shape add_channel
    handle_save_rule checked_form duration_of aim store_rule add_rule handle_delete_channel path_id
    rules_using
conflict_runs = refl

Reachable-IsSound_example : IsSound used
Reachable-IsSound_example = Reachable-IsSound tools used-Reachable

abbrev held : Monitor
held = record port { id = 1; revision = 1 }

abbrev faster : Monitor
faster = record port { interval_seconds = 10 }

abbrev up : MonitorResult ℕ
up = record { at = 9; status = "up"; latency_ms = 4; loss = 0; status_code = 0; error = "" }

abbrev one_monitor : Control ℕ
one_monitor = record {
  monitors = (1, held) ∷ [];
  next_monitor = 2;
  results = [];
  channels = [];
  next_channel = 1;
  rules = [];
  next_rule = 1;
  states = [];
}

store_result_stale_example :
    let once = update_monitor 1 faster held one_monitor in
    let twice = update_monitor 1 port (revise 1 faster held) once in
    (store_result held up once ≡ once)
    × (store_result held up twice ≡ twice)
    × (store_result held up (drop_monitor 1 one_monitor) ≡ drop_monitor 1 one_monitor)
    × (store_result held up (drop_server 1 one_monitor) ≡ drop_server 1 one_monitor)
store_result_stale_example = store_result_stale held faster port up one_monitor (refl, tt) refl
