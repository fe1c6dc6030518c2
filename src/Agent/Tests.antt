-- ===== src/Agent/Tests.antt =====
-- Runs of the agent's loop at concrete sessions, and the theorems about it applied to them.
use dingzi.Base.{
  Bool, List, String, [], ap, arith, false, if◌then◌else◌, ltb, none, pos, refl, some, sym,
  text_key, true, ℕ, ◌*◌, ◌/◌, ◌==◌, ◌↔◌, ◌∷◌, ◌≡◌, ◌≤◌, ◌⊎◌,
}
use dingzi.Agent.{Outcome, start_running, round, run, fatal, ended, rejected, run_task}
use dingzi.Agent.Backoff.{InRange, Retried, IsPaced, run-IsPaced}
use dingzi.Agent.Reader.{
  Event, Reading, read, read_loop, ping, task, error, other, task_ended, pong, start_task,
  refuse_task, turned_away,
}
use dingzi.Agent.Served.{Serves, IsWithin, read_loop_lem}
use dingzi.Agent.Accepted.{run_task-validate}
use dingzi.Agent.Config.{
  Config, Outside, Disk, Call, not_exist, layer, is_yes, env_interval, apply_env, apply_override,
  read_config, settle, load_config, save, ensure_uuid, ensure_token, identify,
}
use dingzi.Agent.Identity.{Restarted, identify-Restarted}
use dingzi.Schedule.{Monitor}
use dingzi.Control.Checks.{Task, TaskResult, task_of}
use dingzi.Control.Monitors.{Text, validate, is_valid, is_target}

abbrev grow : ℕ → ℕ
grow d = d * 17 / 10

grows : (d : ℕ) → d ≤ grow d
grows d = omega arith

-- Two failures, a long session, and a rejection.
abbrev sessions : List (Outcome × ℕ)
sessions = (ended 0, 3) ∷ (ended 5, 100) ∷ (ended 100000000000, 7) ∷ (fatal "bad key", 0) ∷ []

abbrev two_failures : List (Outcome × ℕ)
two_failures = (ended 0, 3) ∷ (ended 5, 100) ∷ []

backs_off : (run grow two_failures start_running).backoff ≡ 2890000000
unfolding run round
backs_off = refl

resets : (run grow sessions start_running).backoff ≡ 1700000000
unfolding run round
resets = refl

stops_for_good : (run grow sessions start_running).result ≡ some (rejected "bad key")
unfolding run round
stops_for_good = refl

start-IsPaced : IsPaced start_running
start-IsPaced = record { low = omega arith; high = omega arith; waits = tt }

in_range : InRange grow sessions start_running
unfolding run round
in_range = (omega arith, (omega arith, (omega arith, tt)))

run-IsPaced_example :
    IsPaced (run grow sessions start_running)
    × (((run grow sessions start_running).result ≡ none) ↔ Retried sessions)
run-IsPaced_example = run-IsPaced grow grows sessions start_running refl in_range start-IsPaced

abbrev ping_task : Task
ping_task = record { monitor_id = 7; type = "ping"; target = "10.0.0.1"; timeout_ms = 1000 }

-- A task that is refused for want of a slot, a frame nobody can decode, and a fatal error.
abbrev events : List Event
events =
    ping "a" true
    ∷ task "b" (some ping_task)
    ∷ task_ended
    ∷ task "c" (some ping_task)
    ∷ task "d" none
    ∷ other
    ∷ error true "revoked"
    ∷ ping "e" true
    ∷ []

abbrev nearly_full : Reading
nearly_full = record { tasks = 15; terminals = 4 }

serves :
    (read_loop events (record { tasks = 16; terminals = 0 })).actions
    ≡ pong "a" ∷ refuse_task "b" 7 ∷ start_task "c" ping_task ∷ []
unfolding read_loop read
serves = refl

turns_away : (read_loop events nearly_full).loss ≡ some (turned_away "revoked")
unfolding read_loop read
turns_away = refl

read_loop_lem_example :
    Serves 15 4 events (read_loop events nearly_full) × IsWithin (read_loop events nearly_full).at
read_loop_lem_example = read_loop_lem events nearly_full (omega arith, omega arith)

abbrev text : Text
text = record {
  trim = λ t. t;
  runes = λ t. 3;
  len = λ t. if t == "" then 0 else 9;
  parse = λ t. none;
  split_host_port = λ t. some ("db", "5432");
  atoi = λ t. some (pos 5432);
  contains_any = λ t chars. false;
}

abbrev port : Monitor
port = record {
  id = 7;
  name = "port";
  server_id = 1;
  type = "tcp";
  target = "db:5432";
  interval_seconds = 60;
  timeout_ms = 5000;
  enabled = true;
  revision = 0;
}

abbrev answer : Task → TaskResult ℕ
answer t = record { ok = true; latency_ms = 12; loss = 0; status_code = 0; error = "" }

abbrev describe : Task → String
describe t = t.type

port_passes : validate text port ≡ some port
unfolding validate is_valid is_target
port_passes = refl

run_task-validate_example :
    ((port.type ≡ "ping")
      × (run_task 0 answer answer answer describe (task_of port) ≡ (7, answer (task_of port))))
    ⊎ ((port.type ≡ "tcp")
        × (run_task 0 answer answer answer describe (task_of port) ≡ (7, answer (task_of port))))
    ⊎ ((port.type ≡ "http")
        × (run_task 0 answer answer answer describe (task_of port) ≡ (7, answer (task_of port))))
run_task-validate_example =
    run_task-validate 0 text port port refl port_passes answer answer answer describe

abbrev saved_config : Config ℕ
saved_config = record {
  server = "wss://panel/api/v1/agent/ws";
  secret = "s";
  token = "t-1";
  uuid = "u-1";
  name = "";
  report_interval = 1;
  mounts = [];
  ignore_interfaces = [];
  insecure_skip_verify = false;
  allow_terminal = false;
  path = "agent.yaml";
}

abbrev outside : Outside ℕ
outside = record {
  getenv = λ name. "";
  parse_float = λ v. none;
  is_positive = λ v. ltb 0 v;
  zero = 0;
  default_interval = 1;
  equal_fold = λ v w. v == w;
  unmarshal = λ v c. some saved_config;
  marshal = λ c. c.token;
  decoded_length = λ v. some 32;
}

abbrev flags : Config ℕ
flags = record saved_config { token = ""; uuid = ""; report_interval = 0; path = "" }

abbrev first_config : Config ℕ
first_config = record saved_config { token = ""; uuid = "" }

abbrev empty_disk : Disk
empty_disk = record { target = none; temp = none }

abbrev always : ℕ → Call → Bool
always attempt call = true

first_run : load_config outside "agent.yaml" flags not_exist ≡ some first_config
unfolding load_config read_config settle apply_env apply_override layer is_yes env_interval
first_run = refl

identified :
    identify outside "u-1" (some "t-1") always first_config empty_disk
    ≡ (saved_config, record { target = some "t-1"; temp = none }, true)
unfolding identify ensure_uuid ensure_token save
identified = refl

identify-Restarted_example :
    let (used, after, _) = identify outside "u-1" (some "t-1") always first_config empty_disk in
    Restarted outside "agent.yaml" flags used after
identify-Restarted_example =
    identify-Restarted outside "agent.yaml" flags first_config empty_disk "u-1" (some "t-1") always
      refl first_run (ap (λ r. r.2) identified) (ap (λ r. some r.0) (sym identified))
