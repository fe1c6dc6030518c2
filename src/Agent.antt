-- ===== src/Agent.antt =====
-- internal/agent/client.go and tasks.go, internal/proto: the agent's loop of connections, and
-- the tasks it carries out. `grow` is time.Duration(float64(d) * 1.7); the random part of a wait is an
-- argument, less than half of the backoff plus one as rand.Int64N gives it.
pub mod Backoff
pub mod Reader
pub mod Served
pub mod Accepted
pub mod Config
pub mod Saved
pub mod Identity
mod Tests
use dingzi.Base.{
  ℕ, suc, ◌+◌, ◌-◌, ◌*◌, ◌/◌, Bool, true, false, not, ◌||◌, Option, none, some, List, [], ◌∷◌,
  String, ltb, eqb, if◌then◌else◌, text_key, ◌==◌, min,
}
use dingzi.Sessions.{second}
use dingzi.Control.Checks.{Task, TaskResult}

abbrev pub backoff_min : ℕ
backoff_min = 1 * second

abbrev pub backoff_max : ℕ
backoff_max = 2 * 60 * second

abbrev pub pong_wait : ℕ
pong_wait = 45 * second

-- How a session ended, with the time it lasted; `interrupted` when the context is cancelled in the
-- wait that follows.
pub data Outcome : Type 0 where
  cancelled : Outcome
  fatal : String → Outcome
  interrupted : ℕ → Outcome
  ended : ℕ → Outcome

-- Why Run returned.
pub data Stop : Type 0 where
  stopped : Stop
  rejected : String → Stop

pub record Running : Type 0 where
  pub backoff : ℕ
  pub waits : List ℕ
  pub result : Option Stop

abbrev pub start_running : Running
start_running = record { backoff = backoff_min; waits = []; result = none }

unfoldable pub jitter : ℕ → ℕ → ℕ
jitter random d = d / 2 + random

-- The backoff before a wait: a session that lasted resets it.
abbrev pub settled : ℕ → ℕ → ℕ
settled uptime backoff = if ltb (2 * pong_wait) uptime then backoff_min else backoff

module _ (grow : ℕ → ℕ) where
  -- A round of Run: a session and, when it may be tried again, the wait after it.
  unfoldable pub round : Outcome → ℕ → Running → Running
  unfolding jitter
  round cancelled random r = record r { result = some stopped }
  round (fatal msg) random r = record r { result = some (rejected msg) }
  round (interrupted uptime) random r =
      let b = settled uptime r.backoff in
      record { backoff = b; waits = jitter random b ∷ r.waits; result = some stopped }
  round (ended uptime) random r =
      let b = settled uptime r.backoff in
      record r { backoff = min (grow b) backoff_max; waits = jitter random b ∷ r.waits }

  -- Rounds until one returns; what would follow is not run.
  unfoldable pub run : List (Outcome × ℕ) → Running → Running
  unfolding round
  run [] r = r
  run ((outcome, random) ∷ rounds) r =
      let after = round outcome random r in
      let rest = run rounds after in elim after.result [ none ↦ rest | some stop ↦ after ]

-- proto.Task.Valid
unfoldable pub is_valid_task : Task → Bool
is_valid_task t =
    if t.target == "" || eqb t.timeout_ms 0
    then false
    else t.type == "ping" || t.type == "tcp" || t.type == "http"

module _ {Value : Type 0} (nothing : Value) where
  abbrev pub failed_result : String → TaskResult Value
  failed_result error = record {
    ok = false;
    latency_ms = nothing;
    loss = nothing;
    status_code = 0;
    error = error;
  }

  -- `ping`, `tcp` and `http` carry out the checks; `describe` is the text about a task refused.
  unfoldable pub run_task :
      (Task → TaskResult Value)
      → (Task → TaskResult Value)
      → (Task → TaskResult Value)
      → (Task → String)
      → Task
      → ℕ × TaskResult Value
  unfolding is_valid_task
  run_task ping tcp http describe t =
      if is_valid_task t
      then (
        t.monitor_id,
        if t.type == "ping" then ping t else if t.type == "tcp" then tcp t else http t,
      )
      else (t.monitor_id, failed_result (describe t))
