-- ===== src/Control/Checks.antt =====
-- internal/server/monitors.go, check: the result of a check and where it is stored. `dispatch` is the
-- answer of the agent on a connection, none when none comes; `contains` is strings.Contains, and
-- `is_latency` and `is_loss` are the tests of the two numbers.
use dingzi.Base.{
  ℕ, zero, suc, Bool, not, ◌||◌, Option, none, some, ◌∷◌, String, eqb, if◌then◌else◌, number_key,
}
use dingzi.Base.Table.{lookup}
use dingzi.Fleet.{Hub, Sample, conn}
use dingzi.Fleet.Reports.{view}
use dingzi.Schedule.{Monitor}
use dingzi.Control.{Control, MonitorResult}

pub record Task : Type 0 where
  pub monitor_id : ℕ
  pub type : String
  pub target : String
  pub timeout_ms : ℕ

pub record TaskResult (Value : Type 0) : Type 0 where
  pub ok : Bool
  pub latency_ms : Value
  pub loss : Value
  pub status_code : ℕ
  pub error : String

abbrev pub task_of : Monitor → Task
task_of m = record {
  monitor_id = m.id;
  type = m.type;
  target = m.target;
  timeout_ms = m.timeout_ms;
}

module _ {Value : Type 0} (nothing : Value) where
  abbrev pub unknown : ℕ → String → MonitorResult Value
  unknown at error = record {
    at = at;
    status = "unknown";
    latency_ms = nothing;
    loss = nothing;
    status_code = 0;
    error = error;
  }

  module _ (is_latency is_loss : Value → Bool) (contains : String → String → Bool) where
    -- The reasons that lie with the agent and not with the target.
    abbrev pub blocked : String → Bool
    blocked error = contains error "权限不足" || contains error "并发已满"

    unfoldable pub classify : ℕ → Option (TaskResult Value) → MonitorResult Value
    classify at none = unknown at "探针未返回检查结果"
    classify at (some res) =
        if not (is_latency res.latency_ms) || not (is_loss res.loss)
        then unknown at "探针返回无效数据"
        else record {
          at = at;
          status = if blocked res.error then "unknown" else if res.ok then "up" else "down";
          latency_ms = res.latency_ms;
          loss = res.loss;
          status_code = res.status_code;
          error = res.error;
        }

    unfoldable pub probe :
        {Float : Type 0}
        → Sample Float
        → (ℕ → Task → Option (TaskResult Value))
        → ℕ
        → ℕ
        → Monitor
        → Hub Float
        → MonitorResult Value
    unfolding classify
    probe blank dispatch now at m hub = elim (view blank m.server_id now hub) [
      | none ↦ unknown at "执行探针离线"
      | some v ↦ elim (conn m.server_id hub) [
        | none ↦ unknown at "执行探针离线"
        | some c ↦ if v.online then classify at (dispatch c (task_of m)) else unknown at "执行探针离线"
      ]
    ]

-- The first runes of a text.
unfoldable pub truncate : ℕ → String → String
truncate zero s = ""
truncate (suc n) String.[] = ""
truncate (suc n) (String.◌∷◌ ch s) = String.◌∷◌ ch (truncate n s)

module _ {Value : Type 0} where
  -- `INSERT … SELECT … FROM monitors WHERE id=? AND revision=?`, newest first.
  unfoldable pub store_result : Monitor → MonitorResult Value → Control Value → Control Value
  store_result m p c = elim (lookup m.id c.monitors) [
    | none ↦ c
    | some row ↦
        if eqb row.revision m.revision
        then record c {
          results =
              (record { monitor_id = m.id; result = record p { error = truncate 512 p.error } })
              ∷ c.results;
        }
        else c
  ]
