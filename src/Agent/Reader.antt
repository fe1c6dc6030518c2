-- ===== src/Agent/Reader.antt =====
-- internal/agent/client.go, readLoop: the frames of the panel and the slots for their work. An event is
-- a decoded frame, a frame that cannot be read, or the end of the work that holds a slot. The frames
-- of a task and of a terminal have none where their payload cannot be decoded.
use dingzi.Base.{
  ℕ, ◌+◌, ◌-◌, Bool, Option, none, some, List, [], ◌∷◌, ◌++◌, String, ltb, if◌then◌else◌,
}
use dingzi.Control.Checks.{Task}

abbrev pub max_tasks : ℕ
max_tasks = 16

abbrev pub max_terminals : ℕ
max_terminals = 4

pub record TerminalOpen : Type 0 where
  pub session : String
  pub cols : ℕ
  pub rows : ℕ

-- `ping` says whether its answer can be sent, `error` whether it is fatal.
pub data Event : Type 0 where
  ping : String → Bool → Event
  task : String → Option Task → Event
  terminal_open : String → Option TerminalOpen → Event
  error : Bool → String → Event
  other : Event
  unreadable : Event
  task_ended : Event
  terminal_ended : Event

pub data Action : Type 0 where
  pong : String → Action
  start_task : String → Task → Action
  refuse_task : String → ℕ → Action
  open_terminal : String → TerminalOpen → Action
  refuse_terminal : String → Action

-- Why the loop returns.
pub data Loss : Type 0 where
  lost : Loss
  turned_away : String → Loss

pub record Reading : Type 0 where
  pub tasks : ℕ
  pub terminals : ℕ

abbrev pub new_reading : Reading
new_reading = record { tasks = 0; terminals = 0 }

pub data Turn : Type 0 where
  goes_on : List Action → Reading → Turn
  returns : Loss → Turn

unfoldable pub read : Event → Reading → Turn
read (ping id delivered) r = if delivered then goes_on (pong id ∷ []) r else returns lost
read (task id none) r = goes_on [] r
read (task id (some t)) r =
    if ltb r.tasks max_tasks
    then goes_on (start_task id t ∷ []) (record r { tasks = r.tasks + 1 })
    else goes_on (refuse_task id t.monitor_id ∷ []) r
read (terminal_open id none) r = goes_on [] r
read (terminal_open id (some asked)) r =
    if ltb r.terminals max_terminals
    then goes_on (open_terminal id asked ∷ []) (record r { terminals = r.terminals + 1 })
    else goes_on (refuse_terminal id ∷ []) r
read (error is_fatal msg) r = if is_fatal then returns (turned_away msg) else goes_on [] r
read other r = goes_on [] r
read unreadable r = returns lost
read task_ended r = goes_on [] (record r { tasks = r.tasks - 1 })
read terminal_ended r = goes_on [] (record r { terminals = r.terminals - 1 })

pub record Served : Type 0 where
  pub actions : List Action
  pub at : Reading
  pub loss : Option Loss

-- The loop; what comes after it returns is not read.
unfoldable pub read_loop : List Event → Reading → Served
unfolding read
read_loop [] r = record { actions = []; at = r; loss = none }
read_loop (event ∷ events) r = elim (read event r) [
  | goes_on actions r' ↦
      let rest = read_loop events r' in record rest { actions = actions ++ rest.actions }
  | returns why ↦ record { actions = []; at = r; loss = some why }
]
