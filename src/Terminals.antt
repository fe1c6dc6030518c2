-- ===== src/Terminals.antt =====
-- internal/server/terminal.go: the registry of pending and active terminal sessions.
-- Times are nanoseconds; `now` is the reading of time.Now() that the call makes, and the minted
-- token of `reserve` is an argument. Connections are named by numbers, and `closed` lists those on
-- which Close was called, latest first. The mutex makes each function one step.
pub mod Forget
pub mod Invariant
pub mod Claim
pub mod Reserve
pub mod Close
pub mod History
pub mod Once
mod Tests
use dingzi.Base.{
  ℕ, ◌+◌, ◌-◌, ◌*◌, ◌^◌, Bool, true, false, ◌&&◌, not, Option, none, some, List, [], ◌∷◌, ◌++◌,
  String, ltb, leb, eqb, if◌then◌else◌, number_key, text_key,
}
use dingzi.Base.Table.{Table, lookup, erase, insert}

abbrev pub seconds : ℕ → ℕ
seconds n = n * 1_000_000_000

abbrev pub terminal_token_ttl : ℕ
terminal_token_ttl = seconds 30

abbrev pub max_terminals_per_machine : ℕ
max_terminals_per_machine = 4

abbrev pub max_terminals_total : ℕ
max_terminals_total = 16

pub record PendingTerminal : Type 0 where
  pub machine_id : ℕ
  pub created : ℕ

pub record TerminalRegistry : Type 0 where
  pub pending : Table String PendingTerminal
  pub owned : Table String ℕ
  pub connections : Table String (List ℕ)
  pub per_machine : Table ℕ ℕ
  pub total : ℕ
  pub closed : List ℕ

pub data TerminalError : Type 0 where
  too_many_terminals too_many_terminals_here : TerminalError

pub new_terminal_registry : TerminalRegistry
new_terminal_registry = record {
  pending = [];
  owned = [];
  connections = [];
  per_machine = [];
  total = 0;
  closed = [];
}

-- Reading a missing key of a map gives the zero value.
abbrev pub or_zero : Option ℕ → ℕ
or_zero none = 0
or_zero (some n) = n

abbrev pub or_nil : Option (List ℕ) → List ℕ
or_nil none = []
or_nil (some l) = l

-- `time.Since(created) > terminalTokenTTL` and `now.Sub(created) > terminalTokenTTL`
abbrev pub is_stale : ℕ → PendingTerminal → Bool
is_stale now p = ltb (p.created + terminal_token_ttl) now

lower : ℕ → ℕ → Table ℕ ℕ → Table ℕ ℕ
lower machine_id n m =
    if ltb 0 n
    then (if eqb (n - 1) 0 then erase machine_id m else insert machine_id (n - 1) m)
    else m

pub drop : ℕ → TerminalRegistry → TerminalRegistry
unfolding lower
drop machine_id reg = record reg {
  per_machine = lower machine_id (or_zero (lookup machine_id reg.per_machine)) reg.per_machine;
  total = if ltb 0 reg.total then reg.total - 1 else reg.total;
}

-- What every path that gives up a session does: the maps forget the token, its connections are
-- closed, and the slot is given back.
pub forget : String → ℕ → TerminalRegistry → TerminalRegistry
unfolding drop
forget tok machine_id reg = drop machine_id (record reg {
  pending = erase tok reg.pending;
  owned = erase tok reg.owned;
  connections = erase tok reg.connections;
  closed = or_nil (lookup tok reg.connections) ++ reg.closed;
})

-- The loop of `reserve` over the pending sessions.
pub expire_from : ℕ → Table String PendingTerminal → TerminalRegistry → TerminalRegistry
expire_from now [] reg = reg
expire_from now ((t, p) ∷ rest) reg =
    expire_from now rest (if is_stale now p then forget t p.machine_id reg else reg)

pub expire : ℕ → TerminalRegistry → TerminalRegistry
unfolding expire_from
expire now reg = expire_from now reg.pending reg

pub admit : String → ℕ → ℕ → TerminalRegistry → TerminalRegistry
admit tok machine_id now reg = record reg {
  pending = insert tok (record { machine_id = machine_id; created = now }) reg.pending;
  owned = insert tok machine_id reg.owned;
  per_machine = insert machine_id (or_zero (lookup machine_id reg.per_machine) + 1) reg.per_machine;
  total = reg.total + 1;
}

pub data Reserved : Type 0 where
  ok : Reserved
  refused : TerminalError → Reserved

-- The check of the caps, once the stale reservations are gone.
pub reserve_slot : String → ℕ → ℕ → TerminalRegistry → TerminalRegistry × Reserved
reserve_slot tok machine_id now reg =
    if leb max_terminals_total reg.total
    then (reg, refused too_many_terminals)
    else if leb max_terminals_per_machine (or_zero (lookup machine_id reg.per_machine))
    then (reg, refused too_many_terminals_here)
    else (admit tok machine_id now reg, ok)

pub reserve : String → ℕ → ℕ → TerminalRegistry → TerminalRegistry × Reserved
reserve tok machine_id now reg = reserve_slot tok machine_id now (expire now reg)

pub claim : String → ℕ → TerminalRegistry → TerminalRegistry × Option PendingTerminal
claim tok now reg = elim (lookup tok reg.pending) [
  | none ↦ (reg, none)
  | some p ↦
      if is_stale now p
      then (forget tok p.machine_id reg, none)
      else (record reg { pending = erase tok reg.pending }, some p)
]

pub release : String → ℕ → TerminalRegistry → TerminalRegistry
release tok machine_id reg = elim (lookup tok reg.owned) [
  | none ↦ reg
  | some m ↦ forget tok machine_id reg
]

pub track : String → ℕ → TerminalRegistry → TerminalRegistry × Bool
track tok conn reg = elim (lookup tok reg.owned) [
  | none ↦ (record reg { closed = conn ∷ reg.closed }, false)
  | some m ↦ (
    record reg {
      connections = insert tok (or_nil (lookup tok reg.connections) ++ (conn ∷ [])) reg.connections;
    },
    true,
  )
]

-- `id != 0 && machineID != id`
abbrev pub is_spared : ℕ → ℕ → Bool
is_spared id machine_id = not (eqb id 0) && not (eqb machine_id id)

-- The loop of `closeMachine` over the owned sessions; `id` 0 means every machine.
pub close_from : ℕ → Table String ℕ → TerminalRegistry → TerminalRegistry
close_from id [] reg = reg
close_from id ((tok, machine_id) ∷ rest) reg =
    close_from id rest (if is_spared id machine_id then reg else forget tok machine_id reg)

pub close_machine : ℕ → TerminalRegistry → TerminalRegistry
unfolding close_from
close_machine id reg = close_from id reg.owned reg
