-- ===== src/Terminals/History.antt =====
-- Every history of calls of the registry, as the handlers make them.
use dingzi.Base.{ℕ, ◌≡◌, none, some, String, number_key, text_key, text_key}
use dingzi.Base.Table.{lookup}
use dingzi.Terminals.{
  TerminalRegistry, new_terminal_registry, reserve, claim, release, track, close_machine,
}
use dingzi.Terminals.Invariant.{IsValid, new-IsValid, close_machine-IsValid}
use dingzi.Terminals.Reserve.{reserve-IsValid}
use dingzi.Terminals.Claim.{claim-IsValid, release-IsValid, track-IsValid}

pub data Call : Type 0 where
  reserves : String → ℕ → ℕ → Call
  claims : String → ℕ → Call
  releases : String → ℕ → Call
  tracks : String → ℕ → Call
  closes_machine : ℕ → Call

-- The handlers mint a token that is not in use (32 random bytes), and release a session under the
-- machine for which they reserved it.
abbrev pub Allowed : TerminalRegistry → Call → Type 0
Allowed reg (reserves tok m now) = lookup tok reg.owned ≡ none
Allowed reg (claims tok now) = Unit
Allowed reg (releases tok m) = (owner : ℕ) → lookup tok reg.owned ≡ some owner → owner ≡ m
Allowed reg (tracks tok conn) = Unit
Allowed reg (closes_machine id) = Unit

unfoldable pub step : TerminalRegistry → Call → TerminalRegistry
step reg (reserves tok m now) = (reserve tok m now reg).0
step reg (claims tok now) = (claim tok now reg).0
step reg (releases tok m) = release tok m reg
step reg (tracks tok conn) = (track tok conn reg).0
step reg (closes_machine id) = close_machine id reg

pub data Reachable : TerminalRegistry → Type 0 where
  start : Reachable new_terminal_registry
  next :
      {reg : TerminalRegistry} → Reachable reg → (c : Call) → Allowed reg c → Reachable (step reg c)

step-IsValid :
    (reg : TerminalRegistry) (c : Call) → Allowed reg c → IsValid reg → IsValid (step reg c)
unfolding step
step-IsValid reg (reserves tok m now) a v = reserve-IsValid tok m now reg v a
step-IsValid reg (claims tok now) a v = claim-IsValid tok now reg v
step-IsValid reg (releases tok m) a v = release-IsValid tok m reg v a
step-IsValid reg (tracks tok conn) a v = track-IsValid tok conn reg v
step-IsValid reg (closes_machine id) a v = close_machine-IsValid id reg v

-- After any history the registry is valid: the total is the number of sessions, pending and
-- active, and at most 16; the counter of each machine is the number of its sessions, and at most
-- 4; every pending session is owned by its machine, and no other token has connections.
pub Reachable-IsValid : {reg : TerminalRegistry} → Reachable reg → IsValid reg
Reachable-IsValid start = new-IsValid
Reachable-IsValid (next {reg = before} r c a) = step-IsValid before c a (Reachable-IsValid r)
