-- ===== src/Schedule.antt =====
-- internal/server/monitors.go: the scheduler of the service checks. `slots` counts the tokens in the
-- channel of 16. `release` holds its mutex only for `unmark`, so other calls may come before its
-- receive, `free_slot`, which blocks on an empty channel, where nothing changes here.
-- Times are nanoseconds. A Monitor has its columns; Last, Uptime and Checks are of the API alone.
-- The checks that a call starts are returned, in the order of the loop; a check that ends calls
-- `release`.
pub mod Slots
pub mod Starts
mod Tests
use dingzi.Base.{
  ℕ, ◌+◌, ◌-◌, ◌*◌, Bool, true, false, not, ◌&&◌, ◌||◌, Option, none, some, List, [], ◌∷◌, String,
  ltb, eqb, if◌then◌else◌, number_key,
}
use dingzi.Base.Table.{Table, lookup, erase, insert}

abbrev pub max_slots : ℕ
max_slots = 16

pub record Monitor : Type 0 where
  pub id : ℕ
  pub name : String
  pub server_id : ℕ
  pub type : String
  pub target : String
  pub interval_seconds : ℕ
  pub timeout_ms : ℕ
  pub enabled : Bool
  pub revision : ℕ

pub record ScheduledMonitor : Type 0 where
  pub revision : ℕ
  pub at : ℕ

pub record ServiceEngine : Type 0 where
  pub running : Table ℕ Bool
  pub next : Table ℕ ScheduledMonitor
  pub slots : ℕ

pub new_service_engine : ServiceEngine
new_service_engine = record { running = []; next = []; slots = 0 }

abbrev pub or_false : Option Bool → Bool
or_false none = false
or_false (some b) = b

-- `e.next[id]`, the zero value where there is none.
abbrev pub or_never : Option ScheduledMonitor → ScheduledMonitor
or_never none = record { revision = 0; at = 0 }
or_never (some due) = due

unfoldable pub acquire : ℕ → ServiceEngine → ServiceEngine × Bool
acquire id e =
    if or_false (lookup id e.running)
    then (e, false)
    else if ltb e.slots max_slots
    then (record e { running = insert id true e.running; slots = e.slots + 1 }, true)
    else (e, false)

unfoldable pub unmark : ℕ → ServiceEngine → ServiceEngine
unmark id e = record e { running = erase id e.running }

unfoldable pub free_slot : ServiceEngine → ServiceEngine
free_slot e = record e { slots = e.slots - 1 }

-- `release` when no other call comes between.
unfoldable pub release : ℕ → ServiceEngine → ServiceEngine
unfolding unmark free_slot
release id e = free_slot (unmark id e)

-- `m.Enabled && !(due.revision == m.Revision && now.Before(due.at))`
abbrev pub is_due : ℕ → Monitor → ServiceEngine → Bool
is_due now m e =
    let due = or_never (lookup m.id e.next) in
    m.enabled && not (eqb due.revision m.revision && ltb now due.at)

-- One turn of the loop over the monitors, and whether it starts the check.
unfoldable pub visit : ℕ → Monitor → ServiceEngine → ServiceEngine × Bool
visit now m e =
    if is_due now m e
    then (let (held, free) = acquire m.id e in
        if free
        then (
          record held {
            next =
                insert m.id
                  (record { revision = m.revision; at = now + m.interval_seconds * 1_000_000_000 })
                  held.next;
          },
          true,
        )
        else (held, false))
    else (e, false)

abbrev pub started : Bool → Monitor → List Monitor → List Monitor
started b m l = if b then m ∷ l else l

unfoldable pub visit_all : ℕ → List Monitor → ServiceEngine → ServiceEngine × List Monitor
visit_all now [] e = (e, [])
visit_all now (m ∷ items) e =
    let (visited, b) = visit now m e in
    let (after, rest) = visit_all now items visited in (after, started b m rest)

abbrev pub is_known : List Monitor → ℕ → Bool
is_known [] id = false
is_known (m ∷ items) id = eqb m.id id || is_known items id

-- The loop that forgets the monitors that are gone.
unfoldable pub forget_gone : List Monitor → Table ℕ ScheduledMonitor → Table ℕ ScheduledMonitor
forget_gone items [] = []
forget_gone items ((id, due) ∷ rest) =
    let rest' = forget_gone items rest in if is_known items id then (id, due) ∷ rest' else rest'

-- `items` is none when the database fails.
unfoldable pub schedule : ℕ → Option (List Monitor) → ServiceEngine → ServiceEngine × List Monitor
schedule now none e = (e, [])
schedule now (some items) e =
    let (after, checks) = visit_all now items e in
    (record after { next = forget_gone items after.next }, checks)
