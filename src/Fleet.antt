-- ===== src/Fleet.antt =====
-- internal/server/hub.go and internal/proto/metrics.go: the live fleet. A pointer to a machine is
-- an address in `cells`, which both maps of the hub share, so what one map's path changes the other
-- sees. A connection is known by a number; `closed` lists those that Attach closed. Times are
-- nanoseconds. Float is float64, which the hub only copies; `quotient` is the division of `rate`.
pub mod Coherence
pub mod Moves
pub mod Reports
pub mod Live
pub mod Order
pub mod History
pub mod Examples
mod Tests
use dingzi.Base.{
  ℕ, ◌+◌, ◌-◌, ◌*◌, ◌/◌, ◌%◌, ◌^◌, Bool, true, false, not, ◌&&◌, ◌||◌, Option, none, some, List, [],
  ◌∷◌, String, ltb, leb, eqb, if◌then◌else◌, is_some, number_key, text_key, ◌==◌,
}
use dingzi.Base.Table.{Table, lookup, erase, insert}
use dingzi.Ring.{Ring, new_ring, push, snapshot, latest}
use dingzi.Traffic.{Traffic, accumulate}

pub record Host : Type 0 where
  pub platform : String
  pub platform_version : String
  pub os : String
  pub kernel : String
  pub arch : String
  pub virtualization : String
  pub hostname : String
  pub cpu_model : String
  pub cpu_cores : ℕ
  pub cpu_threads : ℕ
  pub mem_total : ℕ
  pub swap_total : ℕ
  pub disk_total : ℕ
  pub boot_time : ℕ
  pub gpus : List String
  pub terminal_enabled : Bool

pub record State (Float : Type 0) : Type 0 where
  pub agent_time_ms : ℕ
  pub cpu : Float
  pub mem_used : ℕ
  pub swap_used : ℕ
  pub disk_used : ℕ
  pub net_in_transfer : ℕ
  pub net_out_transfer : ℕ
  pub net_in_speed : ℕ
  pub net_out_speed : ℕ
  pub load1 : Float
  pub load5 : Float
  pub load15 : Float
  pub tcp_conns : ℕ
  pub udp_conns : ℕ
  pub processes : ℕ
  pub temperatures : Table String Float
  pub gpu_util : List Float

-- The clock of the agent against that of the panel.
pub data Skew : Type 0 where
  ahead behind : ℕ → Skew

pub record Sample (Float : Type 0) : Type 0 where
  pub at : ℕ
  pub skew_ms : Skew
  pub state : State Float
  pub net_in_speed : ℕ
  pub net_out_speed : ℕ
  pub mem_total : ℕ
  pub swap_total : ℕ
  pub disk_total : ℕ

pub record Machine (Float : Type 0) : Type 0 where
  pub id : ℕ
  pub uuid : String
  pub name : String
  pub host : Host
  pub version : String
  pub first_seen : ℕ
  pub last_seen : ℕ
  pub conn : Option ℕ
  pub samples : Ring (Sample Float)
  pub traffic : Traffic

pub record Hub (Float : Type 0) : Type 0 where
  pub cells : Table ℕ (Machine Float)
  pub next_cell : ℕ
  pub by_id : Table ℕ ℕ
  pub by_uuid : Table String ℕ
  pub sample_timeout : ℕ
  pub closed : List ℕ

pub record MachineView (Float : Type 0) : Type 0 where
  pub machine : Machine Float
  pub online : Bool
  pub recent : Option (Sample Float)

abbrev pub stale_after : ℕ
stale_after = 30 * 1_000_000_000

-- Attach closes the connection it replaces, unless it is the same.
abbrev pub replaced : ℕ → Option ℕ → List ℕ → List ℕ
replaced c none closed = closed
replaced c (some old) closed = if old == c then closed else old ∷ closed

module _ {Float : Type 0} where
  unfoldable pub new_hub : Hub Float
  new_hub = record {
    cells = [];
    next_cell = 0;
    by_id = [];
    by_uuid = [];
    sample_timeout = stale_after;
    closed = [];
  }

  -- `h.byID[m.ID] = m; h.byUUID[m.UUID] = m` for a machine that is new in memory.
  unfoldable pub install : Machine Float → Hub Float → Hub Float
  install m h = record h {
    cells = insert h.next_cell m h.cells;
    next_cell = h.next_cell + 1;
    by_id = insert m.id h.next_cell h.by_id;
    by_uuid = insert m.uuid h.next_cell h.by_uuid;
  }

  unfoldable pub load : List (Machine Float) → Hub Float → Hub Float
  load [] h = h
  load (m ∷ machines) h = load machines (install m h)

  -- The machine that a pointer found in a map leads to.
  abbrev pub deref : Hub Float → Option ℕ → Option (Machine Float)
  deref h none = none
  deref h (some p) = lookup p h.cells

  unfoldable pub get : ℕ → Hub Float → Option (Machine Float)
  get id h = deref h (lookup id h.by_id)

  unfoldable pub get_by_uuid : String → Hub Float → Option (Machine Float)
  get_by_uuid uuid h = deref h (lookup uuid h.by_uuid)

  -- A machine found by its id is changed in place.
  unfoldable pub change : ℕ → (Machine Float → Machine Float) → Hub Float → Hub Float
  change id f h = elim (lookup id h.by_id) [
    | none ↦ h
    | some p ↦ elim (lookup p h.cells) [
      | none ↦ h
      | some m ↦ record h { cells = insert p (f m) h.cells }
    ]
  ]

  abbrev pub refresh : Machine Float → Machine Float → Machine Float
  refresh m existing = record existing { name = m.name; host = m.host; version = m.version }

  unfoldable pub put : Machine Float → Hub Float → Hub Float × Machine Float
  unfolding get change install
  put m h = elim (get m.id h) [
    | some existing ↦ (change m.id (refresh m) h, refresh m existing)
    | none ↦ (install m h, m)
  ]

  unfoldable pub attach : ℕ → ℕ → ℕ → Hub Float → Hub Float
  unfolding get change
  attach id c now h = elim (get id h) [
    | none ↦ h
    | some m ↦
        (let after = change id (λ x. record x { conn = some c; last_seen = now }) h in
          record after { closed = replaced c m.conn h.closed })
  ]

  unfoldable pub detach : ℕ → ℕ → Hub Float → Hub Float
  unfolding get change
  detach id c h = elim (get id h) [
    | none ↦ h
    | some m ↦ elim m.conn [
      | none ↦ h
      | some held ↦ if held == c then change id (λ x. record x { conn = none }) h else h
    ]
  ]

  unfoldable pub conn : ℕ → Hub Float → Option ℕ
  unfolding get
  conn id h = elim (get id h) [ none ↦ none | some m ↦ m.conn ]

  unfoldable pub remove : ℕ → Hub Float → Hub Float × Option ℕ
  unfolding get
  remove id h = elim (get id h) [
    | none ↦ (h, none)
    | some m ↦ (record h { by_id = erase id h.by_id; by_uuid = erase m.uuid h.by_uuid }, m.conn)
  ]

  unfoldable pub set_traffic : ℕ → (Traffic → Traffic) → Hub Float → Hub Float × Bool
  unfolding get change
  set_traffic id fn h = (change id (λ x. record x { traffic = fn x.traffic }) h, is_some (get id h))

  unfoldable pub rename : ℕ → String → Hub Float → Hub Float × Bool
  unfolding get change
  rename id name h = (change id (λ x. record x { name = name }) h, is_some (get id h))

  unfoldable pub set_host : ℕ → Host → Hub Float → Hub Float × Bool
  unfolding get change
  set_host id host h = (change id (λ x. record x { host = host }) h, is_some (get id h))
