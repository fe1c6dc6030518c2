-- ===== src/Server.antt =====
-- internal/server/server.go: the parts of the panel that handlers change together, and the calls that
-- tie the fleet to the store. `marshal` and `unmarshal` are the JSON of a Host, `short` the first eight
-- bytes of a uuid, `blank` fills the ring of a machine that was loaded; `works` says whether SQLite
-- carries out the call. `told` lists the connections that were closed with a message.
pub mod Agents
pub mod Events
pub mod Credentials
pub mod Follow
pub mod Revoked
pub mod Admin
pub mod Plans
pub mod Patched
pub mod Patch
mod Tests
use dingzi.Base.{
  ℕ, ◌/◌, Bool, true, false, Option, none, some, List, [], ◌∷◌, String, if◌then◌else◌, eqb,
  text_key, ◌==◌,
}
use dingzi.Terminals.{TerminalRegistry}
use dingzi.Fleet.{Hub, Host, Machine, Sample, State, put, change, get, set_host}
use dingzi.Fleet.Reports.{push_sample}
use dingzi.Store.{
  Database, ServerRow, Hello, unix, affect_one, upsert, scan_machine, row_by_uuid, save_traffic,
  traffic_snapshot,
}
use dingzi.Store.Writer.{Writer, queue_sample}

pub record Server (Float : Type 0) : Type 0 where
  pub db : Database
  pub hub : Hub Float
  pub terminals : TerminalRegistry
  pub told : List ℕ

-- A sample on its way to the writer, type queued of store.go.
pub record Queued (Float : Type 0) : Type 0 where
  pub id : ℕ
  pub sample : Sample Float

module _ {Float : Type 0} where
  unfoldable pub persist_traffic : Bool → Server Float → Server Float
  persist_traffic works s = record s { db = save_traffic (traffic_snapshot s.hub) works s.db }

  unfoldable pub on_state :
      (ℕ → ℕ → ℕ)
      → Sample Float
      → ℕ
      → State Float
      → ℕ
      → Server Float
      → Writer (Queued Float)
      → Server Float × Writer (Queued Float)
  on_state quotient blank id st now s w =
      let (hub, pushed) = push_sample quotient blank id st now s.hub in
      (
        record s { hub = hub },
        elim pushed [
          | none ↦ w
          | some sample ↦ queue_sample (record { id = id; sample = sample }) w
        ],
      )

  unfoldable pub on_host_update : (Host → String) → ℕ → Host → Bool → Server Float → Server Float
  on_host_update marshal id host works s =
      let (hub, known) = set_host id host s.hub in
      if known
      then record s {
        hub = hub;
        db =
            if works
            then (affect_one id (λ row. record row { host = marshal host }) s.db).0
            else s.db;
      }
      else record s { hub = hub }

  module _ (marshal : Host → String) (unmarshal : String → Host) (short : String → String)
      (blank : Sample Float) where
    -- The id of the machine, none when the database fails: `works` is the upsert, `rereads` the query
    -- after it. Put returns a copy, whose first_seen and version are then set; its users read the id.
    unfoldable pub register : Hello → ℕ → Bool → Bool → Server Float → Server Float × Option ℕ
    register hello now works rereads s =
        if works
        then (let (db, id) = upsert marshal short hello (unix now) s.db in
            if rereads
            then elim (row_by_uuid hello.uuid db.servers) [
              | none ↦ (record s { db = db }, none)
              | some (found, row) ↦
                  let (hub, live) = put (scan_machine unmarshal blank found row) s.hub in
                  (record s { db = db; hub = hub }, some live.id)
            ]
            else (record s { db = db }, none))
        else (s, none)
