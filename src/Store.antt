-- ===== src/Store.antt =====
-- internal/server/store.go and store_query.go: the tables of machines and of agent credentials. A row
-- is keyed by its id, which SQLite counts up, a credential by the uuid of its agent. Columns of time
-- are Unix seconds; instants in memory are nanoseconds since the zero Time, as in Calendar. `works` says whether SQLite carries out the call, which is then one transaction;
-- `marshal` and `unmarshal` are the JSON of a Host.
pub mod Rows
pub mod History
pub mod RoundTrip
pub mod Writer
mod Tests
use dingzi.Base.{
  ℕ, ◌+◌, ◌*◌, ◌/◌, Bool, true, false, Option, none, some, List, [], ◌∷◌, String, ltb, eqb,
  if◌then◌else◌, number_key, text_key, ◌==◌, map, ◌-◌, ℤ, pos, negsuc, is_positive,
}
use dingzi.Base.Table.{Table, lookup, erase, insert}
use dingzi.Ring.{new_ring}
use dingzi.Sessions.{second}
use dingzi.Traffic.{Traffic, sqlite_counter}
use dingzi.Fleet.{Host, Machine, Sample, Hub}

-- The seconds from the zero Time to 1 January 1970.
abbrev pub epoch : ℕ
epoch = 62_135_596_800

-- Time.Unix, which rounds down.
unfoldable pub unix : ℕ → ℤ
unix at =
    let seconds = at / second in
    if ltb seconds epoch then negsuc (epoch - seconds - 1) else pos (seconds - epoch)

-- time.Unix of whole seconds, from the zero Time on.
unfoldable pub from_unix : ℤ → ℕ
from_unix (pos n) = (epoch + n) * second
from_unix (negsuc n) = (epoch - (n + 1)) * second

-- The column of a cycle's start, 0 for the zero Time.
unfoldable pub cycle_column : ℕ → ℤ
unfolding unix
cycle_column at = if eqb at 0 then pos 0 else unix at

-- `if cycle > 0`
unfoldable pub read_cycle : ℤ → ℕ
unfolding from_unix
read_cycle cycle = if is_positive cycle then from_unix cycle else 0

pub record ServerRow : Type 0 where
  pub uuid : String
  pub name : String
  pub host : String
  pub version : String
  pub first_seen : ℤ
  pub last_seen : ℤ
  pub cycle_start : ℤ
  pub in_bytes : ℕ
  pub out_bytes : ℕ
  pub quota : ℕ
  pub reset_day : ℕ
  pub count_mode : String
  pub last_raw_in : ℕ
  pub last_raw_out : ℕ
  pub has_raw : Bool

pub record Credential : Type 0 where
  pub token_hash : String
  pub revoked : Bool

pub record Database : Type 0 where
  pub servers : Table ℕ ServerRow
  pub next_id : ℕ
  pub credentials : Table String Credential

pub record Hello : Type 0 where
  pub uuid : String
  pub name : String
  pub host : Host
  pub version : String

-- `SELECT … FROM servers WHERE uuid = ?`
unfoldable pub row_by_uuid : String → Table ℕ ServerRow → Option (ℕ × ServerRow)
row_by_uuid uuid [] = none
row_by_uuid uuid ((id, row) ∷ rows) =
    let rest = row_by_uuid uuid rows in if row.uuid == uuid then some (id, row) else rest

-- `UPDATE servers SET … WHERE id = ?`, and whether a row was affected.
unfoldable pub affect_one : ℕ → (ServerRow → ServerRow) → Database → Database × Bool
affect_one id set_ db = elim (lookup id db.servers) [
  | none ↦ (db, false)
  | some row ↦ (record db { servers = insert id (set_ row) db.servers }, true)
]

-- The name of a machine that reports for the first time; `short` are the first eight bytes of its uuid.
abbrev pub first_name : (String → String) → Hello → String
first_name short hello =
    if hello.name == ""
    then (if hello.host.hostname == "" then short hello.uuid else hello.host.hostname)
    else hello.name

module _ (marshal : Host → String) (short : String → String) where
  -- The columns that an insert leaves out have their defaults.
  abbrev pub new_row : Hello → ℤ → ServerRow
  new_row hello sec = record {
    uuid = hello.uuid;
    name = first_name short hello;
    host = marshal hello.host;
    version = hello.version;
    first_seen = sec;
    last_seen = sec;
    cycle_start = pos 0;
    in_bytes = 0;
    out_bytes = 0;
    quota = 0;
    reset_day = 1;
    count_mode = "sum";
    last_raw_in = 0;
    last_raw_out = 0;
    has_raw = false;
  }

  -- The upsert of `Register`, with the id of the row.
  unfoldable pub upsert : Hello → ℤ → Database → Database × ℕ
  upsert hello sec db = elim (row_by_uuid hello.uuid db.servers) [
    | none ↦ (
      record db {
        servers = insert db.next_id (new_row hello sec) db.servers;
        next_id = db.next_id + 1;
      },
      db.next_id,
    )
    | some (id, row) ↦ (
      record db {
        servers =
            insert id
              (record row { host = marshal hello.host; version = hello.version; last_seen = sec })
              db.servers;
      },
      id,
    )
  ]

unfoldable pub delete_machine : ℕ → Bool → Database → Database × Bool
delete_machine id works db = elim (lookup id db.servers) [
  | none ↦ (db, false)
  | some row ↦
      if works
      then (
        record db {
          servers = erase id db.servers;
          credentials =
              insert row.uuid
                (elim (lookup row.uuid db.credentials) [
                  | none ↦ record { token_hash = ""; revoked = true }
                  | some held ↦ record held { revoked = true }
                ])
                db.credentials;
        },
        true,
      )
      else (db, false)
]

pub record TrafficSnapshot : Type 0 where
  pub traffic : Traffic
  pub last_seen : ℕ

-- Hub.TrafficSnapshot of hub.go: the loop over the ids and what their pointers lead to.
unfoldable pub snapshot_from : {Float : Type 0} → Table ℕ ℕ → Hub Float → Table ℕ TrafficSnapshot
snapshot_from [] h = []
snapshot_from ((id, p) ∷ ids) h =
    let rest = snapshot_from ids h in
    elim (lookup p h.cells) [
      | none ↦ rest
      | some m ↦ (id, record { traffic = m.traffic; last_seen = m.last_seen }) ∷ rest
    ]

unfoldable pub traffic_snapshot : {Float : Type 0} → Hub Float → Table ℕ TrafficSnapshot
unfolding snapshot_from
traffic_snapshot h = snapshot_from h.by_id h

-- The columns that SaveTraffic writes.
abbrev pub save_row : TrafficSnapshot → ServerRow → ServerRow
save_row snap row = record row {
  cycle_start = cycle_column snap.traffic.cycle_start;
  in_bytes = sqlite_counter snap.traffic.in_bytes;
  out_bytes = sqlite_counter snap.traffic.out_bytes;
  last_seen = unix snap.last_seen;
  last_raw_in = sqlite_counter snap.traffic.last_raw_in;
  last_raw_out = sqlite_counter snap.traffic.last_raw_out;
  has_raw = snap.traffic.has_raw;
}

-- The loop of SaveTraffic over the snapshot; an id without a row is passed over.
unfoldable pub save_each : Table ℕ TrafficSnapshot → Database → Database
unfolding affect_one
save_each [] db = db
save_each ((id, t) ∷ snap) db = save_each snap (affect_one id (save_row t) db).0

unfoldable pub save_traffic : Table ℕ TrafficSnapshot → Bool → Database → Database
unfolding save_each
save_traffic snap works db = if works then save_each snap db else db

-- `blank` fills the ring of a machine that was loaded.
module _ {Float : Type 0} (unmarshal : String → Host) (blank : Sample Float) where
  unfoldable pub scan_machine : ℕ → ServerRow → Machine Float
  scan_machine id row = record {
    id = id;
    uuid = row.uuid;
    name = row.name;
    host = unmarshal row.host;
    version = row.version;
    first_seen = from_unix row.first_seen;
    last_seen = from_unix row.last_seen;
    conn = none;
    samples = new_ring blank;
    traffic = record {
      cycle_start = read_cycle row.cycle_start;
      in_bytes = row.in_bytes;
      out_bytes = row.out_bytes;
      last_raw_in = row.last_raw_in;
      last_raw_out = row.last_raw_out;
      has_raw = row.has_raw;
      quota = row.quota;
      reset_day = row.reset_day;
      count_mode = row.count_mode;
    };
  }

  unfoldable pub machines : Database → List (Machine Float)
  machines db = map (λ (id, row). scan_machine id row) db.servers
