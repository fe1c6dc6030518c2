-- ===== src/Server/Tests.antt =====
-- A machine that is patched and deleted, and each theorem at a concrete input.
use dingzi.Base.{
  ◌+◌, ◌*◌, ℕ, ◌≡◌, ◌≢◌, refl, Option, none, some, List, [], ◌∷◌, String, number_key, text_key,
  true, false, ℤ, pos, if◌then◌else◌, ◌==◌,
}
use dingzi.Base.Table.{lookup}
use dingzi.Terminals.{new_terminal_registry}
use dingzi.Fleet.{new_hub, install, put, get, change, attach, detach, remove}
use dingzi.Fleet.Coherence.{IsCoherent, new_hub-IsCoherent, install-IsCoherent}
use dingzi.Fleet.Examples.{some_host, blank, machine}
use dingzi.Store.{epoch, unix, ServerRow, upsert, row_by_uuid, scan_machine, delete_machine}
use dingzi.Store.Rows.{empty}
use dingzi.Sessions.{second}
use dingzi.Server.{Server, register}
use dingzi.Server.Agents.{
  Codec, AgentRequest, Frame, Works, credential_hash, token_of, auth_agent, handshake,
  bind_credential, insert_credential, admit_hello, serve_agent,
}
use dingzi.Server.Admin.{PatchBody, ok, path_id, handle_patch_server, handle_delete_server}
use dingzi.Server.Events.{Library, serve, run, step, leaves, persists}
use dingzi.Server.Revoked.{deleted_for_good, bound_for_good}
use dingzi.Server.Patch.{Accepted, handle_patch_server_lem}

abbrev same : String → String
same text = text

abbrev thirty_two : List ℕ
thirty_two =
    0 ∷ 0 ∷ 0 ∷ 0 ∷ 0 ∷ 0 ∷ 0 ∷ 0 ∷ 0 ∷ 0 ∷ 0 ∷ 0 ∷ 0 ∷ 0 ∷ 0 ∷ 0 ∷ 0 ∷ 0 ∷ 0 ∷ 0 ∷ 0 ∷ 0 ∷ 0 ∷ 0
    ∷ 0 ∷ 0 ∷ 0 ∷ 0 ∷ 0 ∷ 0 ∷ 0 ∷ 0 ∷ []

abbrev codec : Codec
codec = record {
  is_uuid = λ text. true;
  trim_bearer = same;
  decode_base64 = λ text. some thirty_two;
  sha256 = same;
  hex = same;
}

abbrev one : String → Option ℤ
one text = if text == "1" then some (pos 1) else none

abbrev library : Library ℕ
library = record {
  codec = codec;
  secret = "shared";
  marshal = λ host. "{}";
  unmarshal = λ text. some_host;
  short = same;
  blank = blank;
  parse_int = one;
  runes = λ text. 3;
  trim_space = same;
}

abbrev request : AgentRequest
request = record { uuid = "a"; authorization = "token"; registration = "shared" }

abbrev hello : Frame
hello = record {
  type = "hello";
  version = 1;
  payload = some (record { uuid = "a"; name = "web"; host = some_host; version = "0.4" });
}

abbrev works : Works
works = record {
  reads = true;
  binds = true;
  rereads = true;
  registers = true;
  reloads = true;
  welcomes = true;
}

abbrev fresh : Server ℕ
fresh = record { db = empty; hub = new_hub; terminals = new_terminal_registry; told = [] }

abbrev arrival : ℕ
arrival = (epoch + 5) * second

abbrev joined : Server ℕ
joined = (serve library request (some hello) 7 arrival works fresh).0

joined_runs :
    ((serve library request (some hello) 7 arrival works fresh).1 ≡ some 1)
    × ((handle_delete_server one "1" true joined).1 ≡ ok)
unfolding serve_agent auth_agent handshake admit_hello bind_credential insert_credential
    credential_hash register upsert row_by_uuid put get change new_hub install empty scan_machine
    handle_delete_server delete_machine path_id remove
joined_runs = (refl, refl)

path_runs : path_id one "1" ≡ some 1
unfolding path_id
path_runs = refl

-- The row of the machine that joined.
abbrev joined_row : ServerRow
joined_row = record {
  uuid = "a";
  name = "web";
  host = "{}";
  version = "0.4";
  first_seen = pos 5;
  last_seen = pos 5;
  cycle_start = pos 0;
  in_bytes = 0;
  out_bytes = 0;
  quota = 0;
  reset_day = 1;
  count_mode = "sum";
  last_raw_in = 0;
  last_raw_out = 0;
  has_raw = false;
}

row_runs : lookup 1 joined.db.servers ≡ some joined_row
unfolding serve_agent auth_agent handshake admit_hello bind_credential insert_credential
    credential_hash register upsert row_by_uuid put get change new_hub install empty scan_machine
    unix
row_runs = refl

deleted_for_good_example :
    let later =
      run library (handle_delete_server one "1" true joined).0 (leaves 1 7 ∷ persists true ∷ []) in
    serve library request (some hello) 8 9 works later ≡ (later, none)
deleted_for_good_example =
    deleted_for_good library "1" true 1 joined_row joined (leaves 1 7 ∷ persists true ∷ []) request
      (some hello) 8 9 works path_runs row_runs joined_runs.1 refl

again_runs :
    (serve library request (some hello) 8 9 works (run library joined (leaves 1 7 ∷ []))).1 ≡ some 1
unfolding serve_agent auth_agent handshake admit_hello bind_credential insert_credential
    credential_hash register upsert row_by_uuid put get change new_hub install empty scan_machine
    run step detach attach
again_runs = refl

bound_for_good_example :
    credential_hash codec (token_of codec request) ≡ credential_hash codec (token_of codec request)
bound_for_good_example =
    bound_for_good library request request (some hello) (some hello) 7 8 arrival 9 1 1 works works
      fresh (leaves 1 7 ∷ []) joined_runs.0 refl again_runs

abbrev body : PatchBody
body = record { name = some "db"; quota = some 5; reset_day = some (pos 9); count_mode = none }

abbrev small : Server ℕ
small = record fresh {
  db = record { servers = (1, joined_row) ∷ []; next_id = 2; credentials = [] };
  hub = install (machine 1 "a") new_hub;
}

small-IsCoherent : IsCoherent small.hub
unfolding new_hub
small-IsCoherent = install-IsCoherent (machine 1 "a") new_hub new_hub-IsCoherent refl refl

handle_patch_server_lem_example :
    let (after, reply) =
      handle_patch_server (λ text. 2) same blank one "1" (some body) arrival true small in
    (reply ≡ ok
      → (id : ℕ) × (path_id one "1" ≡ some id)
        × Accepted (λ text. 2) same (some body) id arrival small after)
    × (reply ≢ ok → after ≡ small)
handle_patch_server_lem_example =
    handle_patch_server_lem (λ text. 2) same blank one "1" (some body) arrival true small
      small-IsCoherent
