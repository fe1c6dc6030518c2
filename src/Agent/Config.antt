-- ===== src/Agent/Config.antt =====
-- internal/agent/config.go: how the configuration is put together, the identity that is minted where it
-- has none, and the file it is saved to. `getenv` is os.Getenv with the empty text where nothing is
-- set; yaml, strconv, the parser of base64 and the random texts are parameters. `temp` is the file
-- that Save writes first.
use dingzi.Base.{
  ◌&&◌, ℕ, Bool, true, false, not, ◌||◌, Option, none, some, List, [], ◌∷◌, String, if◌then◌else◌,
  text_key, ◌==◌, eqb,
}

pub record Config (Float : Type 0) : Type 0 where
  pub server : String
  pub secret : String
  pub token : String
  pub uuid : String
  pub name : String
  pub report_interval : Float
  pub mounts : List String
  pub ignore_interfaces : List String
  pub insecure_skip_verify : Bool
  pub allow_terminal : Bool
  pub path : String

-- Packages of others, and the numbers.
pub record Outside (Float : Type 0) : Type 0 where
  pub getenv : String → String
  pub parse_float : String → Option Float
  pub is_positive : Float → Bool
  pub zero : Float
  pub default_interval : Float
  pub equal_fold : String → String → Bool
  pub unmarshal : String → Config Float → Option (Config Float)
  pub marshal : Config Float → String
  pub decoded_length : String → Option ℕ

-- What os.ReadFile gives.
pub data FileRead : Type 0 where
  contents : String → FileRead
  not_exist : FileRead
  unreadable : FileRead

-- The calls of Save that may fail. That of chmod counts as done where chmod is not supported.
pub data Call : Type 0 where
  mkdir marshals create chmod write sync close rename : Call

pub record Disk : Type 0 where
  pub target : Option String
  pub temp : Option String

-- A text of the configuration under one that takes precedence where it is set.
unfoldable pub layer : String → String → String
layer v old = if v == "" then old else v

module _ {Float : Type 0} (x : Outside Float) where
  unfoldable pub is_yes : String → Bool → Bool
  is_yes v old = if v == "" then old else v == "1" || x.equal_fold v "true"

  unfoldable pub env_interval : String → Float → Float
  env_interval v old = elim (x.parse_float v) [
    | none ↦ old
    | some f ↦ if x.is_positive f then f else old
  ]

  unfoldable pub apply_env : Config Float → Config Float
  unfolding layer is_yes env_interval
  apply_env c = record c {
    server = layer (x.getenv "DINGZI_SERVER") c.server;
    secret = layer (x.getenv "DINGZI_SECRET") c.secret;
    name = layer (x.getenv "DINGZI_NAME") c.name;
    uuid = layer (x.getenv "DINGZI_UUID") c.uuid;
    report_interval =
        let v = x.getenv "DINGZI_REPORT_INTERVAL" in
        if v == "" then c.report_interval else env_interval v c.report_interval;
    insecure_skip_verify = is_yes (x.getenv "DINGZI_INSECURE_SKIP_VERIFY") c.insecure_skip_verify;
    allow_terminal = is_yes (x.getenv "DINGZI_ALLOW_TERMINAL") c.allow_terminal;
  }

  abbrev pub layer_list : List String → List String → List String
  layer_list [] old = old
  layer_list (v ∷ vs) old = v ∷ vs

  unfoldable pub apply_override : Config Float → Config Float → Config Float
  unfolding layer
  apply_override o c = record c {
    server = layer o.server c.server;
    secret = layer o.secret c.secret;
    name = layer o.name c.name;
    uuid = layer o.uuid c.uuid;
    report_interval =
        if x.is_positive o.report_interval then o.report_interval else c.report_interval;
    mounts = layer_list o.mounts c.mounts;
    ignore_interfaces = layer_list o.ignore_interfaces c.ignore_interfaces;
    insecure_skip_verify = o.insecure_skip_verify || c.insecure_skip_verify;
    allow_terminal = o.allow_terminal || c.allow_terminal;
  }

  abbrev pub default_config : String → Config Float
  default_config path = record {
    server = "";
    secret = "";
    token = "";
    uuid = "";
    name = "";
    report_interval = x.default_interval;
    mounts = [];
    ignore_interfaces = [];
    insecure_skip_verify = false;
    allow_terminal = false;
    path = path;
  }

  -- The configuration of the file.
  unfoldable pub read_config : String → FileRead → Option (Config Float)
  read_config path (contents text) =
      if path == "" then some (default_config path) else x.unmarshal text (default_config path)
  read_config path not_exist = some (default_config path)
  read_config path unreadable = if path == "" then some (default_config path) else none

  -- What stands in the configuration over that of the file.
  unfoldable pub settle : String → Config Float → Config Float → Config Float
  unfolding apply_env apply_override
  settle path override read =
      let c = apply_override override (apply_env (record read { path = path })) in
      record c {
        report_interval =
            if x.is_positive c.report_interval then c.report_interval else x.default_interval;
      }

  unfoldable pub load_config : String → Config Float → FileRead → Option (Config Float)
  unfolding read_config settle
  load_config path override file = elim (read_config path file) [
    | none ↦ none
    | some read ↦ some (settle path override read)
  ]

  -- Whether the file was replaced; the temporary file is removed on every way out.
  unfoldable pub save : (Call → Bool) → Config Float → Disk → Disk × Bool
  save works c disk =
      let gone = record disk { temp = none } in
      if c.path == "" || not (works mkdir) || not (works marshals) || not (works create)
      then (disk, false)
      else if not (works chmod)
          || not (works write)
          || not (works sync)
          || not (works close)
          || not (works rename)
      then (gone, false)
      else (record { target = some (x.marshal c); temp = none }, true)

  -- The configuration and the disk, whether the uuid is new, and whether there was no error.
  unfoldable pub ensure_uuid :
      String → (Call → Bool) → Config Float → Disk → Config Float × Disk × Bool × Bool
  ensure_uuid fresh works c disk =
      if not (c.uuid == "")
      then (c, disk, false, true)
      else let named = record c { uuid = fresh } in
        if c.path == ""
        then (named, disk, true, true)
        else let (after, done) = save works named disk in (named, after, true, done)

  -- `random` is none when the source of random bytes fails.
  unfoldable pub ensure_token :
      Option String → (Call → Bool) → Config Float → Disk → Config Float × Disk × Bool
  ensure_token random works c disk =
      if not (c.token == "")
      then (elim (x.decoded_length c.token) [
        | none ↦ (c, disk, false)
        | some n ↦ (c, disk, eqb n 32)
      ])
      else (elim random [
        | none ↦ (c, disk, false)
        | some token ↦
            let proved = record c { token = token } in
            if c.path == ""
            then (proved, disk, true)
            else let (after, done) = save works proved disk in (proved, after, done)
      ])

  -- The disk after the Save of cmd/agent/main.go, which comes after EnsureUUID and may fail.
  abbrev pub save_again : Bool → (Call → Bool) → Config Float → Disk → Disk
  save_again is_new works c disk =
      if is_new && not (c.path == "") then (save works c disk).0 else disk

  -- A start of the agent: EnsureUUID and Save in cmd/agent/main.go, then EnsureToken, with which Run of
  -- client.go begins. `works` is for the calls of Save in their order.
  unfoldable pub identify :
      String → Option String → (ℕ → Call → Bool) → Config Float → Disk → Config Float × Disk × Bool
  identify fresh random works c disk =
      let (named, disk', is_new, done) = ensure_uuid fresh (works 0) c disk in
      if done
      then ensure_token random (works 2) named (save_again is_new (works 1) named disk')
      else (named, disk', false)
