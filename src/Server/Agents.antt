-- ===== src/Server/Agents.antt =====
-- internal/server/credentials.go and agentws.go: how an agent is admitted. The functions that the
-- packages uuid, strings, base64, sha256 and hex provide are fields of `Codec`.
use dingzi.Base.{
  ℕ, Bool, false, not, ◌&&◌, Option, none, some, List, String, if◌then◌else◌, eqb, length, text_key,
  ◌==◌,
}
use dingzi.Base.Table.{lookup, insert}
use dingzi.Fleet.{Host, Sample, attach}
use dingzi.Store.{Database, Credential, Hello}
use dingzi.Server.{Server, register}

pub record Codec : Type 0 where
  -- uuid.Parse succeeds
  pub is_uuid : String → Bool
  -- strings.TrimPrefix of "Bearer "
  pub trim_bearer : String → String
  pub decode_base64 : String → Option (List ℕ)
  pub sha256 : String → String
  pub hex : String → String

pub record AgentRequest : Type 0 where
  pub uuid : String
  pub authorization : String
  pub registration : String

-- The first frame of a connection; `payload` is none when it does not decode.
pub record Frame : Type 0 where
  pub type : String
  pub version : ℕ
  pub payload : Option Hello

abbrev pub protocol_version : ℕ
protocol_version = 1

abbrev pub or_not : Option Bool → Bool
or_not none = false
or_not (some b) = b

-- The frame is none when none arrives in time.
unfoldable pub handshake : Option Frame → Option Hello
handshake none = none
handshake (some frame) =
    if frame.type == "hello"
    then elim frame.payload [
      | none ↦ none
      | some hello ↦
          if hello.uuid == ""
          then none
          else (if eqb frame.version protocol_version then some hello else none)
    ]
    else none

module _ (c : Codec) where
  unfoldable pub credential_hash : String → String
  credential_hash token = c.hex (c.sha256 token)

  abbrev pub token_of : AgentRequest → String
  token_of r = c.trim_bearer r.authorization

  -- `!revoked && subtle.ConstantTimeCompare(…) == 1`
  abbrev pub is_held_by : String → Credential → Bool
  is_held_by token held = not held.revoked && held.token_hash == credential_hash token

  unfoldable pub auth_agent : String → AgentRequest → Bool → Database → Bool
  auth_agent secret r reads db =
      if c.is_uuid r.uuid
      then elim (c.decode_base64 (token_of r)) [
        | none ↦ false
        | some raw ↦
            if eqb (length raw) 32 && reads
            then elim (lookup r.uuid db.credentials) [
              | some held ↦ is_held_by (token_of r) held
              | none ↦ not (secret == "") && r.registration == secret
            ]
            else false
      ]
      else false

  -- INSERT … ON CONFLICT(uuid) DO NOTHING
  unfoldable pub insert_credential : String → String → Database → Database
  insert_credential uuid token db = elim (lookup uuid db.credentials) [
    | some held ↦ db
    | none ↦ record db {
      credentials =
          insert uuid (record { token_hash = credential_hash token; revoked = false })
            db.credentials;
    }
  ]

  -- `inserts` and `reads` say whether the two statements work.
  unfoldable pub bind_credential : String → String → Bool → Bool → Database → Database × Bool
  unfolding insert_credential
  bind_credential uuid token inserts reads db =
      if inserts
      then (let bound = insert_credential uuid token db in
          if reads
          then elim (lookup uuid bound.credentials) [
            | none ↦ (bound, false)
            | some held ↦ (bound, is_held_by token held)
          ]
          else (bound, false))
      else (db, false)

-- Which of the database calls and of the frames of an admission work.
pub record Works : Type 0 where
  pub reads : Bool
  pub binds : Bool
  pub rereads : Bool
  pub registers : Bool
  pub reloads : Bool
  pub welcomes : Bool

module _ {Float : Type 0} (c : Codec) (marshal : Host → String) (unmarshal : String → Host)
    (short : String → String) (blank : Sample Float) where
  -- The part of serveAgent under `identityMu`, with the id of the machine that was attached.
  unfoldable pub admit_hello :
      AgentRequest → Hello → ℕ → ℕ → Works → Server Float → Server Float × Option ℕ
  admit_hello r hello conn now w s =
      let (db, bound) = bind_credential c hello.uuid (token_of c r) w.binds w.rereads s.db in
      let opened = record s { db = db } in
      if bound
      then (let (known, registered) =
            register marshal unmarshal short blank hello now w.registers w.reloads opened in
          elim registered [
            | none ↦ (known, none)
            | some id ↦
                if w.welcomes
                then (record known { hub = attach id conn now known.hub }, some id)
                else (known, none)
          ])
      else (opened, none)

  unfoldable pub serve_agent :
      String → AgentRequest → Option Frame → ℕ → ℕ → Works → Server Float → Server Float × Option ℕ
  unfolding admit_hello
  serve_agent secret r frame conn now w s =
      if auth_agent c secret r w.reads s.db
      then elim (handshake frame) [
        | none ↦ (s, none)
        | some hello ↦ if hello.uuid == r.uuid then admit_hello r hello conn now w s else (s, none)
      ]
      else (s, none)
