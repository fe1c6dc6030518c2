-- ===== src/Server/Events.antt =====
-- The calls of the panel that reach the store or the fleet, in any order.
use dingzi.Base.{ℕ, Bool, Option, List, [], ◌∷◌, String, text_key, number_key, ℤ}
use dingzi.Fleet.{Host, Sample, detach}
use dingzi.Server.{Server, persist_traffic, on_host_update}
use dingzi.Server.Agents.{Codec, AgentRequest, Frame, Works, serve_agent}
use dingzi.Server.Admin.{PatchBody, handle_patch_server, handle_delete_server}

-- The calls that reach the store or the fleet.
pub data Event : Type 0 where
  arrives : AgentRequest → Option Frame → ℕ → ℕ → Works → Event
  leaves : ℕ → ℕ → Event
  deletes : String → Bool → Event
  patches : String → Option PatchBody → ℕ → Bool → Event
  persists : Bool → Event
  host_updates : ℕ → Host → Bool → Event

-- The functions of other packages that the panel uses here.
pub record Library (Float : Type 0) : Type 0 where
  pub codec : Codec
  pub secret : String
  pub marshal : Host → String
  pub unmarshal : String → Host
  pub short : String → String
  pub blank : Sample Float
  pub parse_int : String → Option ℤ
  pub runes : String → ℕ
  pub trim_space : String → String

module _ {Float : Type 0} (l : Library Float) where
  -- An agent that connects, with the library's functions in place.
  abbrev pub serve :
      AgentRequest → Option Frame → ℕ → ℕ → Works → Server Float → Server Float × Option ℕ
  serve = serve_agent l.codec l.marshal l.unmarshal l.short l.blank l.secret

  unfoldable pub step : Server Float → Event → Server Float
  step s (arrives r frame conn now w) = (serve r frame conn now w s).0
  step s (leaves id conn) = record s { hub = detach id conn s.hub }
  step s (deletes text works) = (handle_delete_server l.parse_int text works s).0
  step s (patches text body now works) =
      (handle_patch_server l.runes l.trim_space l.blank l.parse_int text body now works s).0
  step s (persists works) = persist_traffic works s
  step s (host_updates id host works) = on_host_update l.marshal id host works s

  unfoldable pub run : Server Float → List Event → Server Float
  run s [] = s
  run s (e ∷ events) = run (step s e) events
