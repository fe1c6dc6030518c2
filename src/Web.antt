-- ===== src/Web.antt =====
-- internal/server/auth.go: the guards that the handlers share, over the login sessions. A header that
-- is absent reads as the empty text, as http.Header.Get gives it. `parse` is url.Parse,
-- `split_host_port` the host of net.SplitHostPort; `now` is the reading of the clock.
pub mod Guards
mod Tests
use dingzi.Base.{
  ℕ, Bool, true, false, ◌&&◌, ◌||◌, Option, none, some, String, if◌then◌else◌, text_key, ◌==◌,
}
use dingzi.Base.Table.{Table}
use dingzi.Sessions.{SessionStore, valid, revoke}

pub record Url : Type 0 where
  pub scheme : String
  pub has_user : Bool
  pub host : String
  pub hostname : String
  pub path : String
  pub raw_path : String
  pub raw_query : String
  pub force_query : Bool
  pub fragment : String

-- The parts of http.Request that the handlers read; `query` holds the parameters of the address.
pub record HttpRequest : Type 0 where
  pub method : String
  pub host : String
  pub remote_addr : String
  pub sec_fetch_site : String
  pub origin : String
  pub session_cookie : Option String
  pub state_cookie : Option String
  pub query : Table String String

module _ (parse : String → Option Url) where
  unfoldable pub same_origin : HttpRequest → Bool
  same_origin r =
      if r.sec_fetch_site == "cross-site"
      then false
      else (if r.origin == "" then true else elim (parse r.origin) [
        | none ↦ false
        | some u ↦ (u.scheme == "http" || u.scheme == "https") && (u.host == r.host)
      ])

unfoldable pub client_ip : (String → Option String) → HttpRequest → String
client_ip split_host_port r = elim (split_host_port r.remote_addr) [
  | none ↦ r.remote_addr
  | some host ↦ host
]

unfoldable pub authed : HttpRequest → ℕ → SessionStore → SessionStore × Bool
authed r now s = elim r.session_cookie [ none ↦ (s, false) | some tok ↦ valid tok now s ]

pub data Gate : Type 0 where
  wrong_origin unauthorized passed : Gate

pub data LoggedOut : Type 0 where
  refused logged_out : LoggedOut

module _ (parse : String → Option Url) where
  -- `passed` stands for the call of the handler that is wrapped.
  unfoldable pub require_auth : HttpRequest → ℕ → SessionStore → SessionStore × Gate
  require_auth r now s =
      if same_origin parse r
      then (let (after, ok) = authed r now s in (after, if ok then passed else unauthorized))
      else (s, wrong_origin)

  unfoldable pub handle_logout : HttpRequest → SessionStore → SessionStore × LoggedOut
  handle_logout r s =
      if same_origin parse r
      then (elim r.session_cookie [ none ↦ s | some tok ↦ revoke tok s ], logged_out)
      else (s, refused)
