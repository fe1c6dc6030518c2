-- ===== src/Web/Tests.antt =====
-- Requests against the guards, and each theorem at a concrete input.
use dingzi.Base.{
  ◌≡◌, refl, Option, none, some, [], ◌∷◌, arith, text_key, true, false, ◌==◌, String, if◌then◌else◌,
}
use dingzi.Sessions.{SessionStore, valid, revoke}
use dingzi.Sessions.Bounds.{IsBounded}
use dingzi.Web.{
  Url, HttpRequest, same_origin, authed, require_auth, passed, unauthorized, wrong_origin,
}
use dingzi.Web.Guards.{Names, require_auth_iff}

abbrev parsed : String → Option Url
parsed text =
    if text == "https://panel.example"
    then some (record {
      scheme = "https";
      has_user = false;
      host = "panel.example";
      hostname = "panel.example";
      path = "";
      raw_path = "";
      raw_query = "";
      force_query = false;
      fragment = "";
    })
    else none

abbrev from_panel : HttpRequest
from_panel = record {
  method = "GET";
  host = "panel.example";
  remote_addr = "10.0.0.9:5000";
  sec_fetch_site = "same-origin";
  origin = "https://panel.example";
  session_cookie = some "b";
  state_cookie = none;
  query = [];
}

abbrev store : SessionStore
store = record {
  tokens = ("b", record { expires = 9; done = 1; timer = false }) ∷ [];
  last_try = [];
  ended = [];
}

store-IsBounded : IsBounded store
store-IsBounded = record {
  tokens_unique = (refl, tt);
  tokens_named = refl;
  tries_unique = tt;
  sessions_bounded = omega arith;
  tries_bounded = omega arith;
}

gates_run :
    ((require_auth parsed from_panel 8 store).1 ≡ passed)
    × ((require_auth parsed from_panel 9 store).1 ≡ unauthorized)
    × ((require_auth parsed (record from_panel { host = "other.example" }) 8 store).1
        ≡ wrong_origin)
unfolding require_auth same_origin authed valid revoke
gates_run = (refl, refl, refl)

require_auth_iff_example :
    let (after, gate) = require_auth parsed from_panel 8 store in
    (gate ≡ passed
      → (after ≡ store) × (same_origin parsed from_panel ≡ true) × Names from_panel 8 store)
    × (same_origin parsed from_panel ≡ true → Names from_panel 8 store → gate ≡ passed)
require_auth_iff_example = require_auth_iff parsed from_panel 8 store store-IsBounded
