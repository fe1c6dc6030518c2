-- ===== src/Control/Monitors.antt =====
-- internal/server/monitors.go: validation, and the handlers that save and delete a monitor. `trim` is
-- strings.TrimSpace, `runes` and `len` count the runes and bytes of a text, `parse` is url.Parse,
-- `split_host_port` net.SplitHostPort, `atoi` strconv.Atoi and `contains_any` strings.ContainsAny. A
-- number of the form that is negative takes the same branch as 0.
use dingzi.Base.{
  ℕ, ◌+◌, ◌*◌, Bool, false, not, ◌||◌, ◌&&◌, Option, none, some, String, ltb, leb, eqb,
  if◌then◌else◌, length, number_key, text_key, ◌==◌, ℤ, pos, negsuc, is_some,
}
use dingzi.Base.Table.{lookup, insert}
use dingzi.Web.{Url}
use dingzi.Fleet.{Hub, Sample}
use dingzi.Fleet.Reports.{view}
use dingzi.Schedule.{Monitor}
use dingzi.Server.Admin.{Status, ok, bad_request, not_found, server_error, path_id}
use dingzi.Control.{Control, drop_results, forget_states, drop_monitor}

abbrev pub max_monitors : ℕ
max_monitors = 200

pub record Text : Type 0 where
  pub trim : String → String
  pub runes : String → ℕ
  pub len : String → ℕ
  pub parse : String → Option Url
  pub split_host_port : String → Option (String × String)
  pub atoi : String → Option ℤ
  pub contains_any : String → String → Bool

module _ (x : Text) where
  unfoldable pub valid_http_url : String → Bool → Bool
  valid_http_url raw https_only = elim (x.parse raw) [
    | none ↦ false
    | some u ↦
        not (u.hostname == "")
        && not u.has_user
        && u.fragment == ""
        && (u.scheme == "https" || (not https_only && u.scheme == "http"))
  ]

  abbrev pub is_port : Option ℤ → Bool
  is_port none = false
  is_port (some (pos n)) = not (ltb n 1 || ltb 65535 n)
  is_port (some (negsuc n)) = false

  -- The switch on the type.
  unfoldable pub is_target : String → String → Bool
  unfolding valid_http_url
  is_target type target =
      if type == "http"
      then valid_http_url target false
      else (if type == "tcp"
          then elim (x.split_host_port target) [
            | none ↦ false
            | some (host, port) ↦ not (host == "") && is_port (x.atoi port)
          ]
          else (if type == "ping" then not (x.contains_any target "/ \\?#\t\r\n") else false))

  -- The tests of `validate` in their order, on texts that are trimmed.
  unfoldable pub is_valid : Monitor → Bool
  unfolding is_target
  is_valid m =
      not (ltb (x.runes m.name) 1 || ltb 64 (x.runes m.name))
      && not (eqb m.server_id 0)
      && not (eqb (x.len m.target) 0 || ltb 2048 (x.len m.target))
      && not (ltb m.interval_seconds 10 || ltb 86400 m.interval_seconds)
      && not (
          ltb m.timeout_ms 100
          || ltb 60000 m.timeout_ms
          || ltb (m.interval_seconds * 1000) m.timeout_ms)
      && is_target m.type m.target

  unfoldable pub validate : Monitor → Option Monitor
  unfolding is_valid
  validate m =
      let trimmed = record m { name = x.trim m.name; target = x.trim m.target } in
      if is_valid trimmed then some trimmed else none

-- What the update of a monitor keeps of the row, and what it counts up.
abbrev pub revise : ℕ → Monitor → Monitor → Monitor
revise id m old = record m { id = id; revision = old.revision + 1 }

abbrev pub is_moved : Monitor → Monitor → Bool
is_moved old m =
    not (eqb old.server_id m.server_id) || not (old.target == m.target) || not (old.type == m.type)

module _ {Value : Type 0} where
  unfoldable pub add_monitor : Monitor → Control Value → Control Value
  add_monitor m c = record c {
    monitors = insert c.next_monitor (record m { id = c.next_monitor; revision = 1 }) c.monitors;
    next_monitor = c.next_monitor + 1;
  }

  unfoldable pub update_monitor : ℕ → Monitor → Monitor → Control Value → Control Value
  unfolding drop_results forget_states
  update_monitor id m old c =
      let updated = record c { monitors = insert id (revise id m old) c.monitors } in
      if is_moved old m
      then record updated {
        results = drop_results id c.results;
        states = forget_states id c.rules c.states;
      }
      else updated

  module _ {Float : Type 0} (x : Text) (blank : Sample Float) (parse_int : String → Option ℤ) where
    -- `post` says that the method is POST; `works` that the transaction commits.
    unfoldable pub handle_save_monitor :
        Bool
        → String
        → Option Monitor
        → ℕ
        → Bool
        → Hub Float
        → Control Value
        → Control Value × Status
    unfolding add_monitor update_monitor
    handle_save_monitor post text none now works hub c = (c, bad_request)
    handle_save_monitor post text (some form) now works hub c = elim (validate x form) [
      | none ↦ (c, bad_request)
      | some m ↦ elim (view blank m.server_id now hub) [
        | none ↦ (c, bad_request)
        | some v ↦
            if post
            then (if works
                then (if leb max_monitors (length c.monitors)
                    then (c, bad_request)
                    else (add_monitor m c, ok))
                else (c, server_error))
            else elim (path_id parse_int text) [
              | none ↦ (c, bad_request)
              | some id ↦
                  if works
                  then elim (lookup id c.monitors) [
                    | none ↦ (c, not_found)
                    | some old ↦ (update_monitor id m old c, ok)
                  ]
                  else (c, server_error)
            ]
      ]
    ]

  unfoldable pub handle_delete_monitor :
      (String → Option ℤ) → String → Bool → Control Value → Control Value × Status
  handle_delete_monitor parse_int text works c = elim (path_id parse_int text) [
    | none ↦ (c, bad_request)
    | some id ↦
        if works
        then (if is_some (lookup id c.monitors) then (drop_monitor id c, ok) else (c, not_found))
        else (c, server_error)
  ]
