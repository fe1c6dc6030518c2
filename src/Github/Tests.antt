-- ===== src/Github/Tests.antt =====
-- Logins from start to callback, and each theorem at a concrete input. Digests are the texts
-- themselves here.
use dingzi.Base.{
  ℕ, ◌+◌, ◌≤◌, ◌≡◌, ◌≢◌, ◌↔◌, refl, Option, none, some, List, [], ◌∷◌, text_key, true, false, ◌==◌,
  String, if◌then◌else◌, ℤ, pos, length,
}
use dingzi.Sessions
use dingzi.Sessions.{SessionStore, new_session_store, second}
use dingzi.Web.{Url, HttpRequest}
use dingzi.Github.{
  GithubAuth, GithubConfig, GithubPending, issue, take, is_foreign, github_state_ttl,
}
use dingzi.Github.Config.{new_github_auth, built, build, allow, scheme_refusal, start as start_auth}
use dingzi.Github.Accepted.{Accepted, new_github_auth_lem}
use dingzi.Github.Exchange.{ApiRequest, ApiResponse, read_json, body_limit}
use dingzi.Github.Answers.{sent, read_json_iff}
use dingzi.Github.Callback.{
  Panel, Work, welcome, handle_github_callback, begin_callback, claim_slot, is_refused,
  end_callback, admit, github_request,
}
use dingzi.Github.Events.{Issued, starts, step, run, Reachable, start, next}
use dingzi.Github.States.{IsBounded, Reachable-IsBounded_login}
use dingzi.Github.Once.{take_once}
use dingzi.Github.Logins.{LoggedIn, handle_github_callback_lem}

abbrev same : String → String
same text = text

abbrev no_length : String → ℕ
no_length text = 1

abbrev parsed : String → Option Url
parsed text = some (record {
  scheme = "https";
  has_user = false;
  host = "panel.example";
  hostname = "panel.example";
  path = "/auth/github/callback";
  raw_path = "";
  raw_query = "";
  force_query = false;
  fragment = "";
})

abbrev config : GithubConfig
config = record {
  client_id = "id";
  client_secret = "secret";
  callback_url = "https://panel.example/auth/github/callback";
  allowed_user_ids = pos 7 ∷ pos 9 ∷ [];
}

abbrev auth : GithubAuth
auth =
    start_auth config
      (record {
        scheme = "https";
        has_user = false;
        host = "panel.example";
        hostname = "panel.example";
        path = "/auth/github/callback";
        raw_path = "";
        raw_query = "";
        force_query = false;
        fragment = "";
      })
      ((pos 9, true) ∷ (pos 7, true) ∷ [])

auth_runs : new_github_auth same parsed (some config) true ≡ built auth
unfolding new_github_auth build allow scheme_refusal
auth_runs = refl

new_github_auth_lem_example : Accepted same parsed config true auth
new_github_auth_lem_example = new_github_auth_lem same parsed config true auth auth_runs

abbrev first : Issued
first = record { browser = "cookie"; state = "s1"; verifier = "v1"; now = 5 }

abbrev started : GithubAuth
started = step same same no_length auth (starts first)

started-Reachable : Reachable same same no_length same parsed (first ∷ []) 0 started
started-Reachable = next (start config true auth auth_runs) (starts first) tt

Reachable-IsBounded_login_example : IsBounded 0 started
Reachable-IsBounded_login_example =
    Reachable-IsBounded_login same same no_length same parsed started-Reachable

abbrev expected : GithubPending
expected = record { browser_hash = "cookie"; verifier = "v1"; expires = 5 + github_state_ttl }

taken_runs : (take same "s1" "cookie" 6 started).1 ≡ some expected
unfolding take is_foreign step issue
taken_runs = refl

-- Another browser is refused and the state stays.
stolen_runs : take same "s1" "other" 6 started ≡ (started, none)
unfolding take is_foreign step issue
stolen_runs = refl

abbrev second_start : Issued
second_start = record { browser = "cookie"; state = "s2"; verifier = "v2"; now = 7 }

take_once_example :
    let after =
      run same same no_length (take same "s1" "cookie" 6 started).0 (starts second_start ∷ []) in
    take same "s1" "cookie" 8 after ≡ (after, none)
take_once_example =
    take_once same same no_length "s1" "cookie" "cookie" 6 8 started expected
      (starts second_start ∷ []) taken_runs ((λ e. cc ((text_key.same_iff "s2" "s1").1 e)), tt)

abbrev callback : HttpRequest
callback = record {
  method = "GET";
  host = "panel.example";
  remote_addr = "10.0.0.9:5000";
  sec_fetch_site = "cross-site";
  origin = "";
  session_cookie = none;
  state_cookie = some "cookie";
  query = ("state", "s1") ∷ ("code", "c1") ∷ [];
}

abbrev ask : Work → GithubAuth → Option ℤ
ask work g = if work.verifier == "v1" then some (pos 7) else none

abbrev panel : Panel
panel = record { github = some started; sessions = new_session_store }

login_runs :
    (handle_github_callback same no_length ask callback 6 (some "token") 1 7 panel).1
    ≡ welcome "token"
unfolding handle_github_callback github_request begin_callback claim_slot is_refused end_callback
    admit take is_foreign step issue dingzi.Sessions.issue
login_runs = refl

handle_github_callback_lem_example :
    let (after, reply) =
      handle_github_callback same no_length ask callback 6 (some "token") 1 7 panel in
    ((t : String)
      → reply ≡ welcome t
      → LoggedIn same no_length ask callback 6 (some "token") 1 7 panel after t)
    × (((t : String) → reply ≢ welcome t) → after.sessions ≡ panel.sessions)
handle_github_callback_lem_example =
    handle_github_callback_lem same no_length ask callback 6 (some "token") 1 7 panel

abbrev answer : ApiRequest → Option ApiResponse
answer q = some (record { status = 200; body = some (1 ∷ 2 ∷ []) })

abbrev plain : ApiRequest
plain = record { method = "GET"; url = "https://api.github.com/user"; form = []; headers = [] }

abbrev decode : List ℕ → Option ℕ
decode bytes = some (length bytes)

read_json_iff_example : (read_json answer decode plain ≡ some 2) ↔ (
    (res : ApiResponse) × (body : List ℕ) × (answer (sent plain) ≡ some res)
    × (res.status ≡ 200)
    × (res.body ≡ some body)
    × (length body ≤ body_limit)
    × (decode body ≡ some 2))
read_json_iff_example = read_json_iff answer decode plain 2
