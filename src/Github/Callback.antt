-- ===== src/Github/Callback.antt =====
-- internal/server/github.go: githubRequest and the two handlers. `len` is Go's length in bytes. An
-- answer of `failed` is the redirect to the login page with that reason. The end of the handler takes
-- the result of its requests to GitHub, the minted token and the clock of `issue` as arguments.
use dingzi.Base.{
  ℕ, suc, ◌-◌, Bool, false, not, ◌||◌, ◌⊎◌, inl, inr, Option, none, some, List, [], ◌∷◌, String,
  ltb, if◌then◌else◌, text_key, int_key, ◌==◌, ℤ,
}
use dingzi.Base.Table.{Table, lookup}
use dingzi.Sessions
use dingzi.Sessions.{SessionStore, throttle, revoke}
use dingzi.Web.{Url, HttpRequest, same_origin, client_ip}
use dingzi.Github.{GithubAuth, GithubPending, issue, take, max_inflight}

pub record Panel : Type 0 where
  pub github : Option GithubAuth
  pub sessions : SessionStore

pub data Reply : Type 0 where
  not_found wrong_method wrong_host wrong_origin too_many_requests failed denied : Reply
  -- The address and its parameters, and the cookie for the browser.
  authorize : String → List (String × String) → String → Reply
  -- The session cookie.
  welcome : String → Reply

abbrev pub or_empty : Option String → String
or_empty none = ""
or_empty (some text) = text

abbrev pub or_false : Option Bool → Bool
or_false none = false
or_false (some b) = b

unfoldable pub github_request : HttpRequest → Option GithubAuth → Reply ⊎ GithubAuth
github_request r none = inl not_found
github_request r (some g) =
    if not (r.method == "GET")
    then inl wrong_method
    else (if r.host == g.callback_host then inr g else inl wrong_host)

module _ (parse : String → Option Url) (split_host_port : String → Option String)
    (sha256 encode : String → String) where
  unfoldable pub handle_github_start :
      HttpRequest → String → String → String → ℕ → ℕ → Panel → Panel × Reply
  handle_github_start r browser state verifier now later p = elim (github_request r p.github) [
    | inl reply ↦ (p, reply)
    | inr g ↦
        if same_origin parse r
        then (let (tried, passes) = throttle (client_ip split_host_port r) now p.sessions in
            let (after, issued) = issue sha256 encode browser state verifier later g in
            if passes
            then (
              record { github = some after; sessions = tried },
              elim issued [
                | none ↦ too_many_requests
                | some (state', challenge) ↦
                    authorize g.authorize_url
                      (("client_id", g.config.client_id)
                        ∷ ("redirect_uri", g.config.callback_url)
                        ∷ ("state", state')
                        ∷ ("code_challenge", challenge)
                        ∷ ("code_challenge_method", "S256")
                        ∷ ("scope", "")
                        ∷ ("prompt", "select_account")
                        ∷ [])
                      browser
              ],
            )
            else (record p { sessions = tried }, too_many_requests))
        else (p, wrong_origin)
  ]

-- What a callback that has its slot asks GitHub: the code and the verifier.
pub record Work : Type 0 where
  pub code : String
  pub verifier : String

module _ (len : String → ℕ) where
  -- GitHub sent the browser back without a code.
  unfoldable pub is_refused : HttpRequest → String → Bool
  is_refused r code =
      not (or_empty (lookup "error" r.query) == "") || code == "" || ltb 4096 (len code)

  -- The part of the handler after the state is taken.
  unfoldable pub claim_slot : HttpRequest → GithubPending → GithubAuth → GithubAuth × (Reply ⊎ Work)
  claim_slot r pending g =
      let code = or_empty (lookup "code" r.query) in
      if is_refused r code
      then (g, inl failed)
      else (if ltb g.inflight max_inflight
          then (
            record g { inflight = suc g.inflight },
            inr (record { code = code; verifier = pending.verifier }),
          )
          else (g, inl failed))

module _ (sha256 : String → String) (len : String → ℕ) where
  -- The handler up to its requests.
  unfoldable pub begin_callback : HttpRequest → ℕ → GithubAuth → GithubAuth × (Reply ⊎ Work)
  begin_callback r now g = elim r.state_cookie [
    | none ↦ (g, inl failed)
    | some browser ↦
        let (taken, result) = take sha256 (or_empty (lookup "state" r.query)) browser now g in
        elim result [ none ↦ (taken, inl failed) | some pending ↦ claim_slot len r pending taken ]
  ]

-- The end of the handler over the sessions, for an id that is known.
unfoldable pub admit :
    Table ℤ Bool → HttpRequest → ℤ → Option String → ℕ → ℕ → SessionStore → SessionStore × Reply
admit allowed r id tok done now s =
    if or_false (lookup id allowed)
    then (let (after, minted) = Sessions.issue tok done now s in
        elim minted [
          | none ↦ (after, failed)
          | some token ↦ (
            elim r.session_cookie [ none ↦ after | some previous ↦ revoke previous after ],
            welcome token,
          )
        ])
    else (s, denied)

-- The handler once GitHub has answered; the slot is given back on every path.
unfoldable pub end_callback :
    HttpRequest → Option ℤ → Option String → ℕ → ℕ → GithubAuth → SessionStore → Panel × Reply
unfolding admit
end_callback r answer tok done now g s =
    let released = record g { inflight = g.inflight - 1 } in
    elim answer [
      | none ↦ (record { github = some released; sessions = s }, failed)
      | some id ↦
          let (after, reply) = admit g.allowed r id tok done now s in
          (record { github = some released; sessions = after }, reply)
    ]

module _ (sha256 : String → String) (len : String → ℕ) (ask : Work → GithubAuth → Option ℤ) where
  -- The whole handler when no other call comes between its steps; `ask` is userID.
  unfoldable pub handle_github_callback :
      HttpRequest → ℕ → Option String → ℕ → ℕ → Panel → Panel × Reply
  unfolding begin_callback end_callback
  handle_github_callback r now tok done later p = elim (github_request r p.github) [
    | inl reply ↦ (p, reply)
    | inr g ↦
        let (begun, result) = begin_callback sha256 len r now g in
        elim result [
          | inl reply ↦ (record p { github = some begun }, reply)
          | inr work ↦ end_callback r (ask work begun) tok done later begun p.sessions
        ]
  ]
