-- ===== src/Github/Events.antt =====
-- The calls of the GitHub login in any order, and the histories they make.
use dingzi.Base.{
  ℕ, ◌+◌, ◌-◌, ◌<◌, ◌≡◌, ◌⊎◌, inl, inr, Option, none, some, List, [], ◌∷◌, String, Occurs, text_key,
  ℤ, Bool,
}
use dingzi.Sessions.{SessionStore}
use dingzi.Web.{Url, HttpRequest}
use dingzi.Github.{GithubAuth, GithubConfig, GithubPending, issue, github_state_ttl}
use dingzi.Github.Config.{new_github_auth, built}
use dingzi.Github.Callback.{Reply, Work, begin_callback, end_callback}

-- The arguments of a call of `issue`.
pub record Issued : Type 0 where
  pub browser : String
  pub state : String
  pub verifier : String
  pub now : ℕ

pub data Event : Type 0 where
  starts : Issued → Event
  begins : HttpRequest → ℕ → Event
  ends : HttpRequest → Option ℤ → Option String → ℕ → ℕ → SessionStore → Event

abbrev pub logged : Event → List Issued → List Issued
logged (starts i) log = i ∷ log
logged (begins r now) log = log
logged (ends r answer tok done now s) log = log

abbrev pub github_or : GithubAuth → Option GithubAuth → GithubAuth
github_or g none = g
github_or g (some other) = other

abbrev pub slots_of : (Reply ⊎ Work) → ℕ
slots_of (inl reply) = 0
slots_of (inr work) = 1

-- Only a callback that is between its steps can end.
abbrev pub Can : Event → ℕ → Type 0
Can (starts i) n = Unit
Can (begins r now) n = Unit
Can (ends r answer tok done now s) n = 0 < n

-- A pending login stems from a start.
pub record StemsFrom (sha256 : String → String) (log : List Issued) (state : String)
    (p : GithubPending) : Type 0 where
  pub source : Issued
  pub is_logged : Occurs source log
  pub same_state : source.state ≡ state
  pub same_browser : p.browser_hash ≡ sha256 source.browser
  pub same_verifier : p.verifier ≡ source.verifier
  pub expiry : p.expires ≡ source.now + github_state_ttl

module _ (sha256 encode : String → String) (len : String → ℕ) where
  unfoldable pub step : GithubAuth → Event → GithubAuth
  step g (starts i) = (issue sha256 encode i.browser i.state i.verifier i.now g).0
  step g (begins r now) = (begin_callback sha256 len r now g).0
  step g (ends r answer tok done now s) =
      github_or g (end_callback r answer tok done now g s).0.github

  -- The callbacks between their steps.
  abbrev pub working : GithubAuth → Event → ℕ → ℕ
  working g (starts i) n = n
  working g (begins r now) n = slots_of (begin_callback sha256 len r now g).1 + n
  working g (ends r answer tok done now s) n = n - 1

  unfoldable pub run : GithubAuth → List Event → GithubAuth
  run g [] = g
  run g (e ∷ events) = run (step g e) events

  -- The histories of a login that was built from a configuration, with what was started and the
  -- number of callbacks between their steps.
  module _ (trim : String → String) (parse : String → Option Url) where
    pub data Reachable : List Issued → ℕ → GithubAuth → Type 0 where
      start :
          (cfg : GithubConfig) (secure_cookie : Bool) (g : GithubAuth)
          → new_github_auth trim parse (some cfg) secure_cookie ≡ built g
          → Reachable [] 0 g
      next :
          {log : List Issued} {n : ℕ} {g : GithubAuth}
          → Reachable log n g
          → (e : Event) → Can e n
          → Reachable (logged e log) (working g e n) (step g e)
