-- ===== src/Sessions/History.antt =====
-- Every history of calls of the store, as the login and channel handlers make them.
use dingzi.Base.{ℕ, ◌≡◌, ◌≢◌, Option, none, some, List, [], ◌∷◌, ◌++◌, String, arith, text_key}
use dingzi.Base.Table.{lookup}
use dingzi.Sessions.{
  SessionStore, new_session_store, revoke, issue, valid, session_done, close, throttle,
}
use dingzi.Sessions.Bounds.{
  IsBounded, new-IsBounded, revoke-IsBounded, issue-IsBounded, valid-IsBounded,
  session_done-IsBounded, close_from-IsBounded, throttle-IsBounded,
}

pub data Call : Type 0 where
  issues : Option String → ℕ → ℕ → Call
  checks : String → ℕ → Call
  revokes : String → Call
  binds : String → ℕ → Call
  closes : Call
  tries : String → ℕ → Call

unfoldable pub step : SessionStore → Call → SessionStore
step s (issues tok done now) = (issue tok done now s).0
step s (checks tok now) = (valid tok now s).0
step s (revokes tok) = revoke tok s
step s (binds tok now) = (session_done tok now s).0
step s closes = close s
step s (tries ip now) = (throttle ip now s).0

-- A minted token is 43 characters of base64 and not in use (32 random bytes).
abbrev pub Allowed : SessionStore → Call → Type 0
Allowed s (issues none done now) = Unit
Allowed s (issues (some tok) done now) = (tok ≢ "") × (lookup tok s.tokens ≡ none)
Allowed s (checks tok now) = Unit
Allowed s (revokes tok) = Unit
Allowed s (binds tok now) = Unit
Allowed s closes = Unit
Allowed s (tries ip now) = Unit

-- The channels of the sessions issued by a call.
abbrev pub minted : Call → List ℕ
minted (issues (some tok) done now) = done ∷ []
minted c = []

-- The histories in which sessions with these channels were issued.
pub data Reachable : List ℕ → SessionStore → Type 0 where
  start : Reachable [] new_session_store
  next :
      {issued : List ℕ} {s : SessionStore}
      → Reachable issued s
      → (c : Call) → Allowed s c
      → Reachable (minted c ++ issued) (step s c)

pub step-IsBounded :
    (s : SessionStore) (c : Call) → Allowed s c → IsBounded s → IsBounded (step s c)
unfolding step close
step-IsBounded s (issues none done now) a v =
    issue-IsBounded none done now s (λ e. absurd (ground arith)) v
step-IsBounded s (issues (some tok) done now) a v =
    issue-IsBounded (some tok) done now s (λ e. a.0 (ground arith)) v
step-IsBounded s (checks tok now) a v = valid-IsBounded tok now s v
step-IsBounded s (revokes tok) a v = revoke-IsBounded tok s v
step-IsBounded s (binds tok now) a v = session_done-IsBounded tok now s v
step-IsBounded s closes a v = close_from-IsBounded s.tokens s v
step-IsBounded s (tries ip now) a v = throttle-IsBounded ip now s v

-- After any history no token and no address is listed twice, the empty token has no session, and
-- there are at most 256 sessions and at most 1024 addresses of password attempts.
pub Reachable-IsBounded : {issued : List ℕ} {s : SessionStore} → Reachable issued s → IsBounded s
Reachable-IsBounded start = new-IsBounded
Reachable-IsBounded (next {s = before} r c a) = step-IsBounded before c a (Reachable-IsBounded r)

-- Several calls, the first of the list first.
unfoldable pub run : SessionStore → List Call → SessionStore
run s [] = s
run s (c ∷ calls) = run (step s c) calls
