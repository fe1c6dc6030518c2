-- ===== src/Sessions.antt =====
-- internal/server/auth.go: the login sessions and the throttle of password attempts.
-- Times are nanoseconds; `now` is the reading of the clock that the call makes. `done` names the
-- channel of a session, `ended` lists the channels that were closed, latest first. The minted token
-- is an argument of `issue`, none when rand.Read fails. A timer that fires calls `revoke`.
pub mod Oldest
pub mod Bounds
pub mod Validity
pub mod Throttle
pub mod History
pub mod Ends
pub mod Login
mod Tests
use dingzi.Base.{
  ℕ, ◌+◌, ◌*◌, Bool, true, false, not, ◌&&◌, ◌||◌, Option, none, some, List, [], ◌∷◌, String, ltb,
  leb, if◌then◌else◌, length, number_key, text_key, ◌==◌,
}
use dingzi.Base.Table.{Table, lookup, erase, insert}
use dingzi.Base.Table.Sweep.{sweep}

abbrev pub second : ℕ
second = 1_000_000_000

abbrev pub session_ttl : ℕ
session_ttl = 7 * 24 * 3600 * second

abbrev pub login_min_interval : ℕ
login_min_interval = second

abbrev pub hour : ℕ
hour = 3600 * second

abbrev pub max_sessions : ℕ
max_sessions = 256

abbrev pub max_tries : ℕ
max_tries = 1024

pub record LoginSession : Type 0 where
  pub expires : ℕ
  pub done : ℕ
  pub timer : Bool

pub record SessionStore : Type 0 where
  pub tokens : Table String LoginSession
  pub last_try : Table String ℕ
  pub ended : List ℕ

unfoldable pub new_session_store : SessionStore
new_session_store = record { tokens = []; last_try = []; ended = [] }

unfoldable pub revoke : String → SessionStore → SessionStore
revoke tok s = elim (lookup tok s.tokens) [
  | none ↦ s
  | some session ↦ record s { tokens = erase tok s.tokens; ended = session.done ∷ s.ended }
]

-- `!now.Before(session.expires)`
abbrev pub is_over : ℕ → LoginSession → Bool
is_over now session = not (ltb now session.expires)

-- The loop of `issue` that looks for the session to evict.
unfoldable pub oldest_from : Table String LoginSession → String → ℕ → String
oldest_from [] oldest expires = oldest
oldest_from ((token, session) ∷ rest) oldest expires =
    let older = oldest == "" || ltb session.expires expires in
    oldest_from rest (if older then token else oldest) (if older then session.expires else expires)

-- The loop of `issue` that revokes the sessions that are over.
unfoldable pub revoke_over : ℕ → Table String LoginSession → SessionStore → SessionStore
revoke_over now [] s = s
revoke_over now ((t, session) ∷ rest) s =
    revoke_over now rest (if is_over now session then revoke t s else s)

unfoldable pub evict : SessionStore → SessionStore
unfolding oldest_from
evict s = if leb max_sessions (length s.tokens) then revoke (oldest_from s.tokens "" 0) s else s

unfoldable pub sweep_sessions : ℕ → SessionStore → SessionStore
unfolding revoke_over
sweep_sessions now s = revoke_over now s.tokens s

unfoldable pub issue : Option String → ℕ → ℕ → SessionStore → SessionStore × Option String
issue none done now s = (s, none)
issue (some tok) done now s =
    let swept = sweep_sessions now (evict s) in
    (
      record swept {
        tokens =
            insert tok (record { expires = now + session_ttl; done = done; timer = false })
              swept.tokens;
        last_try = sweep (λ at. ltb (at + hour) now) swept.last_try;
      },
      some tok,
    )

unfoldable pub valid : String → ℕ → SessionStore → SessionStore × Bool
valid tok now s = if tok == "" then (s, false) else elim (lookup tok s.tokens) [
  | none ↦ (s, false)
  | some session ↦ if is_over now session then (revoke tok s, false) else (s, true)
]

-- `remaining <= 0` is `!now.Before(expires)`.
unfoldable pub session_done : String → ℕ → SessionStore → SessionStore × Option ℕ
session_done tok now s = elim (lookup tok s.tokens) [
  | none ↦ (s, none)
  | some session ↦ if is_over now session then (revoke tok s, none) else (
    record s { tokens = insert tok (record session { timer = true }) s.tokens },
    some session.done,
  )
]

-- The loop of `close` over the tokens.
unfoldable pub close_from : Table String LoginSession → SessionStore → SessionStore
close_from [] s = s
close_from ((tok, session) ∷ rest) s = close_from rest (revoke tok s)

unfoldable pub close : SessionStore → SessionStore
unfolding close_from
close s = close_from s.tokens s

-- The check and the update once a full table has been swept.
unfoldable pub record_try : String → ℕ → SessionStore → SessionStore × Bool
record_try ip now s =
    let pass : SessionStore × Bool = (record s { last_try = insert ip now s.last_try }, true) in
    elim (lookup ip s.last_try) [
      | none ↦ pass
      | some last ↦ if ltb now (last + login_min_interval) then (s, false) else pass
    ]

unfoldable pub throttle : String → ℕ → SessionStore → SessionStore × Bool
unfolding record_try
throttle ip now s =
    if leb max_tries (length s.last_try)
    then (let swept = record s {
      last_try = sweep (λ at. leb (at + login_min_interval) now) s.last_try;
    } in
        if leb max_tries (length swept.last_try) then (swept, false) else record_try ip now swept)
    else record_try ip now s
