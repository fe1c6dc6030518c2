-- ===== src/Github.antt =====
-- internal/server/github.go: login with GitHub over the login sessions. A digest is a text; `sha256`
-- is sha256.Sum256 and `encode` base64.RawURLEncoding. Random texts, the clock and the answers of
-- GitHub are arguments. A callback has two steps, before and after its requests to GitHub: other
-- calls may come between them, and `inflight` counts the callbacks that are between.
pub mod Exchange
pub mod Answers
pub mod Config
pub mod Accepted
pub mod Callback
pub mod Events
pub mod States
pub mod Single
pub mod Once
pub mod Admitted
pub mod Logins
mod Tests
use dingzi.Base.{
  ℕ, ◌+◌, ◌*◌, Bool, true, false, not, ◌&&◌, ◌||◌, Option, none, some, List, [], ◌∷◌, String, ltb,
  leb, if◌then◌else◌, length, text_key, ◌==◌, ℤ,
}
use dingzi.Base.Table.{Table, lookup, erase, insert}
use dingzi.Base.Table.Sweep.{sweep}
use dingzi.Sessions.{second}

abbrev pub github_callback_path : String
github_callback_path = "/auth/github/callback"

abbrev pub github_state_ttl : ℕ
github_state_ttl = 5 * 60 * second

abbrev pub github_max_pending : ℕ
github_max_pending = 256

abbrev pub max_inflight : ℕ
max_inflight = 16

pub record GithubConfig : Type 0 where
  pub client_id : String
  pub client_secret : String
  pub callback_url : String
  pub allowed_user_ids : List ℤ

pub record GithubPending : Type 0 where
  pub browser_hash : String
  pub verifier : String
  pub expires : ℕ

pub record GithubAuth : Type 0 where
  pub config : GithubConfig
  pub callback_host : String
  pub allowed : Table ℤ Bool
  pub authorize_url : String
  pub token_url : String
  pub user_url : String
  pub pending : Table String GithubPending
  pub inflight : ℕ

-- `!now.Before(p.expires)`
abbrev pub is_expired : ℕ → GithubPending → Bool
is_expired now p = not (ltb now p.expires)

module _ (sha256 : String → String) where
  module _ (encode : String → String) where
    -- `state` and `verifier` are the random texts.
    unfoldable pub issue :
        String → String → String → ℕ → GithubAuth → GithubAuth × Option (String × String)
    issue browser state verifier now g =
        let swept = sweep (is_expired now) g.pending in
        if leb github_max_pending (length swept) then (record g { pending = swept }, none) else (
          record g {
            pending =
                insert state
                  (record {
                    browser_hash = sha256 browser;
                    verifier = verifier;
                    expires = now + github_state_ttl;
                  })
                  swept;
          },
          some (state, encode (sha256 verifier)),
        )

  -- The request is not from the browser that started the login.
  unfoldable pub is_foreign : String → GithubPending → Bool
  is_foreign browser p = browser == "" || not (sha256 browser == p.browser_hash)

  unfoldable pub take : String → String → ℕ → GithubAuth → GithubAuth × Option GithubPending
  take state browser now g = elim (lookup state g.pending) [
    | none ↦ (g, none)
    | some p ↦
        let dropped = record g { pending = erase state g.pending } in
        if is_expired now p
        then (dropped, none)
        else (if is_foreign browser p then (g, none) else (dropped, some p))
  ]
