-- ===== src/Sessions/Tests.antt =====
-- Runs of the store, and each theorem at a concrete input.
use dingzi.Base.{
  ◌+◌, ◌*◌, List, ◌≡◌, ◌≢◌, refl, Option, none, some, [], ◌∷◌, text_key, Bool, true, false, ◌==◌,
  String,
}
use dingzi.Sessions.{
  LoginSession, SessionStore, new_session_store, revoke, revoke_over, sweep_sessions, evict, issue,
  valid, session_done, record_try, throttle, second, session_ttl,
}
use dingzi.Sessions.Bounds.{IsBounded}
use dingzi.Sessions.History.{
  step, run, Reachable, start, next, issues, checks, revokes, tries, Reachable-IsBounded,
}
use dingzi.Sessions.Ends.{is_of, times, ends_once}
use dingzi.Base.Table.Counts.{count}
use dingzi.Sessions.Validity.{revoked_for_good}
use dingzi.Sessions.Login.{handle_login, handle_login_lem, logged_in, sign_in, Attempt}

-- "a" is issued at 0 and "b" at second 5; "a" is revoked.
abbrev used : SessionStore
used =
    step
      (step (step (step new_session_store (tries "10.0.0.1" 0)) (issues (some "a") 0 0))
        (issues (some "b") 1 (5 * second)))
      (revokes "a")

used-Reachable : Reachable (1 ∷ 0 ∷ []) used
unfolding new_session_store step issue sweep_sessions evict throttle record_try revoke revoke_over
used-Reachable =
    next
      (next
        (next (next start (tries "10.0.0.1" 0) tt) (issues (some "a") 0 0)
          (λ e. cc ((text_key.same_iff "a" "").1 e), refl))
        (issues (some "b") 1 (5 * second)) (λ e. cc ((text_key.same_iff "b" "").1 e), refl))
      (revokes "a") tt

-- The channel of "a" has ended and "b" lives on.
used_run :
    (used.ended ≡ 0 ∷ [])
    × ((valid "b" (6 * second) used).1 ≡ true)
    × ((valid "b" (5 * second + session_ttl) used).1 ≡ false)
unfolding new_session_store step issue sweep_sessions evict throttle record_try revoke revoke_over
    valid
used_run = (refl, refl, refl)

Reachable-IsBounded_example : IsBounded used
Reachable-IsBounded_example = Reachable-IsBounded used-Reachable

ends_once_example : count (is_of 0) used.tokens + times 0 used.ended ≡ times 0 (1 ∷ 0 ∷ [])
ends_once_example = ends_once used-Reachable 0

abbrev pair : LoginSession
pair = record { expires = 20; done = 0; timer = false }

abbrev two : List (String × LoginSession)
two = ("a", pair) ∷ ("b", record pair { expires = 10 }) ∷ []

revoked_for_good_example :
    let later = run (revoke "b" used) (issues (some "c") 2 9 ∷ checks "b" 10 ∷ []) in
    (valid "b" 11 later ≡ (later, false)) × (session_done "b" 11 later ≡ (later, none))
revoked_for_good_example =
    revoked_for_good "b" 11 used (issues (some "c") 2 9 ∷ checks "b" 10 ∷ [])
      (λ e. cc ((text_key.same_iff "c" "b").1 e), (tt, tt))

-- bcrypt stood for by equality of texts.
abbrev equal : String → String → Bool
equal hash pw = hash == pw

abbrev attempt : Attempt
attempt = record { same_origin = true; ip = "10.0.0.1"; body = some "hunter2" }

handle_login_runs :
    (handle_login equal "hunter2" attempt (some "c") 2 (9 * second) used).1 ≡ logged_in "c"
unfolding handle_login sign_in new_session_store step issue sweep_sessions evict throttle record_try
    revoke revoke_over
handle_login_runs = refl

handle_login_lem_example :
    let (after, reply) = handle_login equal "hunter2" attempt (some "c") 2 (9 * second) used in
    ((t : String)
      → reply ≡ logged_in t
      → (attempt.same_origin ≡ true)
        × ((throttle attempt.ip (9 * second) used).1 ≡ true)
        × (◌≢◌ {A = String} "hunter2" "")
        × ((pw : String) × (attempt.body ≡ some pw) × (equal "hunter2" pw ≡ true))
        × (◌≡◌ {A = Option String} (some "c") (some t))
        × (after ≡ (issue (some "c") 2 (9 * second) (throttle attempt.ip (9 * second) used).0).0))
    × (((t : String) → reply ≢ logged_in t) → after.tokens ≡ used.tokens)
handle_login_lem_example = handle_login_lem equal "hunter2" attempt (some "c") 2 (9 * second) used
