-- ===== src/Sessions/Validity.antt =====
-- Which tokens are valid: after `issue`, at every check, and never again once revoked.
use dingzi.Base.{
  ℕ, ◌+◌, ◌≤◌, ◌<◌, ◌≡◌, ◌≢◌, ◌⊎◌, inl, inr, refl, none, some, List, [], ◌∷◌, String, arith,
  text_key, true, false, Bool-cases, Option-cases, ◌==◌, All, ltb,
}
use dingzi.Base.Table.{Table, lookup, lookup-erase}
use dingzi.Sessions.{
  LoginSession, SessionStore, revoke, revoke_over, sweep_sessions, evict, issue, valid,
  session_done, close_from, close, record_try, throttle, session_ttl,
}
use dingzi.Sessions.Bounds.{IsBounded}
use dingzi.Sessions.Ends.{revoke_absent, revoke_over_absent, evict_absent}
use dingzi.Sessions.History.{Call, step, run, issues, checks, revokes, binds, closes, tries}

-- A check of a token answers yes exactly when its session is there and its expiry is later than
-- now, and then it changes nothing; otherwise the token has no session afterwards, and a session
-- that it had was over and its channel is ended.
pub valid-cases :
    (tok : String) (now : ℕ) (s : SessionStore)
    → IsBounded s
    → let (after, ok) = valid tok now s in
      ((ok ≡ true)
        × (after ≡ s)
        × ((session : LoginSession) × (lookup tok s.tokens ≡ some session)
            × (now < session.expires)))
      ⊎ ((ok ≡ false)
          × (lookup tok after.tokens ≡ none)
          × ((session : LoginSession)
              → lookup tok s.tokens ≡ some session
              → (session.expires ≤ now) × (after.ended ≡ session.done ∷ s.ended)))
unfolding valid revoke
valid-cases tok now s v = elim (Option-cases (lookup tok s.tokens)) [
  | inl e ↦ inr (ground (arith, e), ground (arith, e), λ session h. absurd (ground (arith, e)))
  | inr (session, e) ↦
      let named : (tok == "") ≡ false =
        ground (arith, e, text_key.same_iff tok "", v.tokens_named) in
      elim (Bool-cases (ltb now session.expires)) [
        | inl live ↦
            inl (rw (named, e, live) refl, rw (named, e, live) refl, (session, e, ground arith))
        | inr over ↦ inr (
          rw (named, e, over) refl,
          ground (arith, lookup-erase tok tok s.tokens, text_key.same_iff tok tok),
          λ other h. ground (arith, e),
        )
      ]
]

-- A token just issued is valid until a week later.
pub valid-issue :
    (tok : String) (done now at : ℕ) (s : SessionStore)
    → tok ≢ ""
    → at < now + session_ttl
    → (valid tok at (issue (some tok) done now s).0).1 ≡ true
unfolding valid issue
valid-issue tok done now at s named lt =
    ground (arith, text_key.same_iff tok "", text_key.same_iff tok tok)

close_from_absent :
    (k : String) (l : Table String LoginSession) (s : SessionStore)
    → lookup k s.tokens ≡ none
    → lookup k (close_from l s).tokens ≡ none
unfolding close_from
close_from_absent k [] s h = h
close_from_absent k ((t, session) ∷ rest) s h =
    close_from_absent k rest (revoke t s) (revoke_absent k t s h)

-- The calls that do not issue the token.
abbrev pub Spares : String → Call → Type 0
Spares k (issues (some tok) done now) = tok ≢ k
Spares k c = Unit

step_absent :
    (k : String) (s : SessionStore) (c : Call)
    → Spares k c
    → lookup k s.tokens ≡ none
    → lookup k (step s c).tokens ≡ none
unfolding step close issue sweep_sessions valid session_done throttle record_try
step_absent k s (issues none done now) a h = h
step_absent k s (issues (some tok) done now) a h = ground (
  arith,
  text_key.same_iff tok k,
  revoke_over_absent k now (evict s).tokens (evict s) (evict_absent k s h),
  lookup-erase k tok (revoke_over now (evict s).tokens (evict s)).tokens,
)
step_absent k s (checks tok now) a h = ground (arith, revoke_absent k tok s h)
step_absent k s (revokes tok) a h = revoke_absent k tok s h
step_absent k s (binds tok now) a h =
    ground (arith, revoke_absent k tok s h, lookup-erase k tok s.tokens, text_key.same_iff tok k)
step_absent k s closes a h = close_from_absent k s.tokens s h
step_absent k s (tries ip now) a h = ground arith

run_absent :
    (k : String) (s : SessionStore) (calls : List Call)
    → All (Spares k) calls
    → lookup k s.tokens ≡ none
    → lookup k (run s calls).tokens ≡ none
unfolding run
run_absent k s [] a h = h
run_absent k s (c ∷ calls) a h = run_absent k (step s c) calls a.1 (step_absent k s c a.0 h)

-- Once revoked, a token is refused after any calls that do not issue it again, and no channel can
-- be bound to it.
pub revoked_for_good :
    (tok : String) (now : ℕ) (s : SessionStore) (calls : List Call)
    → All (Spares tok) calls
    → let later = run (revoke tok s) calls in
      (valid tok now later ≡ (later, false)) × (session_done tok now later ≡ (later, none))
unfolding valid session_done revoke
revoked_for_good tok now s calls a =
    let gone : lookup tok (revoke tok s).tokens ≡ none =
      ground (arith, lookup-erase tok tok s.tokens, text_key.same_iff tok tok) in
    let later = run_absent tok (revoke tok s) calls a gone in
    (ground (arith, later), ground (arith, later))
