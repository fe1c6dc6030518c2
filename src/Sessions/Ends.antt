-- ===== src/Sessions/Ends.antt =====
-- The channels that end: one for each session that leaves the store.
use dingzi.Base.{
  ℕ, ◌+◌, ◌≡◌, refl, ap, none, some, List, [], ◌∷◌, ◌++◌, String, arith, text_key, Bool, eqb,
  if◌then◌else◌, Bool-cases, Option-cases, ◌∙◌, inl, inr,
}
use dingzi.Base.Table.{Table, lookup, erase_absent, IsUnique, lookup-erase}
use dingzi.Base.Table.Counts.{count, count-erase_present}
use dingzi.Sessions.{
  LoginSession, SessionStore, new_session_store, revoke, revoke_over, sweep_sessions, evict, issue,
  valid, session_done, close_from, close, record_try, throttle, is_over, oldest_from,
}
use dingzi.Sessions.Bounds.{IsBounded, revoke-IsBounded}
use dingzi.Sessions.History.{
  Call, step, Allowed, minted, Reachable, start, next, issues, checks, revokes, binds, closes,
  tries, Reachable-IsBounded,
}

abbrev pub is_of : ℕ → LoginSession → Bool
is_of k session = eqb session.done k

-- How often a channel is in a list.
abbrev pub times : ℕ → List ℕ → ℕ
times k [] = 0
times k (done ∷ l) = (if eqb done k then 1 else 0) + times k l

-- The sessions of a channel in the store, and how often it was closed.
abbrev pub total : ℕ → SessionStore → ℕ
total k s = count (is_of k) s.tokens + times k s.ended

revoke_total :
    (k : ℕ) (tok : String) (s : SessionStore)
    → IsUnique s.tokens
    → total k (revoke tok s) ≡ total k s
unfolding revoke
revoke_total k tok s u = elim (Option-cases (lookup tok s.tokens)) [
  | inl e ↦ rw (e, revoke) refl
  | inr (session, e) ↦
      rw (e, revoke) (omega (arith, count-erase_present (is_of k) tok session s.tokens u e))
]

revoke_over_total :
    (k : ℕ) (now : ℕ) (l : Table String LoginSession) (s : SessionStore)
    → IsBounded s
    → total k (revoke_over now l s) ≡ total k s
unfolding revoke_over
revoke_over_total k now [] s v = refl
revoke_over_total k now ((t, session) ∷ rest) s v = elim (Bool-cases (is_over now session)) [
  | inl over ↦
      rw (over, revoke_over)
        (revoke_over_total k now rest (revoke t s) (revoke-IsBounded t s v)
          ∙ revoke_total k t s v.tokens_unique)
  | inr fresh ↦ rw (fresh, revoke_over) (revoke_over_total k now rest s v)
]

close_from_total :
    (k : ℕ) (l : Table String LoginSession) (s : SessionStore)
    → IsBounded s
    → total k (close_from l s) ≡ total k s
unfolding close_from
close_from_total k [] s v = refl
close_from_total k ((t, session) ∷ rest) s v =
    close_from_total k rest (revoke t s) (revoke-IsBounded t s v)
    ∙ revoke_total k t s v.tokens_unique

pub revoke_absent :
    (k tok : String) (s : SessionStore)
    → lookup k s.tokens ≡ none
    → lookup k (revoke tok s).tokens ≡ none
unfolding revoke
revoke_absent k tok s h = ground (arith, lookup-erase k tok s.tokens)

pub revoke_over_absent :
    (k : String) (now : ℕ) (l : Table String LoginSession) (s : SessionStore)
    → lookup k s.tokens ≡ none
    → lookup k (revoke_over now l s).tokens ≡ none
unfolding revoke_over
revoke_over_absent k now [] s h = h
revoke_over_absent k now ((t, session) ∷ rest) s h = elim (Bool-cases (is_over now session)) [
  | inl over ↦
      rw (over, revoke_over) (revoke_over_absent k now rest (revoke t s) (revoke_absent k t s h))
  | inr fresh ↦ rw (fresh, revoke_over) (revoke_over_absent k now rest s h)
]

pub evict_absent :
    (k : String) (s : SessionStore) → lookup k s.tokens ≡ none → lookup k (evict s).tokens ≡ none
unfolding evict
evict_absent k s h = ground (arith, revoke_absent k (oldest_from s.tokens "" 0) s)

evict_total : (k : ℕ) (s : SessionStore) → IsBounded s → total k (evict s) ≡ total k s
unfolding evict
evict_total k s v = ground (arith, revoke_total k (oldest_from s.tokens "" 0) s v.tokens_unique)

evict_keeps : (s : SessionStore) → IsBounded s → IsBounded (evict s)
unfolding evict
evict_keeps s v = ground (arith, revoke-IsBounded (oldest_from s.tokens "" 0) s v)

issue_total :
    (k : ℕ) (tok : String) (done now : ℕ) (s : SessionStore)
    → lookup tok s.tokens ≡ none
    → IsBounded s
    → total k (issue (some tok) done now s).0 ≡ (if eqb done k then 1 else 0) + total k s
unfolding issue sweep_sessions
issue_total k tok done now s h v =
    let swept = revoke_over now (evict s).tokens (evict s) in
    let gone = revoke_over_absent tok now (evict s).tokens (evict s) (evict_absent tok s h) in
    omega (
      arith,
      ap (count (is_of k)) (erase_absent tok swept.tokens gone),
      evict_total k s v,
      revoke_over_total k now (evict s).tokens (evict s) (evict_keeps s v),
    )

valid_total :
    (k : ℕ) (tok : String) (now : ℕ) (s : SessionStore)
    → IsBounded s
    → total k (valid tok now s).0 ≡ total k s
unfolding valid
valid_total k tok now s v = ground (arith, revoke_total k tok s v.tokens_unique)

session_done_total :
    (k : ℕ) (tok : String) (now : ℕ) (s : SessionStore)
    → IsBounded s
    → total k (session_done tok now s).0 ≡ total k s
unfolding session_done
session_done_total k tok now s v = elim (Option-cases (lookup tok s.tokens)) [
  | inl e ↦ rw (e, session_done) refl
  | inr (session, e) ↦ elim (Bool-cases (is_over now session)) [
    | inl over ↦ rw (e, session_done, over) (revoke_total k tok s v.tokens_unique)
    | inr live ↦
        rw (e, session_done, live)
          (omega (arith, count-erase_present (is_of k) tok session s.tokens v.tokens_unique e))
  ]
]

throttle_total :
    (k : ℕ) (ip : String) (now : ℕ) (s : SessionStore) → total k (throttle ip now s).0 ≡ total k s
unfolding throttle record_try
throttle_total k ip now s = ground arith

step_total :
    (k : ℕ) (s : SessionStore) (c : Call)
    → Allowed s c
    → IsBounded s
    → total k (step s c) ≡ times k (minted c) + total k s
unfolding step close issue
step_total k s (issues none done now) a v = omega arith
step_total k s (issues (some tok) done now) a v = omega (arith, issue_total k tok done now s a.1 v)
step_total k s (checks tok now) a v = omega (arith, valid_total k tok now s v)
step_total k s (revokes tok) a v = omega (arith, revoke_total k tok s v.tokens_unique)
step_total k s (binds tok now) a v = omega (arith, session_done_total k tok now s v)
step_total k s closes a v = omega (arith, close_from_total k s.tokens s v)
step_total k s (tries ip now) a v = omega (arith, throttle_total k ip now s)

times_append : (k : ℕ) (l m : List ℕ) → times k (l ++ m) ≡ times k l + times k m
times_append k [] m = omega arith
times_append k (done ∷ l) m = omega (arith, times_append k l m)

-- After any history, each channel was closed as often as sessions with it were issued, less those
-- that are in the store: whatever removes a session closes its own channel, once.
pub ends_once :
    {issued : List ℕ} {s : SessionStore}
    → Reachable issued s
    → (k : ℕ) → count (is_of k) s.tokens + times k s.ended ≡ times k issued
unfolding new_session_store
ends_once start k = omega arith
ends_once (next {issued = issued} {s = before} r c a) k = omega (
  arith,
  step_total k before c a (Reachable-IsBounded r),
  ends_once r k,
  times_append k (minted c) issued,
)
