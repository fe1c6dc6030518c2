-- ===== src/Sessions/Bounds.antt =====
-- The two maps stay within their limits, whatever calls are made.
use dingzi.Base.{
  ℕ, suc, ◌+◌, ◌≤◌, ◌<◌, ◌≡◌, ◌≢◌, inl, inr, refl, subst, ap, leb→le, true, false, Option, none,
  some, [], ◌∷◌, String, arith, leb, length, text_key, Bool-cases, Option-cases,
}
use dingzi.Base.Table.{
  Table, lookup, IsUnique, erase-IsUnique, insert-IsUnique, length-erase-le, lookup-erase,
}
use dingzi.Base.Table.Counts.{length-erase_present}
use dingzi.Base.Table.Sweep.{sweep, length-sweep-le, sweep-IsUnique}
use dingzi.Sessions.Oldest.{oldest_from_lem}
use dingzi.Sessions.{
  SessionStore, LoginSession, new_session_store, revoke, oldest_from, revoke_over, evict,
  sweep_sessions, issue, valid, session_done, close_from, record_try, throttle, max_sessions,
  max_tries, is_over, login_min_interval, session_ttl,
}

pub record IsBounded (s : SessionStore) : Type 0 where
  pub tokens_unique : IsUnique s.tokens
  pub tokens_named : lookup "" s.tokens ≡ none
  pub tries_unique : IsUnique s.last_try
  pub sessions_bounded : length s.tokens ≤ max_sessions
  pub tries_bounded : length s.last_try ≤ max_tries

pub new-IsBounded : IsBounded new_session_store
unfolding new_session_store
new-IsBounded = record {
  tokens_unique = tt;
  tokens_named = refl;
  tries_unique = tt;
  sessions_bounded = omega arith;
  tries_bounded = omega arith;
}

pub revoke-IsBounded : (tok : String) (s : SessionStore) → IsBounded s → IsBounded (revoke tok s)
unfolding revoke
revoke-IsBounded tok s v = ground (
  arith,
  erase-IsUnique tok s.tokens v.tokens_unique,
  length-erase-le tok s.tokens,
  lookup-erase "" tok s.tokens,
)

length-revoke-le :
    (tok : String) (s : SessionStore) → length (revoke tok s).tokens ≤ length s.tokens
unfolding revoke
length-revoke-le tok s = ground (arith, length-erase-le tok s.tokens)

revoke_over-IsBounded :
    (now : ℕ) (l : Table String LoginSession) (s : SessionStore)
    → IsBounded s
    → IsBounded (revoke_over now l s) × (length (revoke_over now l s).tokens ≤ length s.tokens)
unfolding revoke_over
revoke_over-IsBounded now [] s v = (v, omega arith)
revoke_over-IsBounded now ((t, session) ∷ rest) s v = elim (Bool-cases (is_over now session)) [
  | inl over ↦
      let (b, le) = revoke_over-IsBounded now rest (revoke t s) (revoke-IsBounded t s v) in
      rw (over, revoke_over) (b, omega (arith, length-revoke-le t s))
  | inr fresh ↦ rw (fresh, revoke_over) (revoke_over-IsBounded now rest s v)
]

length-revoke_present :
    (tok : String) (session : LoginSession) (s : SessionStore)
    → IsUnique s.tokens
    → lookup tok s.tokens ≡ some session
    → length s.tokens ≡ suc (length (revoke tok s).tokens)
unfolding revoke
length-revoke_present tok session s u h =
    ground (arith, length-erase_present tok session s.tokens u h)

evict-IsBounded :
    (s : SessionStore)
    → IsBounded s
    → IsBounded (evict s) × (length (evict s).tokens < max_sessions)
unfolding evict
evict-IsBounded s v = elim (Bool-cases (leb max_sessions (length s.tokens))) [
  | inl full ↦
      rw (full, evict)
        (revoke-IsBounded (oldest_from s.tokens "" 0) s v, go s.tokens refl (leb→le _ _ full))
  | inr room ↦ rw (room, evict) (v, ground arith)
]
  where
    go :
        (l : Table String LoginSession)
        → s.tokens ≡ l
        → max_sessions ≤ length s.tokens
        → length (revoke (oldest_from s.tokens "" 0) s).tokens < max_sessions
    go [] e full = absurd (omega (arith, ap length e))
    go ((t, first) ∷ rest) e full =
        let (session, h, _) =
          oldest_from_lem t first rest (subst (λ l. IsUnique l) e v.tokens_unique)
            (subst (λ l. lookup "" l ≡ none) e v.tokens_named) in
        let h' : lookup (oldest_from s.tokens "" 0) s.tokens ≡ some session = rw e h in
        omega (
          arith,
          length-revoke_present (oldest_from s.tokens "" 0) session s v.tokens_unique h',
          v.sessions_bounded,
        )

pub issue-IsBounded :
    (tok : Option String) (done now : ℕ) (s : SessionStore)
    → tok ≢ some ""
    → IsBounded s
    → IsBounded (issue tok done now s).0
unfolding issue sweep_sessions
issue-IsBounded none done now s ne v = v
issue-IsBounded (some tok) done now s ne v =
    let (b, lt) = evict-IsBounded s v in
    let (c, le) = revoke_over-IsBounded now (evict s).tokens (evict s) b in
    let swept = revoke_over now (evict s).tokens (evict s) in
    record {
      tokens_unique =
          insert-IsUnique tok (record { expires = now + session_ttl; done = done; timer = false })
            swept.tokens c.tokens_unique;
      tokens_named =
          let named : tok ≢ "" = λ same. ne (ap some same) in
          ground
            (arith, text_key.same_iff tok "", lookup-erase "" tok swept.tokens, c.tokens_named);
      tries_unique = sweep-IsUnique _ swept.last_try c.tries_unique;
      sessions_bounded = omega (arith, length-erase-le tok swept.tokens);
      tries_bounded = omega (arith, c.tries_bounded, length-sweep-le _ swept.last_try);
    }

pub valid-IsBounded :
    (tok : String) (now : ℕ) (s : SessionStore) → IsBounded s → IsBounded (valid tok now s).0
unfolding valid
valid-IsBounded tok now s v = ground (arith, revoke-IsBounded tok s v)

pub session_done-IsBounded :
    (tok : String) (now : ℕ) (s : SessionStore) → IsBounded s → IsBounded (session_done tok now s).0
unfolding session_done
session_done-IsBounded tok now s v = elim (Option-cases (lookup tok s.tokens)) [
  | inl e ↦ rw (e, session_done) v
  | inr (session, e) ↦ elim (Bool-cases (is_over now session)) [
    | inl over ↦ rw (e, session_done, over) (revoke-IsBounded tok s v)
    | inr live ↦
        rw (e, session_done, live)
          (record {
            tokens_unique =
                insert-IsUnique tok (record session { timer = true }) s.tokens v.tokens_unique;
            tokens_named =
                ground (
                  arith,
                  e,
                  v.tokens_named,
                  text_key.same_iff tok "",
                  lookup-erase "" tok s.tokens,
                );
            tries_unique = v.tries_unique;
            sessions_bounded = omega (
              arith,
              length-erase_present tok session s.tokens v.tokens_unique e,
              v.sessions_bounded,
            );
            tries_bounded = v.tries_bounded;
          })
  ]
]

pub close_from-IsBounded :
    (l : Table String LoginSession) (s : SessionStore) → IsBounded s → IsBounded (close_from l s)
unfolding close_from
close_from-IsBounded [] s v = v
close_from-IsBounded ((t, session) ∷ rest) s v =
    close_from-IsBounded rest (revoke t s) (revoke-IsBounded t s v)

record_try-IsBounded :
    (ip : String) (now : ℕ) (s : SessionStore)
    → IsBounded s
    → length s.last_try < max_tries
    → IsBounded (record_try ip now s).0
unfolding record_try
record_try-IsBounded ip now s v room =
    ground (arith, insert-IsUnique ip now s.last_try v.tries_unique, length-erase-le ip s.last_try)

pub throttle-IsBounded :
    (ip : String) (now : ℕ) (s : SessionStore) → IsBounded s → IsBounded (throttle ip now s).0
unfolding throttle
throttle-IsBounded ip now s v = elim (Bool-cases (leb max_tries (length s.last_try))) [
  | inl full ↦ elim (Bool-cases (leb max_tries (length swept.last_try))) [
    | inl busy ↦ rw (full, throttle, busy) w
    | inr room ↦ rw (full, throttle, room) (record_try-IsBounded ip now swept w (ground arith))
  ]
  | inr room ↦ rw (room, throttle) (record_try-IsBounded ip now s v (ground arith))
]
  where
    swept : SessionStore
    swept = record s { last_try = sweep (λ at. leb (at + login_min_interval) now) s.last_try }

    w : IsBounded swept
    w = record {
      tokens_unique = v.tokens_unique;
      tokens_named = v.tokens_named;
      tries_unique = sweep-IsUnique _ s.last_try v.tries_unique;
      sessions_bounded = v.sessions_bounded;
      tries_bounded = omega (
        arith,
        v.tries_bounded,
        length-sweep-le (λ at. leb (at + login_min_interval) now) s.last_try,
      );
    }
