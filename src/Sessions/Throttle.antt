-- ===== src/Sessions/Throttle.antt =====
-- The spacing of password attempts.
use dingzi.Base.{
  ℕ, ◌+◌, ◌≤◌, ◌<◌, ◌≡◌, inl, inr, refl, none, some, List, [], ◌∷◌, String, arith, length, text_key,
  true, false, Bool-cases, Option-cases, ltb, leb,
}
use dingzi.Base.Table.{Table, lookup, lookup-erase}
use dingzi.Base.Table.Sweep.{sweep, lookup-sweep}
use dingzi.Sessions.{
  LoginSession, SessionStore, revoke, revoke_over, sweep_sessions, evict, issue, valid,
  session_done, close_from, close, record_try, throttle, is_over, hour, login_min_interval,
  max_tries, oldest_from,
}
use dingzi.Sessions.Bounds.{IsBounded, throttle-IsBounded}
use dingzi.Sessions.History.{
  Call, step, run, issues, checks, revokes, binds, closes, tries, Allowed, step-IsBounded,
}

revoke_tries : (tok : String) (s : SessionStore) → (revoke tok s).last_try ≡ s.last_try
unfolding revoke
revoke_tries tok s = ground arith

revoke_over_tries :
    (now : ℕ) (l : Table String LoginSession) (s : SessionStore)
    → (revoke_over now l s).last_try ≡ s.last_try
unfolding revoke_over
revoke_over_tries now [] s = refl
revoke_over_tries now ((t, session) ∷ rest) s = elim (Bool-cases (is_over now session)) [
  | inl over ↦
      rw (over, revoke_over) (cc (revoke_over_tries now rest (revoke t s), revoke_tries t s))
  | inr fresh ↦ rw (fresh, revoke_over) (revoke_over_tries now rest s)
]

close_from_tries :
    (l : Table String LoginSession) (s : SessionStore) → (close_from l s).last_try ≡ s.last_try
unfolding close_from
close_from_tries [] s = refl
close_from_tries ((t, session) ∷ rest) s = cc (close_from_tries rest (revoke t s), revoke_tries t s)

evict_tries : (s : SessionStore) → (evict s).last_try ≡ s.last_try
unfolding evict
evict_tries s = ground (arith, revoke_tries (oldest_from s.tokens "" 0) s)

-- The time at which a call reads the clock is before the limit.
abbrev pub Before : ℕ → Call → Type 0
Before limit (issues tok done now) = now < limit
Before limit (tries ip now) = now < limit
Before limit c = Unit

-- An accepted attempt at `at` stays on record as the last one.
step-tried :
    (ip : String) (at : ℕ) (s : SessionStore) (c : Call)
    → IsBounded s
    → Before (at + login_min_interval) c
    → lookup ip s.last_try ≡ some at
    → lookup ip (step s c).last_try ≡ some at
unfolding step close issue sweep_sessions valid session_done throttle record_try
step-tried ip at s (issues none done now) v b h = h
step-tried ip at s (issues (some tok) done now) v b h =
    let same = revoke_over_tries now (evict s).tokens (evict s) in
    rw (same, evict_tries s, lookup-sweep ip (λ x. ltb (x + hour) now) s.last_try v.tries_unique)
      (ground arith)
step-tried ip at s (checks tok now) v b h = ground (arith, revoke_tries tok s)
step-tried ip at s (revokes tok) v b h = ground (arith, revoke_tries tok s)
step-tried ip at s (binds tok now) v b h = ground (arith, revoke_tries tok s)
step-tried ip at s closes v b h = cc (close_from_tries s.tokens s, h)
step-tried ip at s (tries other now) v b h = ground (
  arith,
  lookup-sweep ip (λ x. leb (x + login_min_interval) now) s.last_try v.tries_unique,
  lookup-sweep other (λ x. leb (x + login_min_interval) now) s.last_try v.tries_unique,
  text_key.same_iff other ip,
  lookup-erase ip other s.last_try,
  lookup-erase ip other (sweep (λ x. leb (x + login_min_interval) now) s.last_try),
)

-- Calls that the handlers may make from the state, all before the limit.
abbrev pub Within : ℕ → SessionStore → List Call → Type 0
Within limit s [] = Unit
Within limit s (c ∷ calls) = Allowed s c × Before limit c × Within limit (step s c) calls

run-tried :
    (ip : String) (at : ℕ) (s : SessionStore) (calls : List Call)
    → IsBounded s
    → Within (at + login_min_interval) s calls
    → lookup ip s.last_try ≡ some at
    → IsBounded (run s calls) × (lookup ip (run s calls).last_try ≡ some at)
unfolding run
run-tried ip at s [] v w h = (v, h)
run-tried ip at s (c ∷ calls) v w h =
    run-tried ip at (step s c) calls (step-IsBounded s c w.0 v) w.2 (step-tried ip at s c v w.1 h)

throttle-tried :
    (ip : String) (at : ℕ) (s : SessionStore)
    → (throttle ip at s).1 ≡ true
    → lookup ip (throttle ip at s).0.last_try ≡ some at
unfolding throttle record_try
throttle-tried ip at s h = ground (arith, text_key.same_iff ip ip)

tried-refused :
    (ip : String) (at now : ℕ) (s : SessionStore)
    → IsBounded s
    → now < at + login_min_interval
    → lookup ip s.last_try ≡ some at
    → (throttle ip now s).1 ≡ false
unfolding throttle record_try
tried-refused ip at now s v lt h =
    ground
      (arith, lookup-sweep ip (λ x. leb (x + login_min_interval) now) s.last_try v.tries_unique)

-- After an attempt of an address was let through, every attempt of that address within a second
-- is refused, whatever the calls in between, also those that sweep the table.
pub throttle_spaced :
    (ip : String) (at now : ℕ) (s : SessionStore) (calls : List Call)
    → IsBounded s
    → (throttle ip at s).1 ≡ true
    → Within (at + login_min_interval) (throttle ip at s).0 calls
    → now < at + login_min_interval
    → (throttle ip now (run (throttle ip at s).0 calls)).1 ≡ false
throttle_spaced ip at now s calls v ok w lt =
    let (b, h) =
      run-tried ip at (throttle ip at s).0 calls (throttle-IsBounded ip at s v) w
        (throttle-tried ip at s ok) in
    tried-refused ip at now (run (throttle ip at s).0 calls) b lt h

-- An attempt is let through when the address made none in the last second and the table of
-- attempts has room.
pub throttle_open :
    (ip : String) (now : ℕ) (s : SessionStore)
    → length s.last_try < max_tries
    → ((at : ℕ) → lookup ip s.last_try ≡ some at → at + login_min_interval ≤ now)
    → ((throttle ip now s).1 ≡ true) × (lookup ip (throttle ip now s).0.last_try ≡ some now)
unfolding throttle record_try
throttle_open ip now s room old = elim (Option-cases (lookup ip s.last_try)) [
  | inl e ↦ ground (arith, e, text_key.same_iff ip ip)
  | inr (at, e) ↦ ground (arith, e, old at e, text_key.same_iff ip ip)
]
