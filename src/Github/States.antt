-- ===== src/Github/States.antt =====
-- What `pending` and `inflight` hold in every history of logins.
use dingzi.Base.{
  ℕ, ◌+◌, ◌-◌, ◌≤◌, ◌<◌, ◌≡◌, ◌⊎◌, inl, inr, refl, Option, none, some, List, String, arith, leb,
  ltb, length, text_key, Bool-cases, Option-cases, ℤ,
}
use dingzi.Base.Table.{lookup, IsUnique, erase-IsUnique, insert-IsUnique, erase, length-erase-le}
use dingzi.Base.Table.Sweep.{sweep, length-sweep-le, sweep-IsUnique}
use dingzi.Sessions.{SessionStore}
use dingzi.Web.{Url, HttpRequest}
use dingzi.Github.{
  GithubAuth, GithubPending, issue, take, github_max_pending, github_state_ttl, max_inflight,
  is_expired, is_foreign,
}
use dingzi.Github.Accepted.{new_github_auth_lem}
use dingzi.Github.Callback.{begin_callback, is_refused, claim_slot, end_callback, or_empty}
use dingzi.Github.Events.{
  Issued, starts, begins, ends, github_or, slots_of, step, Reachable, start, next,
}

pub record IsBounded (n : ℕ) (g : GithubAuth) : Type 0 where
  pub pending_unique : IsUnique g.pending
  pub pending_bounded : length g.pending ≤ github_max_pending
  pub slots_used : g.inflight ≡ n
  pub slots_bounded : n ≤ max_inflight

-- What `begin_callback` may do to the pending logins and to the slots.
pub record Moves (state : String) (n : ℕ) (g after : GithubAuth) : Type 0 where
  pub pending : (after.pending ≡ g.pending) ⊎ (after.pending ≡ erase state g.pending)
  pub slots : after.inflight ≡ n + g.inflight
  pub room : n ≡ 0 ⊎ (n ≡ 1) × (g.inflight < max_inflight)

stays : (state : String) (g : GithubAuth) → Moves state 0 g g
stays state g = record { pending = inl refl; slots = omega arith; room = inl refl }

drops :
    (state : String) (g : GithubAuth)
    → Moves state 0 g (record g { pending = erase state g.pending })
drops state g = record { pending = inr refl; slots = omega arith; room = inl refl }

module _ (sha256 : String → String) where
  take-Moves :
      (state browser : String) (now : ℕ) (g : GithubAuth)
      → Moves state 0 g (take sha256 state browser now g).0
  unfolding take
  take-Moves state browser now g = elim (Option-cases (lookup state g.pending)) [
    | inl e ↦ rw (e, take) (stays state g)
    | inr (p, e) ↦ elim (Bool-cases (is_expired now p)) [
      | inl over ↦ rw (e, over, take) (drops state g)
      | inr live ↦ elim (Bool-cases (is_foreign sha256 browser p)) [
        | inl other ↦ rw (e, live, other, take) (stays state g)
        | inr own ↦ rw (e, live, own, take) (drops state g)
      ]
    ]
  ]

module _ (len : String → ℕ) where
  claim_slot-Moves :
      (state : String) (r : HttpRequest) (p : GithubPending) (g after : GithubAuth)
      → Moves state 0 g after
      → Moves state (slots_of (claim_slot len r p after).1) g (claim_slot len r p after).0
  unfolding claim_slot
  claim_slot-Moves state r p g after m =
      elim (Bool-cases (is_refused len r (or_empty (lookup "code" r.query)))) [
        | inl bad ↦ rw (bad, claim_slot) m
        | inr good ↦ elim (Bool-cases (ltb after.inflight max_inflight)) [
          | inr full ↦ rw (good, full, claim_slot) m
          | inl room ↦
              rw (good, room, claim_slot)
                (record {
                  pending = m.pending;
                  slots = omega (arith, m.slots);
                  room = inr (refl, ground (arith, m.slots));
                })
        ]
      ]

module _ (sha256 : String → String) (len : String → ℕ) where
  pub begin-Moves :
      (r : HttpRequest) (now : ℕ) (g : GithubAuth)
      → Moves
          (or_empty (lookup "state" r.query))
          (slots_of (begin_callback sha256 len r now g).1)
          g
          (begin_callback sha256 len r now g).0
  unfolding begin_callback
  begin-Moves r now g = elim (Option-cases r.state_cookie) [
    | inl e ↦ rw (e, begin_callback) (stays _ g)
    | inr (browser, e) ↦
        let state = or_empty (lookup "state" r.query) in
        elim (Option-cases (take sha256 state browser now g).1) [
          | inl lost ↦ rw (e, begin_callback, lost) (take-Moves sha256 state browser now g)
          | inr (p, found) ↦
              rw (e, begin_callback, found)
                (claim_slot-Moves len state r p g _ (take-Moves sha256 state browser now g))
        ]
  ]

  step_begins :
      (r : HttpRequest) (now n : ℕ) (g : GithubAuth)
      → IsBounded n g
      → IsBounded
          (slots_of (begin_callback sha256 len r now g).1 + n)
          (begin_callback sha256 len r now g).0
  step_begins r now n g v =
      let m = begin-Moves r now g in
      record {
        pending_unique = elim m.pending [
          | inl e ↦ rw e v.pending_unique
          | inr e ↦ rw e (erase-IsUnique _ g.pending v.pending_unique)
        ];
        pending_bounded = elim m.pending [
          | inl e ↦ rw e v.pending_bounded
          | inr e ↦ rw e (omega (arith, v.pending_bounded, length-erase-le _ g.pending))
        ];
        slots_used = omega (arith, m.slots, v.slots_used);
        slots_bounded = ground (arith, m.room, v.slots_used, v.slots_bounded);
      }

module _ (sha256 encode : String → String) where
  step_starts :
      (i : Issued) (n : ℕ) (g : GithubAuth)
      → IsBounded n g
      → IsBounded n (issue sha256 encode i.browser i.state i.verifier i.now g).0
  unfolding issue
  step_starts i n g v =
      let old = sweep (is_expired i.now) g.pending in
      let fewer = length-sweep-le (is_expired i.now) g.pending in
      let unique = sweep-IsUnique (is_expired i.now) g.pending v.pending_unique in
      elim (Bool-cases (leb github_max_pending (length old))) [
        | inl full ↦
            rw (full, issue)
              (record {
                pending_unique = unique;
                pending_bounded = omega (arith, v.pending_bounded);
                slots_used = v.slots_used;
                slots_bounded = v.slots_bounded;
              })
        | inr room ↦
            rw (room, issue)
              (record {
                pending_unique =
                    insert-IsUnique i.state
                      (record {
                        browser_hash = sha256 i.browser;
                        verifier = i.verifier;
                        expires = i.now + github_state_ttl;
                      })
                      old unique;
                pending_bounded = ground (arith, length-erase-le i.state old);
                slots_used = v.slots_used;
                slots_bounded = v.slots_bounded;
              })
      ]

step_ends :
    (r : HttpRequest) (answer : Option ℤ) (tok : Option String) (done now n : ℕ) (g : GithubAuth)
    (s : SessionStore)
    → 0 < n
    → IsBounded n g
    → IsBounded (n - 1) (github_or g (end_callback r answer tok done now g s).0.github)
unfolding end_callback
step_ends r none tok done now n g s some_ v = record {
  pending_unique = v.pending_unique;
  pending_bounded = v.pending_bounded;
  slots_used = omega (arith, v.slots_used);
  slots_bounded = omega (arith, v.slots_bounded);
}
step_ends r (some id) tok done now n g s some_ v = record {
  pending_unique = v.pending_unique;
  pending_bounded = v.pending_bounded;
  slots_used = omega (arith, v.slots_used);
  slots_bounded = omega (arith, v.slots_bounded);
}

module _ (sha256 encode : String → String) (len : String → ℕ) (trim : String → String)
    (parse : String → Option Url) where
  -- After any interleaving of starts and callbacks no state is listed twice, at most 256 logins are
  -- pending, and the slots taken are the callbacks between their steps, at most 16.
  pub Reachable-IsBounded_login :
      {log : List Issued} {n : ℕ} {g : GithubAuth}
      → Reachable sha256 encode len trim parse log n g
      → IsBounded n g
  unfolding step
  Reachable-IsBounded_login (start cfg secure_cookie g h) =
      let a = new_github_auth_lem trim parse cfg secure_cookie g h in
      record {
        pending_unique = rw (a.pending) tt;
        pending_bounded = rw (a.pending) (omega arith);
        slots_used = a.inflight;
        slots_bounded = omega arith;
      }
  Reachable-IsBounded_login (next {n = n} {g = g} r (starts i) c) =
      step_starts sha256 encode i n g (Reachable-IsBounded_login r)
  Reachable-IsBounded_login (next {n = n} {g = g} r (begins q now) c) =
      step_begins sha256 len q now n g (Reachable-IsBounded_login r)
  Reachable-IsBounded_login (next {n = n} {g = g} r (ends q answer tok done now s) c) =
      step_ends q answer tok done now n g s c (Reachable-IsBounded_login r)
