-- ===== src/Github/Single.antt =====
-- Where a pending login comes from, and that it is taken once.
use dingzi.Base.{
  ℕ, ◌+◌, ◌<◌, ◌≡◌, ◌≢◌, sym, ◌⊎◌, inl, inr, refl, Option, none, some, List, ◌∷◌, String, arith,
  leb, length, text_key, Bool-cases, Option-cases, ◌==◌,
}
use dingzi.Base.Table.{lookup, IsUnique, erase, lookup-erase}
use dingzi.Base.Table.Sweep.{sweep, lookup-sweep, unless}
use dingzi.Web.{Url}
use dingzi.Github.{
  GithubAuth, GithubPending, issue, take, github_max_pending, github_state_ttl, is_expired,
  is_foreign, is_foreign,
}
use dingzi.Github.Accepted.{new_github_auth_lem}
use dingzi.Github.Callback.{end_callback, or_empty}
use dingzi.Github.Events.{Issued, starts, begins, ends, StemsFrom, step, Reachable, start, next}
use dingzi.Github.States.{begin-Moves, Reachable-IsBounded_login}

issue_pending :
    (sha256 encode : String → String) (i : Issued) (g : GithubAuth) (state : String)
    (p : GithubPending)
    → IsUnique g.pending
    → lookup state (issue sha256 encode i.browser i.state i.verifier i.now g).0.pending ≡ some p
    → (lookup state g.pending ≡ some p)
      ⊎ ((i.state ≡ state)
          × (p ≡ record {
            browser_hash = sha256 i.browser;
            verifier = i.verifier;
            expires = i.now + github_state_ttl;
          }))
unfolding issue
issue_pending sha256 encode i g state p u e =
    let old = sweep (is_expired i.now) g.pending in
    let kept = lookup-sweep state (is_expired i.now) g.pending u in
    elim (Bool-cases (leb github_max_pending (length old))) [
      | inl full ↦
          let e' : lookup state old ≡ some p = rw (issue, full) at e in
          inl (was_there (lookup state g.pending) e' kept)
      | inr room ↦ elim (Bool-cases (i.state == state)) [
        | inl same ↦
            inr (ground (arith, text_key.same_iff i.state state), ground (arith, e, room, same))
        | inr other ↦
            let e' : lookup state old ≡ some p =
              ground (arith, e, room, other, lookup-erase state i.state old) in
            inl (was_there (lookup state g.pending) e' kept)
      ]
    ]
  where
    was_there :
        (o : Option GithubPending)
        → lookup state (sweep (is_expired i.now) g.pending) ≡ some p
        → lookup state (sweep (is_expired i.now) g.pending) ≡ unless (is_expired i.now) o
        → o ≡ some p
    was_there none h k = absurd (ground (arith, h, k))
    was_there (some q) h k = ground (arith, h, k)

older :
    (sha256 : String → String) (log : List Issued) (i : Issued) (state : String) (p : GithubPending)
    → StemsFrom sha256 log state p
    → StemsFrom sha256 (i ∷ log) state p
older sha256 log i state p f = record {
  source = f.source;
  is_logged = inr f.is_logged;
  same_state = f.same_state;
  same_browser = f.same_browser;
  same_verifier = f.same_verifier;
  expiry = f.expiry;
}

module _ (sha256 encode : String → String) (len : String → ℕ) (trim : String → String)
    (parse : String → Option Url) where
  -- Every pending login stems from a start of the history.
  pub Reachable-StemsFrom :
      {log : List Issued} {n : ℕ} {g : GithubAuth}
      → Reachable sha256 encode len trim parse log n g
      → (state : String) (p : GithubPending) → lookup state g.pending ≡ some p
      → StemsFrom sha256 log state p
  unfolding step end_callback issue
  Reachable-StemsFrom (start cfg secure_cookie g h) state p e =
      let none_ = (new_github_auth_lem trim parse cfg secure_cookie g h).pending in
      let e' : none ≡ some p = rw none_ at e in absurd (ground (arith, e'))
  Reachable-StemsFrom (next {log = log} {n = n} {g = g} r (starts i) c) state p e =
      let b = Reachable-IsBounded_login sha256 encode len trim parse r in
      elim (issue_pending sha256 encode i g state p b.pending_unique e) [
        | inl old ↦ older sha256 log i state p (Reachable-StemsFrom r state p old)
        | inr (same, new) ↦ rw new (record {
          source = i;
          is_logged = inl refl;
          same_state = same;
          same_browser = refl;
          same_verifier = refl;
          expiry = refl;
        })
      ]
  Reachable-StemsFrom (next {g = g} r (begins q now) c) state p e =
      elim (begin-Moves sha256 len q now g).pending [
        | inl same ↦ Reachable-StemsFrom r state p (rw same at e)
        | inr fewer ↦
            let taken = or_empty (lookup "state" q.query) in
            let e' : lookup state (erase taken g.pending) ≡ some p = rw fewer at e in
            Reachable-StemsFrom r state p (ground (arith, e', lookup-erase state taken g.pending))
      ]
  Reachable-StemsFrom (next r (ends q none tok done now s) c) state p e =
      Reachable-StemsFrom r state p e
  Reachable-StemsFrom (next r (ends q (some id) tok done now s) c) state p e =
      Reachable-StemsFrom r state p e

-- What a state that was taken was.
pub record Taken (sha256 : String → String) (state browser : String) (now : ℕ) (g : GithubAuth)
    (p : GithubPending) : Type 0 where
  pub found : lookup state g.pending ≡ some p
  pub live : now < p.expires
  pub named : browser ≢ ""
  pub hash : sha256 browser ≡ p.browser_hash
  pub erased : (take sha256 state browser now g).0.pending ≡ erase state g.pending

pub take-Taken :
    (sha256 : String → String) (state browser : String) (now : ℕ) (g : GithubAuth)
    (p : GithubPending)
    → (take sha256 state browser now g).1 ≡ some p
    → Taken sha256 state browser now g p
unfolding take is_foreign
take-Taken sha256 state browser now g p h = elim (Option-cases (lookup state g.pending)) [
  | inl e ↦ absurd (ground (arith, h, e))
  | inr (q, e) ↦ elim (Bool-cases (is_expired now q)) [
    | inl over ↦ absurd (ground (arith, h, e, over))
    | inr live ↦ elim (Bool-cases (is_foreign sha256 browser q)) [
      | inl other ↦ absurd (ground (arith, h, e, live, other))
      | inr own ↦
          let same : q ≡ p = ground (arith, h, e, live, own) in
          simp (sym same) (record {
            found = e;
            live = ground (arith, live);
            named = λ n. absurd (ground (arith, own, text_key.same_iff browser ""));
            hash = ground (arith, own, text_key.same_iff (sha256 browser) q.browser_hash);
            erased = rw (take, e, live, own) refl;
          })
    ]
  ]
]
