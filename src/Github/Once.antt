-- ===== src/Github/Once.antt =====
-- A state serves the browser that started it, and once.
use dingzi.Base.{
  ℕ, ◌+◌, ◌<◌, ◌≡◌, ◌≢◌, sym, ◌∙◌, inl, inr, refl, Option, none, some, List, [], ◌∷◌, String, arith,
  All, ==_refl, Occurs, text_key,
}
use dingzi.Base.Table.{Table, lookup, lookup-erase}
use dingzi.Base.Table.Sweep.{sweep}
use dingzi.Web.{Url}
use dingzi.Github.{GithubAuth, GithubPending, issue, take, github_state_ttl, is_expired}
use dingzi.Github.Callback.{end_callback, or_empty}
use dingzi.Github.Events.{Issued, Event, starts, begins, ends, step, run, Reachable}
use dingzi.Github.States.{begin-Moves}
use dingzi.Github.Single.{take-Taken, Reachable-StemsFrom}

module _ (sha256 encode : String → String) (len : String → ℕ) (trim : String → String)
    (parse : String → Option Url) where
  -- A state that is taken, after any history, was started within the five minutes before, with the
  -- verifier that the callback gets, from a browser whose cookie has the digest of this one's, which
  -- is not empty.
  pub take-Occurs :
      {log : List Issued} {n : ℕ} {g : GithubAuth}
      → Reachable sha256 encode len trim parse log n g
      → (state browser : String) (now : ℕ) (p : GithubPending)
      → (take sha256 state browser now g).1 ≡ some p
      → (browser ≢ "")
        × ((i : Issued) × Occurs i log
            × (i.state ≡ state)
            × (sha256 i.browser ≡ sha256 browser)
            × (i.verifier ≡ p.verifier)
            × (now < i.now + github_state_ttl))
  take-Occurs {g = g} r state browser now p h =
      let t = take-Taken sha256 state browser now g p h in
      let f = Reachable-StemsFrom sha256 encode len trim parse r state p t.found in
      (
        t.named,
        (
          f.source,
          f.is_logged,
          f.same_state,
          sym f.same_browser ∙ sym t.hash,
          sym f.same_verifier,
          omega (arith, t.live, f.expiry),
        ),
      )

-- The events that do not start a login with the state.
abbrev pub Spares : String → Event → Type 0
Spares state (starts i) = i.state ≢ state
Spares state (begins r now) = Unit
Spares state (ends r answer tok done now s) = Unit

sweep_absent :
    (k : String) (now : ℕ) (m : Table String GithubPending)
    → lookup k m ≡ none
    → lookup k (sweep (is_expired now) m) ≡ none
sweep_absent k now [] h = refl
sweep_absent k now ((j, p) ∷ m) h = ground (arith, sweep_absent k now m)

take_absent :
    (sha256 : String → String) (state browser : String) (now : ℕ) (g : GithubAuth)
    → lookup state g.pending ≡ none
    → take sha256 state browser now g ≡ (g, none)
unfolding take
take_absent sha256 state browser now g h = rw (h, take) refl

module _ (sha256 encode : String → String) (len : String → ℕ) where
  step_absent :
      (state : String) (g : GithubAuth) (e : Event)
      → Spares state e
      → lookup state g.pending ≡ none
      → lookup state (step sha256 encode len g e).pending ≡ none
  unfolding step issue end_callback
  step_absent state g (starts i) a h =
      let old = sweep (is_expired i.now) g.pending in
      ground (
        arith,
        sweep_absent state i.now g.pending h,
        lookup-erase state i.state old,
        text_key.same_iff i.state state,
      )
  step_absent state g (begins r now) a h = elim (begin-Moves sha256 len r now g).pending [
    | inl e ↦ rw e h
    | inr e ↦
        rw e (ground (arith, h, lookup-erase state (or_empty (lookup "state" r.query)) g.pending))
  ]
  step_absent state g (ends r none tok done now s) a h = h
  step_absent state g (ends r (some id) tok done now s) a h = h

  run_absent :
      (state : String) (g : GithubAuth) (events : List Event)
      → All (Spares state) events
      → lookup state g.pending ≡ none
      → lookup state (run sha256 encode len g events).pending ≡ none
  unfolding run
  run_absent state g [] a h = h
  run_absent state g (e ∷ events) a h =
      run_absent state (step sha256 encode len g e) events a.1 (step_absent state g e a.0 h)

  -- Once taken, a state is refused to every browser, whatever happens in between but a new start
  -- with the same random text.
  pub take_once :
      (state browser again : String) (now later : ℕ) (g : GithubAuth) (p : GithubPending)
      (events : List Event)
      → (take sha256 state browser now g).1 ≡ some p
      → All (Spares state) events
      → let after = run sha256 encode len (take sha256 state browser now g).0 events in
        take sha256 state again later after ≡ (after, none)
  take_once state browser again now later g p events h a =
      let t = take-Taken sha256 state browser now g p h in
      let gone : lookup state (take sha256 state browser now g).0.pending ≡ none =
        rw t.erased (ground (arith, lookup-erase state state g.pending, ==_refl state)) in
      take_absent sha256 state again later _ (run_absent state _ events a gone)
