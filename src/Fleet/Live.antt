-- ===== src/Fleet/Live.antt =====
-- Samples and views: what a report changes, when a machine counts as online, and the order of the
-- list of machines.
use dingzi.Base.{
  ℕ, ◌+◌, ◌-◌, ◌≤◌, ◌<◌, ◌≡◌, ◌≢◌, ◌↔◌, inl, inr, refl, none, some, [], ◌∷◌, ◌++◌, arith, text_key,
  number_key, true, Option-cases, ==_refl,
}
use dingzi.Ring.{latest}
use dingzi.Ring.Refine.{recent as recent_entries, push_refines}
use dingzi.Ring.Window.{IsValid}
use dingzi.Traffic.{accumulate}
use dingzi.Fleet.{Hub, Machine, MachineView, Sample, State, get, change}
use dingzi.Fleet.Reports.{rate, derive, absorb, push_sample, samples, view_of, view}
use dingzi.Fleet.Coherence.{IsCoherent, get-change}

module _ {Float : Type 0} (quotient : ℕ → ℕ → ℕ) (blank : Sample Float) where
  -- A report for a machine appends the derived sample to its history, dropping the oldest beyond
  -- RingSize, folds the counters into its traffic, and leaves the other machines as they were.
  pub push_sample_lem :
      (id at : ℕ) (st : State Float) (m : Machine Float) (h : Hub Float)
      → IsCoherent h
      → get id h ≡ some m
      → IsValid m.samples
      → let (after, made) = push_sample quotient blank id st at h in
        (made ≡ some (derive quotient blank m st at))
        × (samples blank id after
            ≡ recent_entries (samples blank id h ++ derive quotient blank m st at ∷ []))
        × ((m' : Machine Float)
            → get id after ≡ some m'
            → (m'.traffic ≡ accumulate st.net_in_transfer st.net_out_transfer at m.traffic)
              × (m'.last_seen ≡ at)
              × (m'.conn ≡ m.conn))
        × ((j : ℕ) → j ≢ id → get j after ≡ get j h)
  unfolding push_sample samples absorb
  push_sample_lem id at st m h v e ok =
      let g : get id (change id (absorb quotient blank st at) h)
          ≡ some (absorb quotient blank st at m) =
        rw (get-change id id (absorb quotient blank st at) h v, ==_refl id, e) refl in
      rw (e, push_sample)
        (
          refl,
          rw (e, g, samples) (push_refines blank (derive quotient blank m st at) m.samples ok),
          λ m' e'. ground (arith, g),
          λ j ne. ground (arith, get-change j id (absorb quotient blank st at) h v),
        )

  -- A counter that went backwards, a first report and a clock that stands still give no speed;
  -- otherwise the speeds are the quotients of the distances and the time between the samples.
  pub derive_speed :
      (m : Machine Float) (st : State Float) (at : ℕ)
      → let s = derive quotient blank m st at in
        (latest blank m.samples ≡ none → (s.net_in_speed ≡ 0) × (s.net_out_speed ≡ 0))
        × ((prev : Sample Float)
            → latest blank m.samples ≡ some prev
            → (at ≤ prev.at → (s.net_in_speed ≡ 0) × (s.net_out_speed ≡ 0))
              × (st.net_in_transfer < prev.state.net_in_transfer → s.net_in_speed ≡ 0)
              × (prev.at < at
                  → (d : ℕ) → st.net_in_transfer ≡ prev.state.net_in_transfer + d
                  → s.net_in_speed ≡ quotient d (at - prev.at)))
  unfolding derive rate
  derive_speed m st at = elim (Option-cases (latest blank m.samples)) [
    | inl e ↦ (λ g. rw (e, derive) (refl, refl), λ prev g. absurd (ground (arith, e)))
    | inr (p, e) ↦ (
      λ g. absurd (ground (arith, e)),
      λ prev g.
          let same : p ≡ prev = ground (arith, e) in
          rw (e, derive, same)
            (
              λ le. ground arith,
              λ lt. ground arith,
              λ lt d more.
                  let d_eq : d ≡ st.net_in_transfer - prev.state.net_in_transfer =
                    omega (arith, more) in
                  rw d_eq (ground arith),
            ),
    )
  ]

module _ {Float : Type 0} (blank : Sample Float) where
  -- A machine counts as online exactly when it has a connection, was seen within the timeout, and
  -- its latest sample, if it has one, is within the timeout too.
  pub online_iff :
      (id now : ℕ) (m : Machine Float) (h : Hub Float)
      → get id h ≡ some m
      → (w : MachineView Float) × (view blank id now h ≡ some w)
        × ((w.online ≡ true) ↔ (
            ((c : ℕ) × (m.conn ≡ some c))
            × (now ≤ m.last_seen + h.sample_timeout)
            × ((s : Sample Float)
                → latest blank m.samples ≡ some s
                → now ≤ s.at + h.sample_timeout)))
  unfolding view view_of
  online_iff id now m h e = (
    view_of blank h.sample_timeout now m,
    rw (e, view) refl,
    elim (Option-cases m.conn) [
      | inl off ↦
          rw (off, view_of)
            (λ on. absurd (ground arith), λ ((c, held), _, _). absurd (ground arith))
      | inr (c, held) ↦ elim (Option-cases (latest blank m.samples)) [
        | inl none_yet ↦
            rw (held, none_yet, view_of)
              (
                λ on. ((c, refl), ground arith, λ s g. absurd (ground arith)),
                λ (_, seen, _). ground arith,
              )
        | inr (s, now_s) ↦
            rw (held, now_s, view_of)
              (
                λ on. ((c, refl), ground arith, λ s' g. ground arith),
                λ (_, seen, fresh). ground (arith, fresh s refl),
              )
      ]
    ],
  )
