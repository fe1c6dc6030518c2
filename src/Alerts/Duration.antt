-- ===== src/Alerts/Duration.antt =====
-- A rule fires only when its condition held for its duration, seen without a gap.
use dingzi.Base.{
  ℕ, ◌+◌, ◌≤◌, ◌≡◌, ◌≢◌, ◌⊎◌, inl, inr, refl, sym, subst, Option, none, some, List, [], ◌∷◌, arith,
  Bool, true, false, Bool-cases,
}
use dingzi.Alerts.{
  AlertRule, AlertState, zero_state, Transition, firing, is_firing, since_of, transition, judge,
}

-- The row of a rule after an evaluation, and the transition that it recorded.
abbrev pub kept : AlertState → Option (AlertState × Option Transition) → AlertState
kept st none = st
kept st (some (written, state)) = written

abbrev pub emitted : Option (AlertState × Option Transition) → Option Transition
emitted none = none
emitted (some (written, state)) = state

module _ {Value : Type 0} (reaches : Value → Value → Bool) (a : AlertRule Value) where
  -- The rows of a rule after evaluations at the listed times and observations, latest first.
  pub data Trace : AlertState → List (ℕ × Option Value) → Type 0 where
    start : Trace zero_state []
    next :
        {st : AlertState} {seen : List (ℕ × Option Value)}
        → Trace st seen
        → (now : ℕ) → (value : Option Value)
        → Trace (kept st (judge reaches a now value st)) ((now, value) ∷ seen)

  -- The condition was seen to hold at `last`, at `since`, and between them at most 15 seconds apart.
  abbrev pub Held : ℕ → ℕ → List (ℕ × Option Value) → Type 0
  Held since last [] = ⊥
  Held since last ((now, value) ∷ seen) =
      (now ≡ last)
      × (is_firing reaches a value ≡ true)
      × ((now ≡ since) ⊎ ((before : ℕ) × (now ≤ before + 15) × Held since before seen))

  -- What the row of a rule that waits says of the observations.
  abbrev Waits : AlertState → List (ℕ × Option Value) → Type 0
  Waits st seen = st.active ≡ false → st.since ≢ 0 → Held st.since st.last_eval seen

  since_cases :
      (now : ℕ) (value : Option Value) (st : AlertState)
      → st.active ≡ false
      → is_firing reaches a value ≡ true
      → (since_of reaches a now value st ≡ now)
        ⊎ ((since_of reaches a now value st ≡ st.since)
            × (st.since ≢ 0)
            × (now ≤ st.last_eval + 15))
  unfolding since_of
  since_cases now value st off on = ground arith

  since_off :
      (now : ℕ) (value : Option Value) (st : AlertState)
      → is_firing reaches a value ≡ false
      → since_of reaches a now value st ≡ 0
  unfolding since_of
  since_off now value st off = rw (off, since_of) refl

  since-Held :
      (now : ℕ) (value : Option Value) (st : AlertState) (seen : List (ℕ × Option Value))
      → Waits st seen
      → st.active ≡ false
      → is_firing reaches a value ≡ true
      → Held (since_of reaches a now value st) now ((now, value) ∷ seen)
  since-Held now value st seen w off on = elim (since_cases now value st off on) [
    | inl now_is ↦ (refl, on, inl (sym now_is))
    | inr (same, ne, near) ↦ (
      refl,
      on,
      inr (st.last_eval, near, subst (λ s. Held s st.last_eval seen) (sym same) (w off ne)),
    )
  ]

  -- A row that waits after an evaluation was written by it.
  waiting :
      (now : ℕ) (value : Option Value) (st : AlertState)
      → (kept st (judge reaches a now value st)).active ≡ false
      → (kept st (judge reaches a now value st)).since ≢ 0
      → (kept st (judge reaches a now value st)
          ≡ record { since = since_of reaches a now value st; active = false; last_eval = now })
        × (st.active ≡ false)
        × (is_firing reaches a value ≡ true)
  unfolding judge transition
  waiting now value st off ne = elim (Bool-cases (is_firing reaches a value)) [
    | inr not_on ↦ absurd (ground (arith, since_off now value st not_on, not_on))
    | inl on ↦ ground (arith, on)
  ]

  judge-Waits :
      (now : ℕ) (value : Option Value) (st : AlertState) (seen : List (ℕ × Option Value))
      → Waits st seen
      → Waits (kept st (judge reaches a now value st)) ((now, value) ∷ seen)
  judge-Waits now value st seen w off some_since =
      let (same, was_off, on) = waiting now value st off some_since in
      subst (λ s. Held s.since s.last_eval ((now, value) ∷ seen)) (sym same)
        (since-Held now value st seen w was_off on)

  Trace-Waits : {st : AlertState} {seen : List (ℕ × Option Value)} → Trace st seen → Waits st seen
  Trace-Waits start = λ off ne. absurd (ne refl)
  Trace-Waits (next {st = st} {seen = seen} t now value) =
      judge-Waits now value st seen (Trace-Waits t)

  firing_means :
      (now : ℕ) (value : Option Value) (st : AlertState)
      → emitted (judge reaches a now value st) ≡ some firing
      → (st.active ≡ false)
        × (is_firing reaches a value ≡ true)
        × (since_of reaches a now value st + a.duration_seconds ≤ now)
  unfolding judge transition
  firing_means now value st e = ground arith

  -- When a rule fires, there is an earlier time, at least its duration ago, such that its condition
  -- was seen to hold then and now and in between, in evaluations at most 15 seconds apart.
  pub fires_after :
      {st : AlertState} {seen : List (ℕ × Option Value)}
      → Trace st seen
      → (now : ℕ) → (value : Option Value) → emitted (judge reaches a now value st) ≡ some firing
      → (since : ℕ) × (since + a.duration_seconds ≤ now) × Held since now ((now, value) ∷ seen)
  fires_after {st = st} {seen = seen} t now value e =
      let (off, on, long) = firing_means now value st e in
      (since_of reaches a now value st, long, since-Held now value st seen (Trace-Waits t) off on)
