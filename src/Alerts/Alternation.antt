-- ===== src/Alerts/Alternation.antt =====
-- The transitions of one rule: they alternate, and which evaluations make them.
use dingzi.Base.{
  ℕ, ◌+◌, ◌≤◌, ◌≡◌, ◌≢◌, ◌⊎◌, inl, inr, refl, Option, none, some, List, [], ◌∷◌, arith, Bool, true,
  false,
}
use dingzi.Alerts.{
  AlertRule, AlertState, zero_state, Transition, firing, recovered, is_firing, since_of, transition,
  judge,
}
use dingzi.Alerts.Duration.{kept, emitted}

-- Latest first: the first of all is `firing`, and no two neighbours are the same.
abbrev pub Alternating : List Transition → Type 0
Alternating [] = Unit
Alternating (t ∷ []) = t ≡ firing
Alternating (t ∷ u ∷ l) = (t ≢ u) × Alternating (u ∷ l)

abbrev pub logged : Option Transition → List Transition → List Transition
logged none log = log
logged (some t) log = t ∷ log

abbrev pub latest_is_firing : List Transition → Bool
latest_is_firing [] = false
latest_is_firing (firing ∷ l) = true
latest_is_firing (recovered ∷ l) = false

firing_next :
    (log : List Transition)
    → Alternating log
    → latest_is_firing log ≡ false
    → Alternating (firing ∷ log)
firing_next [] a e = refl
firing_next (firing ∷ l) a e = absurd (ground arith)
firing_next (recovered ∷ l) a e = (λ same. absurd (ground arith), a)

recovered_next :
    (log : List Transition)
    → Alternating log
    → latest_is_firing log ≡ true
    → Alternating (recovered ∷ log)
recovered_next [] a e = absurd (ground arith)
recovered_next (firing ∷ l) a e = (λ same. absurd (ground arith), a)
recovered_next (recovered ∷ l) a e = absurd (ground arith)

module _ {Value : Type 0} (reaches : Value → Value → Bool) (a : AlertRule Value) where
  -- The rows of a rule and the transitions recorded, latest first.
  pub data Log : AlertState → List Transition → Type 0 where
    start : Log zero_state []
    next :
        {st : AlertState} {log : List Transition}
        → Log st log
        → (now : ℕ) → (value : Option Value)
        → Log
            (kept st (judge reaches a now value st))
            (logged (emitted (judge reaches a now value st)) log)

  -- What an evaluation does to `active`.
  judge_active :
      (now : ℕ) (value : Option Value) (st : AlertState)
      → ((emitted (judge reaches a now value st) ≡ none)
          × ((kept st (judge reaches a now value st)).active ≡ st.active))
        ⊎ ((emitted (judge reaches a now value st) ≡ some firing)
            × (st.active ≡ false)
            × ((kept st (judge reaches a now value st)).active ≡ true))
        ⊎ ((emitted (judge reaches a now value st) ≡ some recovered)
            × (st.active ≡ true)
            × ((kept st (judge reaches a now value st)).active ≡ false))
  unfolding judge transition
  judge_active now value st = ground arith

  -- In any history of evaluations the transitions of a rule alternate, `firing` first, and the rule
  -- is active exactly when the latest is `firing`: no alert is repeated, and none recovers twice.
  pub alternates :
      {st : AlertState} {log : List Transition}
      → Log st log
      → Alternating log × (st.active ≡ latest_is_firing log)
  alternates start = (tt, refl)
  alternates (next {st = st} {log = log} l now value) =
      let (alt, is) = alternates l in
      elim (judge_active now value st) [
        | inl (quiet, same) ↦ rw (quiet, same) (alt, is)
        | inr (inl (fires, off, on)) ↦ rw (fires, on) (firing_next log alt (ground arith), refl)
        | inr (inr (ends, on, off)) ↦ rw (ends, off) (recovered_next log alt (ground arith), refl)
      ]

  -- A rule that is not active fires as soon as its condition holds at evaluations without a gap for
  -- its duration; an active one recovers at the first known observation that does not meet its
  -- condition; an unknown observation makes no transition.
  pub judge_complete :
      (now : ℕ) (st : AlertState)
      → ((value : Option Value)
          → st.active ≡ false
          → st.since ≢ 0
          → st.last_eval ≢ 0
          → now ≤ st.last_eval + 15
          → is_firing reaches a value ≡ true
          → st.since + a.duration_seconds ≤ now
          → emitted (judge reaches a now value st) ≡ some firing)
        × ((value : Value)
            → st.active ≡ true
            → reaches value a.threshold ≡ false
            → emitted (judge reaches a now (some value) st) ≡ some recovered)
        × ((emitted (judge reaches a now none st) ≡ none)
            × ((kept st (judge reaches a now none st)).active ≡ st.active))
  unfolding judge transition since_of
  judge_complete now st = (
    λ value off ne seen near on long. ground arith,
    λ value on off. ground arith,
    (ground arith, ground arith),
  )
