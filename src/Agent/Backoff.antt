-- ===== src/Agent/Backoff.antt =====
-- How long the agent waits between connections, and when it stops trying.
use dingzi.Base.{ℕ, ◌+◌, ◌/◌, ◌≤◌, ◌<◌, ◌≡◌, ◌↔◌, none, List, [], ◌∷◌, arith, All}
use dingzi.Agent.{
  Outcome, Running, backoff_min, backoff_max, jitter, settled, round, run, cancelled, fatal,
  interrupted, ended,
}

-- The random part that rand.Int64N may give for each wait.
abbrev pub InRange : (ℕ → ℕ) → List (Outcome × ℕ) → Running → Type 0
InRange grow [] r = Unit
InRange grow ((cancelled, random) ∷ rounds) r = Unit
InRange grow ((fatal msg, random) ∷ rounds) r = Unit
InRange grow ((interrupted uptime, random) ∷ rounds) r = random < settled uptime r.backoff / 2 + 1
InRange grow ((ended uptime, random) ∷ rounds) r =
    (random < settled uptime r.backoff / 2 + 1)
    × InRange grow rounds (round grow (ended uptime) random r)

-- Every session ended in a way after which Run tries again.
abbrev pub Retried : List (Outcome × ℕ) → Type 0
Retried [] = Unit
Retried ((cancelled, random) ∷ rounds) = ⊥
Retried ((fatal msg, random) ∷ rounds) = ⊥
Retried ((interrupted uptime, random) ∷ rounds) = ⊥
Retried ((ended uptime, random) ∷ rounds) = Retried rounds

pub record IsPaced (r : Running) : Type 0 where
  pub low : backoff_min ≤ r.backoff
  pub high : r.backoff ≤ backoff_max
  pub waits : All (λ w. (backoff_min / 2 ≤ w) × (w ≤ backoff_max)) r.waits

settled-bounds :
    (uptime : ℕ) (r : Running)
    → IsPaced r
    → (backoff_min ≤ settled uptime r.backoff) × (settled uptime r.backoff ≤ backoff_max)
settled-bounds uptime r v = let low = v.low in let high = v.high in ground arith

wait-bounds :
    (d random : ℕ)
    → backoff_min ≤ d
    → d ≤ backoff_max
    → random < d / 2 + 1
    → (backoff_min / 2 ≤ jitter random d) × (jitter random d ≤ backoff_max)
unfolding jitter
wait-bounds d random low high h = (omega arith, omega arith)

module _ (grow : ℕ → ℕ) where
  round-IsPaced :
      ((d : ℕ) → d ≤ grow d)
      → (uptime random : ℕ) (r : Running) → random < settled uptime r.backoff / 2 + 1
      → IsPaced r
      → IsPaced (round grow (ended uptime) random r)
  unfolding round
  round-IsPaced more uptime random r h v =
      let (low, high) = settled-bounds uptime r v in
      let grows = more (settled uptime r.backoff) in
      record {
        low = ground arith;
        high = ground arith;
        waits = (wait-bounds (settled uptime r.backoff) random low high h, v.waits);
      }

  -- When a backoff never shrinks by growing and each random part is in its range, then from a backoff
  -- between a second and two minutes and no result yet: the backoff stays between them, every wait is
  -- at least half a second and at most two minutes, and Run has not returned exactly when every
  -- session was one that it tries again after.
  pub run-IsPaced :
      ((d : ℕ) → d ≤ grow d)
      → (rounds : List (Outcome × ℕ)) (r : Running) → r.result ≡ none
      → InRange grow rounds r
      → IsPaced r
      → IsPaced (run grow rounds r) × (((run grow rounds r).result ≡ none) ↔ Retried rounds)
  unfolding run round
  run-IsPaced more [] r e h v = (v, (λ _. tt, λ _. e))
  run-IsPaced more ((cancelled, random) ∷ rounds) r e h v = (
    record { low = v.low; high = v.high; waits = v.waits },
    (λ k. absurd (ground (arith, k)), λ b. absurd b),
  )
  run-IsPaced more ((fatal msg, random) ∷ rounds) r e h v = (
    record { low = v.low; high = v.high; waits = v.waits },
    (λ k. absurd (ground (arith, k)), λ b. absurd b),
  )
  run-IsPaced more ((interrupted uptime, random) ∷ rounds) r e h v =
      let (low, high) = settled-bounds uptime r v in
      (
        record {
          low = low;
          high = high;
          waits = (wait-bounds (settled uptime r.backoff) random low high h, v.waits);
        },
        (λ k. absurd (ground (arith, k)), λ b. absurd b),
      )
  run-IsPaced more ((ended uptime, random) ∷ rounds) r e h v =
      let rest =
        run-IsPaced more rounds (round grow (ended uptime) random r) e h.1
          (round-IsPaced more uptime random r h.0 v) in
      let rest' = rw e at rest in rw e rest'
