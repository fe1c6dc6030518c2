-- ===== src/Terminals/Tests.antt =====
-- Runs of the registry, and each theorem at a concrete input.
use dingzi.Base.{
  ℕ, suc, ◌+◌, ◌≤◌, ◌<◌, ◌≡◌, refl, none, some, List, [], ◌∷◌, ◌⊎◌, text_key, number_key,
}
use dingzi.Base.Table.{lookup}
use dingzi.Terminals.{
  TerminalRegistry, PendingTerminal, or_zero, seconds, new_terminal_registry, reserve, reserve_slot,
  claim, release, track, expire, expire_from, admit, refused, too_many_terminals_here,
  terminal_token_ttl,
}
use dingzi.Terminals.Forget.{sessions}
use dingzi.Terminals.Invariant.{IsValid}
use dingzi.Terminals.Claim.{claim-cases, release_once}
use dingzi.Terminals.Once.{run, claim_once}
use dingzi.Terminals.History.{
  Call, reserves, claims, releases, closes_machine, tracks, step, Reachable, start, next,
  Reachable-IsValid,
}

-- "b" of machine 2 is active with connection 7; "a" of machine 1 waits since second 5.
abbrev busy : TerminalRegistry
busy =
    step (step (step (step new_terminal_registry (reserves "b" 2 0)) (claims "b" 1)) (tracks "b" 7))
      (reserves "a" 1 (seconds 5))

busy-Reachable : Reachable busy
unfolding new_terminal_registry step reserve reserve_slot expire expire_from admit claim track
busy-Reachable =
    next (next (next (next start (reserves "b" 2 0) refl) (claims "b" 1) tt) (tracks "b" 7) tt)
      (reserves "a" 1 (seconds 5)) refl

-- Two sessions, one for each machine.
busy_counts : (busy.total ≡ 2) × (sessions 1 busy ≡ 1) × (sessions 2 busy ≡ 1)
unfolding new_terminal_registry step reserve reserve_slot expire expire_from admit claim track
busy_counts = (refl, refl, refl)

-- The fifth session of one machine is refused.
fifth_refused :
    let four =
      step
        (step
          (step (step new_terminal_registry (reserves "a" 1 0)) (reserves "b" 1 0))
          (reserves "c" 1 0))
        (reserves "d" 1 0) in
    (reserve "e" 1 0 four).1 ≡ refused too_many_terminals_here
unfolding new_terminal_registry step reserve reserve_slot expire expire_from admit
fifth_refused = refl

Reachable-IsValid_example : IsValid busy
Reachable-IsValid_example = Reachable-IsValid busy-Reachable

abbrev between : List Call
between =
    reserves "c" 1 (seconds 6) ∷ claims "a" (seconds 7) ∷ releases "a" 1 ∷ closes_machine 2 ∷ []

claim_once_example :
    let after = run (claim "a" (seconds 6) busy).0 between in
    claim "a" (seconds 8) after ≡ (after, none)
claim_once_example =
    claim_once "a" (seconds 6) (seconds 8) busy between
      ((λ e. cc ((text_key.same_iff "c" "a").1 e)), (tt, (tt, (tt, tt))))

claim-cases_example :
    let (after, result) = claim "a" (seconds 50) busy in
    ((lookup "a" busy.pending ≡ none) × (result ≡ none) × (after ≡ busy))
    ⊎ ((p : PendingTerminal) × (lookup "a" busy.pending ≡ some p)
        × (p.created + terminal_token_ttl < seconds 50)
        × (result ≡ none)
        × (lookup "a" after.pending ≡ none)
        × (lookup "a" after.owned ≡ none)
        × (sessions p.machine_id busy ≡ suc (sessions p.machine_id after))
        × (busy.total ≡ suc after.total)
        × (or_zero (lookup p.machine_id busy.per_machine)
            ≡ suc (or_zero (lookup p.machine_id after.per_machine))))
    ⊎ ((p : PendingTerminal) × (lookup "a" busy.pending ≡ some p)
        × (seconds 50 ≤ p.created + terminal_token_ttl)
        × (result ≡ some p)
        × (lookup "a" after.pending ≡ none)
        × (lookup "a" after.owned ≡ some p.machine_id)
        × (sessions p.machine_id busy ≡ sessions p.machine_id after)
        × (after.total ≡ busy.total)
        × (after.per_machine ≡ busy.per_machine))
claim-cases_example = claim-cases "a" (seconds 50) busy (Reachable-IsValid busy-Reachable)

release_once_example :
    (release "b" 2 (release "b" 2 busy) ≡ release "b" 2 busy)
    × ((now : ℕ) (p : PendingTerminal)
        → lookup "b" busy.pending ≡ some p
        → p.created + terminal_token_ttl < now
        → release "b" 2 (claim "b" now busy).0 ≡ (claim "b" now busy).0)
release_once_example = release_once "b" 2 2 busy
