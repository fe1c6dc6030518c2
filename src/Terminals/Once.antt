-- ===== src/Terminals/Once.antt =====
-- A token is claimed once, over the calls that come between.
use dingzi.Base.{
  ℕ, ◌≡◌, ◌≢◌, none, List, [], ◌∷◌, String, arith, text_key, number_key, Bool-cases, Option-cases,
  inl, inr, All,
}
use dingzi.Base.Table.{Table, lookup, lookup-erase}
use dingzi.Terminals.{
  TerminalRegistry, PendingTerminal, forget, is_stale, expire_from, expire, admit, reserve_slot,
  reserve, claim, release, track, is_spared, close_from, close_machine,
}
use dingzi.Terminals.Invariant.{pending-forget}
use dingzi.Terminals.Claim.{claim_absent, claim-pending}
use dingzi.Terminals.History.{Call, step, reserves, claims, releases, tracks, closes_machine}

-- Several calls, the first of the list first.
unfoldable pub run : TerminalRegistry → List Call → TerminalRegistry
run reg [] = reg
run reg (c ∷ calls) = run (step reg c) calls

-- The calls that do not reserve the token.
abbrev pub Spares : String → Call → Type 0
Spares k (reserves tok m now) = tok ≢ k
Spares k (claims tok now) = Unit
Spares k (releases tok m) = Unit
Spares k (tracks tok conn) = Unit
Spares k (closes_machine id) = Unit

forget_absent :
    (k tok : String) (m : ℕ) (reg : TerminalRegistry)
    → lookup k reg.pending ≡ none
    → lookup k (forget tok m reg).pending ≡ none
forget_absent k tok m reg h =
    rw (pending-forget tok m reg) (ground (arith, h, lookup-erase k tok reg.pending))

expire_from_absent :
    (k : String) (now : ℕ) (l : Table String PendingTerminal) (reg : TerminalRegistry)
    → lookup k reg.pending ≡ none
    → lookup k (expire_from now l reg).pending ≡ none
unfolding expire_from
expire_from_absent k now [] reg h = h
expire_from_absent k now ((t, p) ∷ rest) reg h = elim (Bool-cases (is_stale now p)) [
  | inl stale ↦
      rw (stale, expire_from)
        (expire_from_absent k now rest (forget t p.machine_id reg)
          (forget_absent k t p.machine_id reg h))
  | inr fresh ↦ rw (fresh, expire_from) (expire_from_absent k now rest reg h)
]

close_from_absent :
    (k : String) (id : ℕ) (l : Table String ℕ) (reg : TerminalRegistry)
    → lookup k reg.pending ≡ none
    → lookup k (close_from id l reg).pending ≡ none
unfolding close_from
close_from_absent k id [] reg h = h
close_from_absent k id ((t, m) ∷ rest) reg h = elim (Bool-cases (is_spared id m)) [
  | inl spared ↦ rw (spared, close_from) (close_from_absent k id rest reg h)
  | inr closed ↦
      rw (closed, close_from)
        (close_from_absent k id rest (forget t m reg) (forget_absent k t m reg h))
]

reserve_slot_absent :
    (k tok : String) (m now : ℕ) (reg : TerminalRegistry)
    → tok ≢ k
    → lookup k reg.pending ≡ none
    → lookup k (reserve_slot tok m now reg).0.pending ≡ none
unfolding reserve_slot admit
reserve_slot_absent k tok m now reg ne h =
    ground (arith, h, lookup-erase k tok reg.pending, text_key.same_iff tok k)

claim_keeps_absent :
    (k tok : String) (now : ℕ) (reg : TerminalRegistry)
    → lookup k reg.pending ≡ none
    → lookup k (claim tok now reg).0.pending ≡ none
unfolding claim
claim_keeps_absent k tok now reg h = elim (Option-cases (lookup tok reg.pending)) [
  | inl e ↦ rw (e, claim) h
  | inr (p, e) ↦ elim (Bool-cases (is_stale now p)) [
    | inl stale ↦ rw (e, claim, stale) (forget_absent k tok p.machine_id reg h)
    | inr live ↦ rw (e, claim, live) (ground (arith, h, lookup-erase k tok reg.pending))
  ]
]

step_absent :
    (k : String) (reg : TerminalRegistry) (c : Call)
    → Spares k c
    → lookup k reg.pending ≡ none
    → lookup k (step reg c).pending ≡ none
unfolding step reserve release track close_machine expire
step_absent k reg (reserves tok m now) ne h =
    reserve_slot_absent k tok m now (expire now reg) ne (expire_from_absent k now reg.pending reg h)
step_absent k reg (claims tok now) a h = claim_keeps_absent k tok now reg h
step_absent k reg (releases tok m) a h = elim (Option-cases (lookup tok reg.owned)) [
  | inl e ↦ rw (e, release) h
  | inr (owner, e) ↦ rw (e, release) (forget_absent k tok m reg h)
]
step_absent k reg (tracks tok conn) a h = ground (arith, h)
step_absent k reg (closes_machine id) a h = close_from_absent k id reg.owned reg h

run_absent :
    (k : String) (reg : TerminalRegistry) (calls : List Call)
    → All (Spares k) calls
    → lookup k reg.pending ≡ none
    → lookup k (run reg calls).pending ≡ none
unfolding run
run_absent k reg [] a h = h
run_absent k reg (c ∷ calls) a h = run_absent k (step reg c) calls a.1 (step_absent k reg c a.0 h)

-- A token is good for one claim: whatever the first claim answered and whatever calls come between,
-- as long as none reserves the token again, a later claim is refused and changes nothing.
pub claim_once :
    (tok : String) (now later : ℕ) (reg : TerminalRegistry) (calls : List Call)
    → All (Spares tok) calls
    → let after = run (claim tok now reg).0 calls in claim tok later after ≡ (after, none)
claim_once tok now later reg calls a =
    claim_absent tok later (run (claim tok now reg).0 calls)
      (run_absent tok (claim tok now reg).0 calls a (claim-pending tok now reg))
