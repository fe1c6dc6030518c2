-- ===== src/Terminals/Invariant.antt =====
-- The caps and counters of the registry over every history of calls.
use dingzi.Base.{
  suc, ap, length, ℕ, ◌+◌, ◌≤◌, ◌≡◌, refl, some, [], ◌∷◌, String, arith, eqb, if◌then◌else◌,
  number_key, text_key, Bool-cases, inl, inr,
}
use dingzi.Base.Table.{Table, lookup, erase, IsUnique}
use dingzi.Base.Table.Counts.{
  count-erase_present, length-erase_present, Within, Within-erase, Within-tail, Within-head,
}
use dingzi.Terminals.{
  TerminalRegistry, PendingTerminal, or_zero, forget, new_terminal_registry, is_stale, is_spared,
  expire_from, expire, close_from, close_machine, max_terminals_total, max_terminals_per_machine,
}
use dingzi.Terminals.Forget.{sessions, IsConsistent, new-IsConsistent, forget-IsConsistent}

pub record IsValid (reg : TerminalRegistry) : Type 0 where
  pub consistent : IsConsistent reg
  pub open consistent use *
  pub total_capped : reg.total ≤ max_terminals_total
  pub machine_capped : (id : ℕ) → sessions id reg ≤ max_terminals_per_machine

pub new-IsValid : IsValid new_terminal_registry
unfolding new_terminal_registry
new-IsValid = record {
  consistent = unfold new_terminal_registry in new-IsConsistent;
  total_capped = omega arith;
  machine_capped = λ id. omega arith;
}

pub sessions-forget :
    (id : ℕ) (tok : String) (m : ℕ) (reg : TerminalRegistry)
    → IsConsistent reg
    → lookup tok reg.owned ≡ some m
    → sessions id reg ≡ (if eqb m id then 1 else 0) + sessions id (forget tok m reg)
unfolding forget
sessions-forget id tok m reg v own =
    count-erase_present (λ x. eqb x id) tok m reg.owned v.owned_unique own

total-forget :
    (tok : String) (m : ℕ) (reg : TerminalRegistry) → (forget tok m reg).total ≤ reg.total
unfolding forget
total-forget tok m reg = ground arith

pub forget-IsValid :
    (tok : String) (m : ℕ) (reg : TerminalRegistry)
    → IsValid reg
    → lookup tok reg.owned ≡ some m
    → IsValid (forget tok m reg)
forget-IsValid tok m reg v own = record {
  consistent = forget-IsConsistent tok m reg v.consistent own;
  total_capped = omega (arith, v.total_capped, total-forget tok m reg);
  machine_capped =
      λ id. omega (arith, v.machine_capped id, sessions-forget id tok m reg v.consistent own);
}

-- The maps after a session is given up, with the counters shut.
pub pending-forget :
    (tok : String) (m : ℕ) (reg : TerminalRegistry)
    → (forget tok m reg).pending ≡ erase tok reg.pending
unfolding forget
pending-forget tok m reg = refl

pub owned-forget :
    (tok : String) (m : ℕ) (reg : TerminalRegistry) → (forget tok m reg).owned ≡ erase tok reg.owned
unfolding forget
owned-forget tok m reg = refl

-- Giving a session up frees one slot of each counter.
pub slot-forget :
    (tok : String) (m : ℕ) (reg : TerminalRegistry)
    → IsValid reg
    → lookup tok reg.owned ≡ some m
    → let after = forget tok m reg in
      (sessions m reg ≡ suc (sessions m after))
      × (reg.total ≡ suc after.total)
      × (or_zero (lookup m reg.per_machine) ≡ suc (or_zero (lookup m after.per_machine)))
slot-forget tok m reg v own =
    let w = forget-IsValid tok m reg v own in
    let fewer : sessions m reg ≡ suc (sessions m (forget tok m reg)) =
      ground (arith, sessions-forget m tok m reg v.consistent own) in
    (
      fewer,
      omega (
        arith,
        v.total_counts,
        w.total_counts,
        length-erase_present tok m reg.owned v.owned_unique own,
        ap length (owned-forget tok m reg),
      ),
      omega (arith, fewer, v.per_machine_counts m, w.per_machine_counts m),
    )

pub expire_from-IsValid :
    (now : ℕ) (l : Table String PendingTerminal) (reg : TerminalRegistry)
    → IsUnique l
    → Within l reg.pending
    → IsValid reg
    → IsValid (expire_from now l reg)
unfolding expire_from
expire_from-IsValid now [] reg u w v = v
expire_from-IsValid now ((t, p) ∷ rest) reg u w v = elim (Bool-cases (is_stale now p)) [
  | inl stale ↦ rw stale (
      expire_from-IsValid now rest (forget t p.machine_id reg) u.1
        (rw (pending-forget t p.machine_id reg) (Within-erase t p rest reg.pending u w))
        (forget-IsValid t p.machine_id reg v
          (v.pending_owned t p (Within-head t p rest reg.pending w))))
  | inr fresh ↦
      rw fresh (expire_from-IsValid now rest reg u.1 (Within-tail t p rest reg.pending u w) v)
]

pub expire-IsValid : (now : ℕ) (reg : TerminalRegistry) → IsValid reg → IsValid (expire now reg)
unfolding expire
expire-IsValid now reg v = expire_from-IsValid now reg.pending reg v.pending_unique (λ k p h. h) v

pub close_from-IsValid :
    (id : ℕ) (l : Table String ℕ) (reg : TerminalRegistry)
    → IsUnique l
    → Within l reg.owned
    → IsValid reg
    → IsValid (close_from id l reg)
unfolding close_from
close_from-IsValid id [] reg u w v = v
close_from-IsValid id ((tok, m) ∷ rest) reg u w v = elim (Bool-cases (is_spared id m)) [
  | inl spared ↦
      rw spared (close_from-IsValid id rest reg u.1 (Within-tail tok m rest reg.owned u w) v)
  | inr hit ↦ rw hit (
      close_from-IsValid id rest (forget tok m reg) u.1
        (rw (owned-forget tok m reg) (Within-erase tok m rest reg.owned u w))
        (forget-IsValid tok m reg v (Within-head tok m rest reg.owned w)))
]

pub close_machine-IsValid :
    (id : ℕ) (reg : TerminalRegistry) → IsValid reg → IsValid (close_machine id reg)
unfolding close_machine
close_machine-IsValid id reg v = close_from-IsValid id reg.owned reg v.owned_unique (λ k m h. h) v
