-- ===== src/Terminals/Forget.antt =====
-- The well-formedness of the registry, and that giving up one session keeps it.
use dingzi.Base.{
  ℕ, ◌+◌, ◌-◌, ◌≡◌, refl, none, some, String, arith, eqb, if◌then◌else◌, number_key, text_key,
  length,
}
use dingzi.Base.Table.{Table, lookup, erase, IsUnique, lookup-erase, lookup-insert, erase-IsUnique}
use dingzi.Base.Table.Counts.{count, count-erase_present, length-erase_present}
use dingzi.Terminals.{
  TerminalRegistry, PendingTerminal, or_zero, lower, forget, new_terminal_registry,
}

-- The sessions of one machine, pending and active.
abbrev pub sessions : ℕ → TerminalRegistry → ℕ
sessions id reg = count (λ m. eqb m id) reg.owned

-- The counters say what the maps hold, every pending session is owned by its machine, and only
-- owned sessions have connections.
pub record IsConsistent (reg : TerminalRegistry) : Type 0 where
  pub owned_unique : IsUnique reg.owned
  pub pending_unique : IsUnique reg.pending
  pub total_counts : reg.total ≡ length reg.owned
  pub per_machine_counts : (id : ℕ) → or_zero (lookup id reg.per_machine) ≡ sessions id reg
  pub pending_owned :
      (tok : String) (p : PendingTerminal)
      → lookup tok reg.pending ≡ some p
      → lookup tok reg.owned ≡ some p.machine_id
  pub connections_owned :
      (tok : String) → lookup tok reg.owned ≡ none → lookup tok reg.connections ≡ none

pub new-IsConsistent : IsConsistent new_terminal_registry
unfolding new_terminal_registry
new-IsConsistent = record {
  owned_unique = tt;
  pending_unique = tt;
  total_counts = refl;
  per_machine_counts = λ id. refl;
  pending_owned = λ tok p h. absurd (ground arith);
  connections_owned = λ tok h. refl;
}

-- One slot of one machine is given back, and no other machine's counter moves.
or_zero-lower :
    (id m : ℕ) (t : Table ℕ ℕ)
    → or_zero (lookup id (lower m (or_zero (lookup m t)) t))
      ≡ (if eqb m id then or_zero (lookup m t) - 1 else or_zero (lookup id t))
unfolding lower
or_zero-lower id m t =
    ground (arith, lookup-erase id m t, lookup-insert id m (or_zero (lookup m t) - 1) t)

sessions-erase :
    (id : ℕ) (tok : String) (m : ℕ) (owned : Table String ℕ)
    → IsUnique owned
    → lookup tok owned ≡ some m
    → count (λ x. eqb x id) owned
      ≡ (if eqb m id then 1 else 0) + count (λ x. eqb x id) (erase tok owned)
sessions-erase id tok m owned u h = count-erase_present (λ x. eqb x id) tok m owned u h

module _ (tok : String) (m : ℕ) (reg : TerminalRegistry) (v : IsConsistent reg)
    (own : lookup tok reg.owned ≡ some m) where
  per_machine-forget :
      (id : ℕ)
      → or_zero (lookup id (lower m (or_zero (lookup m reg.per_machine)) reg.per_machine))
        ≡ count (λ x. eqb x id) (erase tok reg.owned)
  per_machine-forget id = ground (
    arith,
    or_zero-lower id m reg.per_machine,
    v.per_machine_counts id,
    v.per_machine_counts m,
    sessions-erase id tok m reg.owned v.owned_unique own,
  )

  -- Giving up an owned session under its own machine keeps the registry consistent.
  pub forget-IsConsistent : IsConsistent (forget tok m reg)
  unfolding forget
  forget-IsConsistent = record {
    owned_unique = erase-IsUnique tok reg.owned v.owned_unique;
    pending_unique = erase-IsUnique tok reg.pending v.pending_unique;
    total_counts =
        ground (arith, v.total_counts, length-erase_present tok m reg.owned v.owned_unique own);
    per_machine_counts = per_machine-forget;
    pending_owned = λ t p h.
        ground (
          arith,
          lookup-erase t tok reg.pending,
          lookup-erase t tok reg.owned,
          v.pending_owned t p,
        );
    connections_owned = λ t h. ground (
      arith,
      lookup-erase t tok reg.connections,
      lookup-erase t tok reg.owned,
      v.connections_owned t,
    );
  }
