-- ===== src/Terminals/Claim.antt =====
-- Claiming a token, giving a slot back and tracking a connection.
use dingzi.Base.{
  ℕ, suc, ◌+◌, ◌≤◌, ◌<◌, ◌≡◌, refl, none, some, ◌⊎◌, String, arith, if◌then◌else◌, number_key,
  text_key, ◌==◌, ==_refl, Bool-cases, Option-cases, inl, inr, ltb→lt,
}
use dingzi.Base.Table.{lookup, erase, Table, lookup-erase, erase-IsUnique}
use dingzi.Terminals.{
  TerminalRegistry, PendingTerminal, forget, is_stale, or_zero, claim, release, track,
  terminal_token_ttl,
}
use dingzi.Terminals.Forget.{sessions}
use dingzi.Terminals.Invariant.{IsValid, forget-IsValid, owned-forget, pending-forget, slot-forget}

-- A claim in time takes the session out of the pending ones and nothing else.
take_pending-IsValid :
    (tok : String) (reg : TerminalRegistry)
    → IsValid reg
    → IsValid (record reg { pending = erase tok reg.pending })
take_pending-IsValid tok reg v = record {
  consistent = record {
    owned_unique = v.owned_unique;
    pending_unique = erase-IsUnique tok reg.pending v.pending_unique;
    total_counts = v.total_counts;
    per_machine_counts = v.per_machine_counts;
    pending_owned = λ t p h. ground (arith, lookup-erase t tok reg.pending, v.pending_owned t p);
    connections_owned = v.connections_owned;
  };
  total_capped = v.total_capped;
  machine_capped = v.machine_capped;
}

pub claim-IsValid :
    (tok : String) (now : ℕ) (reg : TerminalRegistry) → IsValid reg → IsValid (claim tok now reg).0
unfolding claim
claim-IsValid tok now reg v = elim (Option-cases (lookup tok reg.pending)) [
  | inl e ↦ rw (e, claim) v
  | inr (p, e) ↦ elim (Bool-cases (is_stale now p)) [
    | inl stale ↦
        rw (e, claim, stale) (forget-IsValid tok p.machine_id reg v (v.pending_owned tok p e))
    | inr live ↦ rw (e, claim, live) (take_pending-IsValid tok reg v)
  ]
]

pub release-IsValid :
    (tok : String) (m : ℕ) (reg : TerminalRegistry)
    → IsValid reg
    → ((owner : ℕ) → lookup tok reg.owned ≡ some owner → owner ≡ m)
    → IsValid (release tok m reg)
unfolding release
release-IsValid tok m reg v mine = elim (Option-cases (lookup tok reg.owned)) [
  | inl e ↦ rw (e, release) v
  | inr (owner, e) ↦ rw (e, release) (forget-IsValid tok m reg v (rw (← mine owner e) e))
]

pub track-IsValid :
    (tok : String) (conn : ℕ) (reg : TerminalRegistry)
    → IsValid reg
    → IsValid (track tok conn reg).0
unfolding track
track-IsValid tok conn reg v = elim (Option-cases (lookup tok reg.owned)) [
  | inl e ↦
      rw (e, track)
        (record {
          consistent = record {
            owned_unique = v.owned_unique;
            pending_unique = v.pending_unique;
            total_counts = v.total_counts;
            per_machine_counts = v.per_machine_counts;
            pending_owned = v.pending_owned;
            connections_owned = v.connections_owned;
          };
          total_capped = v.total_capped;
          machine_capped = v.machine_capped;
        })
  | inr (owner, e) ↦
      rw (e, track)
        (record {
          consistent = record {
            owned_unique = v.owned_unique;
            pending_unique = v.pending_unique;
            total_counts = v.total_counts;
            per_machine_counts = v.per_machine_counts;
            pending_owned = v.pending_owned;
            connections_owned = λ t h. ground (
              arith,
              lookup-erase t tok reg.connections,
              text_key.same_iff tok t,
              v.connections_owned t,
            );
          };
          total_capped = v.total_capped;
          machine_capped = v.machine_capped;
        })
]

pub claim_absent :
    (tok : String) (now : ℕ) (reg : TerminalRegistry)
    → lookup tok reg.pending ≡ none
    → claim tok now reg ≡ (reg, none)
unfolding claim
claim_absent tok now reg h = rw (h, claim)

pub claim-pending :
    (tok : String) (now : ℕ) (reg : TerminalRegistry)
    → lookup tok (claim tok now reg).0.pending ≡ none
unfolding claim forget
claim-pending tok now reg = elim (Option-cases (lookup tok reg.pending)) [
  | inl e ↦ rw (e, claim) e
  | inr (p, e) ↦ ground (arith, e, lookup-erase tok tok reg.pending, text_key.same_iff tok tok)
]

-- What a claim does on each branch, in a registry that is valid: an unknown token changes nothing;
-- a token older than the limit is refused, its session is forgotten, and its slot is given back in
-- both counters, the total and that of its machine; a token in time is handed over, and the session
-- keeps its slot and its owner.
pub claim-cases :
    (tok : String) (now : ℕ) (reg : TerminalRegistry)
    → IsValid reg
    → let (after, result) = claim tok now reg in
      ((lookup tok reg.pending ≡ none) × (result ≡ none) × (after ≡ reg))
      ⊎ ((p : PendingTerminal) × (lookup tok reg.pending ≡ some p)
          × (p.created + terminal_token_ttl < now)
          × (result ≡ none)
          × (lookup tok after.pending ≡ none)
          × (lookup tok after.owned ≡ none)
          × (sessions p.machine_id reg ≡ suc (sessions p.machine_id after))
          × (reg.total ≡ suc after.total)
          × (or_zero (lookup p.machine_id reg.per_machine)
              ≡ suc (or_zero (lookup p.machine_id after.per_machine))))
      ⊎ ((p : PendingTerminal) × (lookup tok reg.pending ≡ some p)
          × (now ≤ p.created + terminal_token_ttl)
          × (result ≡ some p)
          × (lookup tok after.pending ≡ none)
          × (lookup tok after.owned ≡ some p.machine_id)
          × (sessions p.machine_id reg ≡ sessions p.machine_id after)
          × (after.total ≡ reg.total)
          × (after.per_machine ≡ reg.per_machine))
unfolding claim
claim-cases tok now reg v = elim (Option-cases (lookup tok reg.pending)) [
  | inl e ↦ rw (e, claim) (inl (refl, refl, refl))
  | inr (p, e) ↦ elim (Bool-cases (is_stale now p)) [
    | inl stale ↦
        let own = v.pending_owned tok p e in
        let (owners, total, of_machine) = slot-forget tok p.machine_id reg v own in
        rw (e, claim, stale)
          (inr (
            inl (
              p,
              refl,
              ltb→lt _ _ stale,
              refl,
              rw (pending-forget tok p.machine_id reg) (gone reg.pending),
              rw (owned-forget tok p.machine_id reg) (gone reg.owned),
              owners,
              total,
              of_machine,
            )))
    | inr live ↦
        rw (e, claim, live)
          (inr (
            inr (
              p,
              refl,
              ground arith,
              refl,
              gone reg.pending,
              v.pending_owned tok p e,
              refl,
              refl,
              refl,
            )))
  ]
]
  where
    gone : {V : Type 0} → (t : Table String V) → lookup tok (erase tok t) ≡ none
    gone t = ground (arith, lookup-erase tok tok t, text_key.same_iff tok tok)

release_absent :
    (tok : String) (m : ℕ) (reg : TerminalRegistry)
    → lookup tok reg.owned ≡ none
    → release tok m reg ≡ reg
unfolding release
release_absent tok m reg h = rw (h, release)

pub owned-release :
    (tok t : String) (m : ℕ) (reg : TerminalRegistry)
    → lookup t (release tok m reg).owned ≡ (if tok == t then none else lookup t reg.owned)
unfolding release forget
owned-release tok t m reg = elim (Option-cases (lookup tok reg.owned)) [
  | inl e ↦ rw (e, release) (ground (arith, e, text_key.same_iff tok t))
  | inr (o, e) ↦ rw (e, release) (lookup-erase t tok reg.owned)
]

claim_stale :
    (tok : String) (now : ℕ) (reg : TerminalRegistry) (p : PendingTerminal)
    → lookup tok reg.pending ≡ some p
    → p.created + terminal_token_ttl < now
    → lookup tok (claim tok now reg).0.owned ≡ none
unfolding claim forget
claim_stale tok now reg p e old =
    ground (arith, lookup-erase tok tok reg.owned, text_key.same_iff tok tok)

-- A slot is given back once: a second release, by whichever handler comes last, changes nothing;
-- nor does one that follows a claim that found the token too old.
pub release_once :
    (tok : String) (m n : ℕ) (reg : TerminalRegistry)
    → (release tok n (release tok m reg) ≡ release tok m reg)
      × ((now : ℕ) (p : PendingTerminal)
          → lookup tok reg.pending ≡ some p
          → p.created + terminal_token_ttl < now
          → release tok n (claim tok now reg).0 ≡ (claim tok now reg).0)
release_once tok m n reg = (
  release_absent tok n (release tok m reg) (rw (owned-release tok tok m reg, ==_refl tok)),
  λ now p e old. release_absent tok n (claim tok now reg).0 (claim_stale tok now reg p e old),
)
