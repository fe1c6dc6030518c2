-- ===== src/Terminals/Reserve.antt =====
-- Reserving a slot: the caps hold, and a stale reservation does not outlive the next reserve.
use dingzi.Base.{
  ℕ, ◌≤◌, ◌<◌, ◌≡◌, ◌≢◌, refl, Bool, false, none, some, [], ◌∷◌, ◌⊎◌, String, arith, if◌then◌else◌,
  number_key, text_key, inl, inr, text_key,
}
use dingzi.Base.Table.{Table, lookup, IsUnique, lookup-erase, insert-IsUnique, erase_absent}
use dingzi.Terminals.{
  TerminalRegistry, PendingTerminal, or_zero, forget, is_stale, expire_from, expire, admit,
  reserve_slot, reserve, ok, refused, max_terminals_total, max_terminals_per_machine,
  too_many_terminals, too_many_terminals_here,
}
use dingzi.Terminals.Forget.{sessions, IsConsistent}
use dingzi.Terminals.Invariant.{IsValid, expire-IsValid}

module _ (tok : String) (m now : ℕ) (reg : TerminalRegistry) (v : IsValid reg)
    (fresh : lookup tok reg.owned ≡ none) where
  admit-IsConsistent : IsConsistent (admit tok m now reg)
  unfolding admit
  admit-IsConsistent = record {
    owned_unique = insert-IsUnique tok m reg.owned v.owned_unique;
    pending_unique =
        insert-IsUnique tok (record { machine_id = m; created = now }) reg.pending v.pending_unique;
    total_counts = ground (arith, v.total_counts, erase_absent tok reg.owned fresh);
    per_machine_counts = λ id. ground (
      arith,
      lookup-erase id m reg.per_machine,
      v.per_machine_counts id,
      v.per_machine_counts m,
      erase_absent tok reg.owned fresh,
    );
    pending_owned = λ t p h.
        ground (
          arith,
          lookup-erase t tok reg.pending,
          lookup-erase t tok reg.owned,
          v.pending_owned t p,
        );
    connections_owned = λ t h. ground (arith, lookup-erase t tok reg.owned, v.connections_owned t);
  }

  admit-IsValid :
      reg.total < max_terminals_total
      → or_zero (lookup m reg.per_machine) < max_terminals_per_machine
      → IsValid (admit tok m now reg)
  unfolding admit
  admit-IsValid room here = record {
    consistent = admit-IsConsistent;
    total_capped = omega arith;
    machine_capped = λ id.
        ground
          (arith, v.machine_capped id, v.per_machine_counts m, erase_absent tok reg.owned fresh);
  }

  -- The three ways out of the check of the caps.
  reserve_slot-cases :
      ((max_terminals_total ≤ reg.total)
        × (reserve_slot tok m now reg ≡ (reg, refused too_many_terminals)))
      ⊎ ((max_terminals_per_machine ≤ sessions m reg)
          × (reserve_slot tok m now reg ≡ (reg, refused too_many_terminals_here)))
      ⊎ ((reg.total < max_terminals_total)
          × (sessions m reg < max_terminals_per_machine)
          × (reserve_slot tok m now reg ≡ (admit tok m now reg, ok)))
  unfolding reserve_slot
  reserve_slot-cases = ground (arith, v.per_machine_counts m)

  reserve_slot-IsValid : IsValid (reserve_slot tok m now reg).0
  reserve_slot-IsValid = elim reserve_slot-cases [
    | inl (_, e) ↦ rw e v
    | inr (inl (_, e)) ↦ rw e v
    | inr (inr (room, here, e)) ↦ rw e (admit-IsValid room (omega (arith, v.per_machine_counts m)))
  ]

-- What is owned after stale reservations are dropped was owned before.
expire_from-owned :
    (now : ℕ) (l : Table String PendingTerminal) (reg : TerminalRegistry) (tok : String)
    → lookup tok reg.owned ≡ none
    → lookup tok (expire_from now l reg).owned ≡ none
unfolding expire_from
expire_from-owned now [] reg tok h = h
expire_from-owned now ((t, p) ∷ rest) reg tok h =
    expire_from-owned now rest (if is_stale now p then forget t p.machine_id reg else reg) tok
      (unfold forget in ground (arith, lookup-erase tok t reg.owned))

pub reserve-IsValid :
    (tok : String) (m now : ℕ) (reg : TerminalRegistry)
    → IsValid reg
    → lookup tok reg.owned ≡ none
    → IsValid (reserve tok m now reg).0
unfolding reserve
reserve-IsValid tok m now reg v fresh =
    reserve_slot-IsValid tok m now (expire now reg) (expire-IsValid now reg v)
      (unfold expire in expire_from-owned now reg.pending reg tok fresh)

-- Whether the loop over `l` gives up this session.
abbrev gives_up : ℕ → String → Table String PendingTerminal → Bool
gives_up now tok l = elim (lookup tok l) [ none ↦ false | some p ↦ is_stale now p ]

expire_from_maps :
    (now : ℕ) (l : Table String PendingTerminal) (reg : TerminalRegistry) (tok : String)
    → IsUnique l
    → let after = expire_from now l reg in
      (lookup tok after.pending ≡ (if gives_up now tok l then none else lookup tok reg.pending))
      × (lookup tok after.owned ≡ (if gives_up now tok l then none else lookup tok reg.owned))
unfolding expire_from forget
expire_from_maps now [] reg tok u = (refl, refl)
expire_from_maps now ((t, p) ∷ rest) reg tok u = ground (
  arith,
  expire_from_maps now rest (if is_stale now p then forget t p.machine_id reg else reg) tok u.1,
  lookup-erase tok t reg.pending,
  lookup-erase tok t reg.owned,
  text_key.same_iff t tok,
)

-- Reserving first gives up exactly the sessions that have waited longer than the limit, whatever
-- happens to the request itself: any other token is gone if it was pending and stale, and is
-- as it was otherwise.
pub reserve_drops_stale :
    (tok t : String) (m now : ℕ) (reg : TerminalRegistry)
    → IsValid reg
    → lookup tok reg.owned ≡ none
    → tok ≢ t
    → let after = (reserve tok m now reg).0 in
      (lookup t after.pending ≡ (if gives_up now t reg.pending then none else lookup t reg.pending))
      × (lookup t after.owned ≡ (if gives_up now t reg.pending then none else lookup t reg.owned))
unfolding reserve expire admit
reserve_drops_stale tok t m now reg v fresh ne =
    elim (reserve_slot-cases tok m now (expire now reg) (expire-IsValid now reg v)
      (expire_from-owned now reg.pending reg tok fresh)) [
        | inl (_, e) ↦ rw e maps
        | inr (inl (_, e)) ↦ rw e maps
        | inr (inr (_, _, e)) ↦ rw e (
            ground (
              arith,
              maps,
              lookup-erase t tok (expire now reg).pending,
              lookup-erase t tok (expire now reg).owned,
              text_key.same_iff tok t,
            ))
      ]
  where
    maps :
        (lookup t (expire now reg).pending
          ≡ (if gives_up now t reg.pending then none else lookup t reg.pending))
        × (lookup t (expire now reg).owned
            ≡ (if gives_up now t reg.pending then none else lookup t reg.owned))
    maps = expire_from_maps now reg.pending reg t v.pending_unique
