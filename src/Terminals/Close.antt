-- ===== src/Terminals/Close.antt =====
-- Closing every terminal of a machine, or of all machines.
use mathlib.Core.List.{Mem, mem-append_left, mem-append_right}
use dingzi.Base.{
  ℕ, ◌≡◌, ◌≢◌, refl, sym, ◌∙◌, Bool, true, false, none, some, [], ◌∷◌, ◌⊎◌, String, arith,
  if◌then◌else◌, number_key, text_key, ◌==◌, Bool-cases, inl, inr, text_key,
}
use dingzi.Base.Table.{Table, lookup, IsUnique, lookup-erase}
use dingzi.Terminals.{TerminalRegistry, or_nil, forget, close_from, close_machine, is_spared}
use dingzi.Terminals.Invariant.{IsValid}

-- Whether closing machine `id` (0 for all) ends this session.
abbrev closes : ℕ → String → Table String ℕ → Bool
closes id tok l = elim (lookup tok l) [
  | none ↦ false
  | some m ↦ if is_spared id m then false else true
]

close_from_owned :
    (id : ℕ) (l : Table String ℕ) (reg : TerminalRegistry) (tok : String)
    → IsUnique l
    → let after = close_from id l reg in
      lookup tok after.owned ≡ (if closes id tok l then none else lookup tok reg.owned)
unfolding close_from forget
close_from_owned id [] reg tok u = refl
close_from_owned id ((t, m) ∷ rest) reg tok u = ground (
  arith,
  close_from_owned id rest (if is_spared id m then reg else forget t m reg) tok u.1,
  lookup-erase tok t reg.owned,
  text_key.same_iff t tok,
)

closed-forget :
    (c : ℕ) (tok : String) (m : ℕ) (reg : TerminalRegistry)
    → Mem c reg.closed
    → Mem c (forget tok m reg).closed
unfolding forget
closed-forget c tok m reg h = mem-append_right (or_nil (lookup tok reg.connections)) h

close_from_keeps :
    (c id : ℕ) (l : Table String ℕ) (reg : TerminalRegistry)
    → Mem c reg.closed
    → Mem c (close_from id l reg).closed
unfolding close_from
close_from_keeps c id [] reg h = h
close_from_keeps c id ((t, m) ∷ rest) reg h = elim (Bool-cases (is_spared id m)) [
  | inl s ↦ rw (s, close_from) (close_from_keeps c id rest reg h)
  | inr s ↦
      rw (s, close_from) (close_from_keeps c id rest (forget t m reg) (closed-forget c t m reg h))
]

connections-forget :
    (tok t : String) (m : ℕ) (reg : TerminalRegistry)
    → t ≢ tok
    → lookup tok (forget t m reg).connections ≡ lookup tok reg.connections
unfolding forget
connections-forget tok t m reg ne =
    ground (arith, lookup-erase tok t reg.connections, text_key.same_iff t tok)

closed-forget_own :
    (c : ℕ) (tok : String) (m : ℕ) (reg : TerminalRegistry)
    → Mem c (or_nil (lookup tok reg.connections))
    → Mem c (forget tok m reg).closed
unfolding forget
closed-forget_own c tok m reg h = mem-append_left reg.closed h

close_from_closes :
    (c id : ℕ) (l : Table String ℕ) (reg : TerminalRegistry) (tok : String)
    → closes id tok l ≡ true
    → Mem c (or_nil (lookup tok reg.connections))
    → Mem c (close_from id l reg).closed
unfolding close_from
close_from_closes c id [] reg tok h mem = absurd (ground arith)
close_from_closes c id ((t, m) ∷ rest) reg tok h mem = elim (Bool-cases (t == tok)) [
  | inl same ↦
      let e : t ≡ tok = (text_key.same_iff t tok).0 same in
      let hit : is_spared id m ≡ false = ground (arith, same) in
      rw (hit, close_from)
        (close_from_keeps c id rest (forget t m reg) (closed-forget_own c t m reg (rw e mem)))
  | inr other ↦
      let ne : t ≢ tok = λ e. cc (sym ((text_key.same_iff t tok).1 e) ∙ other) in
      let later : closes id tok rest ≡ true = ground (arith, other) in
      elim (Bool-cases (is_spared id m)) [
        | inl s ↦ rw (s, close_from) (close_from_closes c id rest reg tok later mem)
        | inr s ↦
            rw (s, close_from)
              (close_from_closes c id rest (forget t m reg) tok later
                (rw (connections-forget tok t m reg ne) mem))
      ]
]

-- Closing machine `id`, or every machine for 0, ends exactly its sessions: each of them loses its
-- owner and all its connections are closed, while the owner of any other session is unchanged.
pub close_machine_lem :
    (id : ℕ) (tok : String) (m : ℕ) (reg : TerminalRegistry)
    → IsValid reg
    → lookup tok reg.owned ≡ some m
    → let after = close_machine id reg in
      (((id ≡ 0) ⊎ (m ≡ id))
        → (lookup tok after.owned ≡ none)
          × ((c : ℕ) → Mem c (or_nil (lookup tok reg.connections)) → Mem c after.closed))
      × (id ≢ 0 → m ≢ id → lookup tok after.owned ≡ some m)
unfolding close_machine
close_machine_lem id tok m reg v own = (
  λ hit. (
    ground (arith, close_from_owned id reg.owned reg tok v.owned_unique),
    λ c mem. close_from_closes c id reg.owned reg tok (ground arith) mem,
  ),
  λ nz ne. ground (arith, close_from_owned id reg.owned reg tok v.owned_unique),
)
