-- ===== src/Base/Table/Counts.antt =====
-- How many entries of a table meet a test, its size, and `range` loops that delete entries.
use dingzi.Base.{
  ℕ, suc, ◌+◌, ◌≤◌, ◌≡◌, Bool, false, some, [], ◌∷◌, arith, if◌then◌else◌, length, Key,
}
use dingzi.Base.Table.{Table, lookup, erase, IsUnique, lookup-erase, erase_absent}

module _ {ℓ κ} {K : Type ℓ} {V : Type κ} ⦃e : Key K⦄ where
  abbrev pub count : (V → Bool) → Table K V → ℕ
  count p [] = 0
  count p ((j, v) ∷ m) = (if p v then 1 else 0) + count p m

  pub count-erase_present :
      (p : V → Bool) (k : K) (v : V) (m : Table K V)
      → IsUnique m
      → lookup k m ≡ some v
      → count p m ≡ (if p v then 1 else 0) + count p (erase k m)
  count-erase_present p k v [] u h = absurd (ground arith)
  count-erase_present p k v ((j, w) ∷ m) u h =
      ground (arith, e.same_iff j k, count-erase_present p k v m u.1, erase_absent k m)

  pub length-erase_present :
      (k : K) (v : V) (m : Table K V)
      → IsUnique m
      → lookup k m ≡ some v
      → length m ≡ suc (length (erase k m))
  length-erase_present k v [] u h = absurd (ground arith)
  length-erase_present k v ((j, w) ∷ m) u h =
      ground (arith, e.same_iff j k, length-erase_present k v m u.1, erase_absent k m)

  pub count-le-length : (p : V → Bool) (m : Table K V) → count p m ≤ length m
  count-le-length p [] = omega arith
  count-le-length p ((j, v) ∷ m) = ground (arith, count-le-length p m)

  pub count_zero :
      (p : V → Bool) (k : K) (v : V) (m : Table K V)
      → count p m ≡ 0
      → lookup k m ≡ some v
      → p v ≡ false
  count_zero p k v [] z h = absurd (ground arith)
  count_zero p k v ((j, w) ∷ m) z h = ground (arith, count_zero p k v m)

  -- Every entry of the first table is an entry of the second.
  abbrev pub Within : Table K V → Table K V → Type (ℓ ⊔ κ)
  Within l m = (k : K) (v : V) → lookup k l ≡ some v → lookup k m ≡ some v

  -- What is left to visit stays within the table when the entry just visited is deleted.
  pub Within-erase :
      (j : K) (v : V) (l m : Table K V)
      → IsUnique ((j, v) ∷ l)
      → Within ((j, v) ∷ l) m
      → Within l (erase j m)
  Within-erase j v l m u w k x h = ground (arith, lookup-erase k j m, e.same_iff j k, w k x)

  pub Within-tail :
      (j : K) (v : V) (l m : Table K V) → IsUnique ((j, v) ∷ l) → Within ((j, v) ∷ l) m → Within l m
  Within-tail j v l m u w k x h = ground (arith, e.same_iff j k, w k x)

  pub Within-head : (j : K) (v : V) (l m : Table K V) → Within ((j, v) ∷ l) m → lookup j m ≡ some v
  Within-head j v l m w = ground (arith, e.same_iff j j, w j v)
