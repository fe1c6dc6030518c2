-- ===== src/Base/Table/Sweep.antt =====
-- A `range` loop that deletes the entries meeting a test.
use dingzi.Base.{
  ◌≤◌, ◌≡◌, refl, Bool, Option, none, some, [], ◌∷◌, arith, if◌then◌else◌, length, Key,
}
use dingzi.Base.Table.{Table, lookup, IsUnique}

-- An option kept unless the test is met.
abbrev pub unless {ℓ} : {A : Type ℓ} → (A → Bool) → Option A → Option A
unless p none = none
unless p (some v) = if p v then none else some v

module _ {ℓ κ} {K : Type ℓ} {V : Type κ} where
  abbrev pub sweep : (V → Bool) → Table K V → Table K V
  sweep p [] = []
  sweep p ((j, v) ∷ m) = let rest = sweep p m in if p v then rest else (j, v) ∷ rest

  pub length-sweep-le : (p : V → Bool) (m : Table K V) → length (sweep p m) ≤ length m
  length-sweep-le p [] = omega arith
  length-sweep-le p ((j, v) ∷ m) = ground (arith, length-sweep-le p m)

module _ {ℓ κ} {K : Type ℓ} {V : Type κ} ⦃e : Key K⦄ where
  pub lookup-sweep :
      (k : K) (p : V → Bool) (m : Table K V)
      → IsUnique m
      → lookup k (sweep p m) ≡ unless p (lookup k m)
  lookup-sweep k p [] u = refl
  lookup-sweep k p ((j, v) ∷ m) u = ground (arith, lookup-sweep k p m u.1, e.same_iff j k)

  pub sweep-IsUnique : (p : V → Bool) (m : Table K V) → IsUnique m → IsUnique (sweep p m)
  sweep-IsUnique p [] u = tt
  sweep-IsUnique p ((j, v) ∷ m) u = ground (arith, sweep-IsUnique p m u.1, lookup-sweep j p m u.1)
