-- ===== src/Base/Table.antt =====
-- Go's map as an association list. The order of the list stands for the order of a `range` loop,
-- which Go leaves open: a theorem over all tables covers every order.
pub mod Counts
pub mod Sweep
use Prim.Native.Nat.{ℕ, zero, suc, ◌+◌, ◌≤◌}
use mathlib.Core.Path.{◌≡◌, refl}
use mathlib.Core.Logic.{◌⊎◌, inl, inr}
use mathlib.Core.Bool.{Bool, true, false}
use mathlib.Core.Option.{Option, none, some}
use mathlib.Core.List.{List, [], ◌∷◌}
use native.Mathlib.Omega.{arith}
use dingzi.Base.Tests.{if◌then◌else◌, is_some}
use dingzi.Base.Lists.{length}
use dingzi.Base.Keys.{Key, ◌==◌}

abbrev pub Table {ℓ κ} : Type ℓ → Type κ → Type (ℓ ⊔ κ)
Table K V = List (K × V)

module _ {ℓ κ} {K : Type ℓ} {V : Type κ} ⦃e : Key K⦄ where
  -- `m[k]`
  abbrev pub lookup : K → Table K V → Option V
  lookup wanted [] = none
  lookup wanted ((key, value) ∷ rest) = if key == wanted then some value else lookup wanted rest

  -- `delete(m, k)`
  abbrev pub erase : K → Table K V → Table K V
  erase gone [] = []
  erase gone ((key, value) ∷ rest) =
      let rest' = erase gone rest in if key == gone then rest' else (key, value) ∷ rest'

  -- `m[k] = v`
  abbrev pub insert : K → V → Table K V → Table K V
  insert k v m = (k, v) ∷ erase k m

  -- No key is listed twice, as in every Go map.
  abbrev pub IsUnique : Table K V → Type κ
  IsUnique [] = Unit
  IsUnique ((j, v) ∷ m) = (lookup j m ≡ none) × IsUnique m

  pub lookup-erase :
      (j k : K) (m : Table K V) → lookup j (erase k m) ≡ (if k == j then none else lookup j m)
  lookup-erase j k [] = ground (arith, e.same_iff k j)
  lookup-erase j k ((i, v) ∷ m) =
      ground (arith, e.same_iff i k, e.same_iff i j, e.same_iff k j, lookup-erase j k m)

  pub lookup-insert :
      (j k : K) (v : V) (m : Table K V)
      → lookup j (insert k v m) ≡ (if k == j then some v else lookup j m)
  lookup-insert j k v m = ground (arith, lookup-erase j k m)

  pub erase-IsUnique : (k : K) (m : Table K V) → IsUnique m → IsUnique (erase k m)
  erase-IsUnique k [] u = tt
  erase-IsUnique k ((j, v) ∷ m) u = ground (arith, erase-IsUnique k m u.1, lookup-erase j k m)

  pub insert-IsUnique : (k : K) (v : V) (m : Table K V) → IsUnique m → IsUnique (insert k v m)
  insert-IsUnique k v m u =
      ground (arith, erase-IsUnique k m u, lookup-erase k k m, (e.same_iff k k).1 refl)

  pub erase_absent : (k : K) (m : Table K V) → lookup k m ≡ none → erase k m ≡ m
  erase_absent k [] h = refl
  erase_absent k ((j, v) ∷ m) h = ground (arith, erase_absent k m)

  pub length-erase-le : (k : K) (m : Table K V) → length (erase k m) ≤ length m
  length-erase-le k [] = omega arith
  length-erase-le k ((j, v) ∷ m) = ground (arith, length-erase-le k m)
