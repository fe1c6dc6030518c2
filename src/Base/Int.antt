-- ===== src/Base/Int.antt =====
-- Go's int64 where a value may be negative, over the native numbers.
use Prim.Native.Nat.{ℕ, zero, suc}
use mathlib.Core.Path.{◌≡◌, ap}
use mathlib.Core.Logic.{◌↔◌}
use mathlib.Core.Bool.{Bool, true, false}
use native.Mathlib.Omega.{arith}
use dingzi.Base.Tests.{eqb, eqb_iff}
use dingzi.Base.Keys.{Key}

-- `negsuc n` is -(n + 1).
pub data ℤ : Type 0 where
  pos negsuc : ℕ → ℤ

abbrev pub is_positive : ℤ → Bool
is_positive (pos zero) = false
is_positive (pos (suc n)) = true
is_positive (negsuc n) = false

abbrev pub same_int : ℤ → ℤ → Bool
same_int (pos m) (pos n) = eqb m n
same_int (pos m) (negsuc n) = false
same_int (negsuc m) (pos n) = false
same_int (negsuc m) (negsuc n) = eqb m n

pub same_iff_int : (i j : ℤ) → (same_int i j ≡ true) ↔ (i ≡ j)
same_iff_int (pos m) (pos n) = (λ h. ap pos ((eqb_iff m n).0 h), λ e. ground (arith, eqb_iff m n))
same_iff_int (pos m) (negsuc n) = (λ h. absurd (ground arith), λ e. absurd (ground arith))
same_iff_int (negsuc m) (pos n) = (λ h. absurd (ground arith), λ e. absurd (ground arith))
same_iff_int (negsuc m) (negsuc n) =
    (λ h. ap negsuc ((eqb_iff m n).0 h), λ e. ground (arith, eqb_iff m n))

instance abbrev pub int_key : Key ℤ
int_key = record { same = same_int; same_iff = same_iff_int }
