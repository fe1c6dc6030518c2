-- ===== src/Requests/Tally.antt =====
-- Numerals of one digit, a concrete stand-in for fmt.Sprintf("%d", n): different numbers have
-- different texts.
use Prim.Native.Nat.{ℕ, zero, suc}
use Prim.Native.String.{String, [], ◌∷◌}
use mathlib.Core.Path.{◌≡◌, refl, ap}
use native.Mathlib.Omega.{arith}

abbrev pub tally : ℕ → String
tally zero = "1"
tally (suc n) = "1" ∷ tally n

abbrev size : String → ℕ
size [] = 0
size (c ∷ s) = suc (size s)

size-tally : (n : ℕ) → size (tally n) ≡ suc n
size-tally zero = refl
size-tally (suc n) = ap suc (size-tally n)

pub tally_inj : (j k : ℕ) → tally j ≡ tally k → j ≡ k
tally_inj j k e = omega (arith, size-tally j, size-tally k, ap size e)
