-- ===== src/Base/Keys.antt =====
-- What a Go map needs of its keys: a test for equality that decides the paths.
use Prim.Native.Nat.{ℕ}
use Prim.Native.String.{String}
use mathlib.Core.Path.{◌≡◌, refl}
use mathlib.Core.Logic.{◌↔◌}
use mathlib.Core.Bool.{Bool, true}
use text.Mathlib.Text.{◌==◌ as text_same}
use text.Mathlib.TextEquality.{eq_iff}
use dingzi.Base.Tests.{eqb, eqb_iff}

pub record Key {ℓ} (K : Type ℓ) : Type ℓ where
  pub same : K → K → Bool
  pub same_iff : (j k : K) → (same j k ≡ true) ↔ (j ≡ k)

-- The ids of the panel are numbers; tokens, uuids and addresses are texts.
instance abbrev pub number_key : Key ℕ
number_key = record { same = eqb; same_iff = eqb_iff }

instance abbrev pub text_key : Key String
text_key = record { same = text_same; same_iff = eq_iff }

infix 50 ◌==◌
abbrev pub ◌==◌ {ℓ} : {K : Type ℓ} ⦃key : Key K⦄ → K → K → Bool
◌==◌ ⦃key⦄ j k = key.same j k

pub ==_refl {ℓ} : {K : Type ℓ} ⦃key : Key K⦄ (k : K) → (k == k) ≡ true
==_refl ⦃key⦄ k = (key.same_iff k k).1 refl
