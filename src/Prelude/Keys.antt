-- ===== src/Prelude/Keys.antt =====
-- Keys that can be compared, as an interface.
use agentic_autoscaler.Prelude.Text.{str_eq, str_eq_iff}
use agentic_autoscaler.Prelude.Tests.{eqb}
use Prim.Native.Nat.{ℕ}
use Prim.Native.String.{String}
use mathlib.Core.Path.{◌≡◌}
use mathlib.Core.Logic.{◌↔◌}
use mathlib.Core.Bool.{Bool, true}
use native.Mathlib.Omega.{arith}

pub record MapKey {ℓ} (A : Type ℓ) : Type ℓ where
  pub equal : (a b : A) → Bool
  pub equal_iff : (a b : A) → (equal a b ≡ true) ↔ (a ≡ b)

infix 50 ◌==◌
abbrev pub ◌==◌ {ℓ} : {A : Type ℓ} ⦃e : MapKey A⦄ → A → A → Bool
◌==◌ ⦃e⦄ = e.equal

pub eqb_iff : (a b : ℕ) → (eqb a b ≡ true) ↔ (a ≡ b)
eqb_iff a b = ground arith

instance abbrev pub nat_key : MapKey ℕ
nat_key = record { equal = eqb; equal_iff = eqb_iff }

instance abbrev pub text_key : MapKey String
text_key = record { equal = str_eq; equal_iff = str_eq_iff }
