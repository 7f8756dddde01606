-- ===== src/Go/Float.antt =====
-- Go's float64: a parameter. The operations are those of the language, of `math` and of `sort` that
-- the sources call; the laws are what IEEE 754 and the packages' documentation say of them.
use agentic_autoscaler.Prelude.{ℕ, ℤ, ◌≤ℤ◌, IsInt32, ◌≡◌, ◌↔◌, Bool, true, not, List}

pub record Float64 {ℓ} (F : Type ℓ) : Type ℓ where
  -- `<`, `<=`, `==`; Go's `a > b` is `lt b a`, also where NaN is compared.
  pub lt : F → F → Bool
  pub le : F → F → Bool
  pub eq : F → F → Bool
  pub add : F → F → F
  pub sub : F → F → F
  pub mul : F → F → F
  pub div : F → F → F
  -- math.Sqrt, math.Ceil, math.Round, math.Log2, math.Abs, math.Max
  pub sqrt : F → F
  pub ceil : F → F
  pub round : F → F
  pub log2 : F → F
  pub abs : F → F
  pub fmax : F → F → F
  -- float64(n), the literal n / 10^d, int32(x) and int(x)
  pub of_int : ℤ → F
  pub lit : ℕ → ℕ → F
  pub to_int32 : F → ℤ
  pub to_int : F → ℤ
  -- math.IsNaN, math.IsInf(x, 0), sort.Float64s
  pub is_nan : F → Bool
  pub is_inf : F → Bool
  pub sort : List F → List F

infix 4 ◌≼◌
abbrev pub ◌≼◌ {ℓ} : {F : Type ℓ} ⦃f : Float64 F⦄ → F → F → Type 0
◌≼◌ ⦃f⦄ x y = f.le x y ≡ true

-- NaN is the value that is not `<=` itself; the order is total away from it.
pub record IsOrdered {ℓ} (F : Type ℓ) ⦃f : Float64 F⦄ : Type ℓ where
  pub le_trans : (x y z : F) → x ≼ y → y ≼ z → x ≼ z
  pub lt-eq-not-le : (x y : F) → x ≼ x → y ≼ y → f.lt x y ≡ not (f.le y x)
  pub of_int-le : (a b : ℤ) → IsInt32 a → IsInt32 b → (f.of_int a ≼ f.of_int b) ↔ (a ≤ℤ b)
  pub to_int32-IsInt32 : (x : F) → IsInt32 (f.to_int32 x)
