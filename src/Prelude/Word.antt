-- ===== src/Prelude/Word.antt =====
-- Machine integers: a value of Go's int32 or int64 is an integer in range, and every sum,
-- difference or product that the source computes at that width is wrapped around.
use agentic_autoscaler.Prelude.Tests.{ltb, if◌then◌else◌}
use agentic_autoscaler.Prelude.Int.{
  ℤ, pos, negsuc, pos_part, neg_part, ◌+ℤ◌, ◌-ℤ◌, ◌≤ℤ◌, ltb_ℤ, -ℤ_parts, parts_apart,
}
use Prim.Native.Nat.{ℕ, ◌-◌, ◌%◌, ◌≤◌}
use mathlib.Core.Path.{◌≡◌}
use native.Mathlib.Omega.{arith}

-- math.MaxInt32 and math.MinInt32.
abbrev pub max_int32 : ℤ
max_int32 = pos 2147483647

abbrev pub min_int32 : ℤ
min_int32 = negsuc 2147483647

abbrev pub IsInt32 : ℤ → Type 0
IsInt32 a = (pos_part a ≤ 2147483647) × (neg_part a ≤ 2147483648)

-- The signed value of a 32-bit pattern.
abbrev signed32 : ℕ → ℤ
signed32 r = if ltb r 2147483648 then pos r else negsuc (4294967295 - r)

abbrev signed64 : ℕ → ℤ
signed64 r = if ltb r 9223372036854775808 then pos r else negsuc (18446744073709551615 - r)

unfoldable pub wrap32 : ℤ → ℤ
wrap32 (pos n) = signed32 (n % 4294967296)
wrap32 (negsuc n) = signed32 (4294967295 - n % 4294967296)

-- The same for int64, which a Duration is.
unfoldable pub wrap64 : ℤ → ℤ
wrap64 (pos n) = signed64 (n % 18446744073709551616)
wrap64 (negsuc n) = signed64 (18446744073709551615 - n % 18446744073709551616)

unfoldable pub add32 : ℤ → ℤ → ℤ
add32 a b = wrap32 (a +ℤ b)

unfoldable pub sub32 : ℤ → ℤ → ℤ
sub32 a b = wrap32 (a -ℤ b)

-- The conversion that saturates: `durationSecondsAsInt32` and its copies end in it.
unfoldable pub clamp_int32 : ℤ → ℤ
clamp_int32 v = if ltb_ℤ max_int32 v then max_int32 else if ltb_ℤ v min_int32 then min_int32 else v

pub wrap32_in_range : (a : ℤ) → IsInt32 a → wrap32 a ≡ a
unfolding wrap32
wrap32_in_range (pos n) h = ground arith
wrap32_in_range (negsuc n) h = ground arith

pub wrap32-IsInt32 : (a : ℤ) → IsInt32 (wrap32 a)
unfolding wrap32
wrap32-IsInt32 (pos n) = ground arith
wrap32-IsInt32 (negsuc n) = ground arith

pub wrap64_in_range :
    (a : ℤ) → pos_part a ≤ 9223372036854775807 → neg_part a ≤ 9223372036854775808 → wrap64 a ≡ a
unfolding wrap64
wrap64_in_range (pos n) h i = ground arith
wrap64_in_range (negsuc n) h i = ground arith

pub add32_in_range : (a b : ℤ) → IsInt32 (a +ℤ b) → add32 a b ≡ a +ℤ b
unfolding add32
add32_in_range a b h = wrap32_in_range (a +ℤ b) h

pub sub32_in_range : (a b : ℤ) → IsInt32 (a -ℤ b) → sub32 a b ≡ a -ℤ b
unfolding sub32
sub32_in_range a b h = wrap32_in_range (a -ℤ b) h

-- A difference of two numbers that are not negative never overflows.
pub sub32_nonneg : (a b : ℤ) → IsInt32 a → IsInt32 b → pos 0 ≤ℤ a → pos 0 ≤ℤ b → sub32 a b ≡ a -ℤ b
sub32_nonneg a b ha hb pa pb =
    sub32_in_range a b (omega (arith, -ℤ_parts a b, parts_apart (a -ℤ b)))

pub clamp_int32-IsInt32 : (v : ℤ) → IsInt32 (clamp_int32 v)
unfolding clamp_int32
clamp_int32-IsInt32 v = ground arith
