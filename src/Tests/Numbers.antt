-- ===== src/Tests/Numbers.antt =====
-- A concrete float64, thousandths in exact integers, and a concrete time, nanoseconds since the epoch.
use agentic_autoscaler.Prelude.{
  ℕ, zero, suc, ◌+◌, ◌*◌, ◌/◌, ◌%◌, ℤ, pos, negsuc, pos_part, neg_part, ◌+ℤ◌, ◌-ℤ◌, ◌*ℤ◌, quot,
  ◌≤ℤ◌, leb_ℤ, ltb_ℤ, eqb_ℤ, true, false, List, [], ◌∷◌, if◌then◌else◌, ltb, arith, ◌≡◌, ◌↔◌,
  clamp_int32, clamp_int32-IsInt32,
}
use Prim.Native.Nat.{◌^◌}
use agentic_autoscaler.Go.Float.{Float64, IsOrdered}
use agentic_autoscaler.Go.Time.{GoTime}

abbrev pub Fixed : Type 0
Fixed = ℤ

abbrev unit : ℕ
unit = 1000

abbrev pub of_whole : ℤ → Fixed
of_whole (pos n) = pos (n * unit)
of_whole (negsuc n) = negsuc (n * unit + 999)

abbrev whole : Fixed → ℤ
whole x = quot x unit

abbrev divide : Fixed → Fixed → Fixed
divide x (pos n) = quot (x *ℤ pos unit) n
divide x (negsuc n) = pos 0 -ℤ quot (x *ℤ pos unit) (suc n)

abbrev round_up : Fixed → Fixed
round_up (pos n) = pos ((n + 999) / unit * unit)
round_up (negsuc n) = of_whole (whole (negsuc n))

abbrev round_half : Fixed → Fixed
round_half x = of_whole (whole (if ltb_ℤ x (pos 0) then x -ℤ pos 500 else x +ℤ pos 500))

-- Newton's steps for the root of `n`.
abbrev root_steps : ℕ → ℕ → ℕ → ℕ
root_steps zero n r = r
root_steps (suc left) n r = root_steps left n ((r + n / r) / 2)

abbrev root : Fixed → Fixed
root (pos n) = pos (root_steps 20 (n * unit) 1000)
root (negsuc n) = pos 0

-- The number of halvings down to 1.
abbrev halvings : ℕ → ℕ → ℕ
halvings zero n = 0
halvings (suc left) n = let more = suc (halvings left (n / 2)) in if ltb n 2000 then 0 else more

abbrev insert_sorted : Fixed → List Fixed → List Fixed
insert_sorted x [] = x ∷ []
insert_sorted x (y ∷ ys) =
    let later = y ∷ insert_sorted x ys in if leb_ℤ x y then x ∷ y ∷ ys else later

abbrev sort : List Fixed → List Fixed
sort [] = []
sort (x ∷ xs) = insert_sorted x (sort xs)

instance abbrev pub fixed_float : Float64 Fixed
fixed_float = record {
  lt = ltb_ℤ;
  le = leb_ℤ;
  eq = eqb_ℤ;
  add = λ x y. x +ℤ y;
  sub = λ x y. x -ℤ y;
  mul = λ x y. quot (x *ℤ y) unit;
  div = divide;
  sqrt = root;
  ceil = round_up;
  round = round_half;
  log2 = λ x. of_whole (pos (halvings 40 (pos_part x)));
  abs = λ x. pos (pos_part x + neg_part x);
  fmax = λ x y. if ltb_ℤ x y then y else x;
  of_int = of_whole;
  lit = λ n d. pos (n * unit / 10 ^ d);
  to_int32 = λ x. clamp_int32 (whole x);
  to_int = whole;
  is_nan = λ x. false;
  is_inf = λ x. false;
  sort = sort;
}

of_whole-le : (a b : ℤ) → (leb_ℤ (of_whole a) (of_whole b) ≡ true) ↔ (a ≤ℤ b)
of_whole-le (pos m) (pos n) = ground arith
of_whole-le (pos m) (negsuc n) = ground arith
of_whole-le (negsuc m) (pos n) = ground arith
of_whole-le (negsuc m) (negsuc n) = ground arith

pub fixed-IsOrdered : IsOrdered Fixed
fixed-IsOrdered = record {
  le_trans = λ x y z h i. ground arith;
  lt-eq-not-le = λ x y h i. ground arith;
  of_int-le = λ a b h i. of_whole-le a b;
  to_int32-IsInt32 = λ x. clamp_int32-IsInt32 (whole x);
}

abbrev nanoseconds_of_hour : ℕ
nanoseconds_of_hour = 3600000000000

instance abbrev pub fixed_time : GoTime ℤ
fixed_time = record {
  sub = λ t u. t -ℤ u;
  after = λ t u. ltb_ℤ u t;
  add = λ t d. t +ℤ d;
  is_zero = λ t. eqb_ℤ t (pos 0);
  zero_time = pos 0;
  utc_hour = λ t. pos (pos_part t / nanoseconds_of_hour % 24);
  utc_minute = λ t. pos (pos_part t / 60000000000 % 60);
}
