-- ===== src/Prelude/Text.antt =====
-- Texts: the test for equality, and how it tells two texts apart.
use mathlib.Core.Path.{◌≡◌}
use mathlib.Core.Logic.{◌≢◌}
use mathlib.Core.Bool.{Bool, true, false}
use Prim.Native.Char.{code}
use Prim.Native.Nat.{ℕ}
use Prim.Native.String.{String, ◌++◌}
use mathlib.Core.List.{List, [], ◌∷◌}
use text.Mathlib.TextEquality.{eq_iff}
use text.Mathlib.Text.{◌==◌}

abbrev pub str_eq : String → String → Bool
str_eq a b = a == b

pub str_eq_iff : (a b : String) → ((str_eq a b ≡ true) → a ≡ b) × (a ≡ b → str_eq a b ≡ true)
str_eq_iff a b = eq_iff a b

pub str_ne : (a b : String) → str_eq a b ≡ false → a ≢ b
str_ne a b h e = cc ((eq_iff a b).1 e)

abbrev pub concat : List String → String
concat [] = ""
concat (s ∷ ss) = s ++ concat ss

-- The bytes of a text of ASCII characters. `String` has its own `[]` and `∷`.
abbrev pub ascii : String → List ℕ
ascii String.[] = []
ascii (String.◌∷◌ c s) = code c ∷ ascii s
