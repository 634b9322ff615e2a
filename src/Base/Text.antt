-- ===== src/Base/Text.antt =====
-- Texts as lists of character codes, as the C strings of the source (without the final 0).
use Prim.Native.Nat.{ℕ}
use Prim.Native.Char.{code}
use Prim.Native.String.{String}
use mathlib.Core.Path.{◌≡◌, refl}
use mathlib.Core.Bool.{Bool, true, false, ◌&&◌}
use mathlib.Core.List.{List, [], ◌∷◌}
use native.Mathlib.Omega.{arith}
use fpga_npc.Base.Tests.{◌==◌}

abbrev pub codes : String → List ℕ
codes String.[] = []
codes (String.◌∷◌ c s) = code c ∷ codes s

-- `strcmp(a, b) == 0`
abbrev pub str_eq : List ℕ → List ℕ → Bool
str_eq [] [] = true
str_eq [] (b ∷ bs) = false
str_eq (a ∷ as') [] = false
str_eq (a ∷ as') (b ∷ bs) = a == b && str_eq as' bs

pub str_eq_refl : (a : List ℕ) → str_eq a a ≡ true
str_eq_refl [] = refl
str_eq_refl (a ∷ as') = ground (arith, str_eq_refl as')

pub eq_of_str_eq : (a b : List ℕ) → str_eq a b ≡ true → a ≡ b
eq_of_str_eq [] [] h = refl
eq_of_str_eq [] (b ∷ bs) h = ground arith
eq_of_str_eq (a ∷ as') [] h = ground arith
eq_of_str_eq (a ∷ as') (b ∷ bs) h = ground (arith, eq_of_str_eq as' bs)
