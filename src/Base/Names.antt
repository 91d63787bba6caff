-- ===== src/Base/Names.antt =====
-- `std::string` and `int` as keys of maps.
use mathlib.Core.Path.{◌≡◌}
use mathlib.Core.Logic.{◌↔◌}
use mathlib.Core.Bool.{Bool, true, false, ◌&&◌}
use mathlib.Core.List.{[], ◌∷◌}
use Prim.Native.Nat.{ℕ}
use native.Mathlib.Omega.{arith}
use tftp.Base.Tests.{ltb, ◌==◌, ==_iff, if◌then◌else◌}
use tftp.Base.Words.{Bytes}
use tftp.Base.StdMap.{Key}

-- `operator==` on strings.
unfoldable pub same_text : Bytes → Bytes → Bool
same_text [] [] = true
same_text [] (y ∷ ys) = false
same_text (x ∷ xs) [] = false
same_text (x ∷ xs) (y ∷ ys) = x == y && same_text xs ys

-- `operator<` on strings compares bytes as unsigned numbers.
unfoldable pub before_text : Bytes → Bytes → Bool
before_text [] [] = false
before_text [] (y ∷ ys) = true
before_text (x ∷ xs) [] = false
before_text (x ∷ xs) (y ∷ ys) =
    if ltb x y then true else if ltb y x then false else before_text xs ys

pub same_text_iff : (xs ys : Bytes) → (same_text xs ys ≡ true) ↔ (xs ≡ ys)
unfolding same_text
same_text_iff [] [] = ground arith
same_text_iff [] (y ∷ ys) = ground arith
same_text_iff (x ∷ xs) [] = ground arith
same_text_iff (x ∷ xs) (y ∷ ys) = ground (arith, same_text_iff xs ys)

instance abbrev pub text_key : Key Bytes
text_key = record { same = same_text; before = before_text; same_iff = same_text_iff }

instance abbrev pub number_key : Key ℕ
number_key = record { same = ◌==◌; before = ltb; same_iff = ==_iff }
