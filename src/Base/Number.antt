-- ===== src/Base/Number.antt =====
-- `atoi`: white space, a sign, and the digits up to the first other byte. A value outside `int` has no
-- defined result in C; here it is the number itself.
use Prim.Native.Nat.{ℕ, ◌+◌, ◌-◌, ◌*◌}
use mathlib.Core.Bool.{Bool, ◌&&◌}
use mathlib.Core.List.{[], ◌∷◌}
use rest_technosphere_cpp_se.Base.Int.{ℤ, pos, negate}
use rest_technosphere_cpp_se.Base.Tests.{◌==◌, leb, if◌then◌else◌}
use rest_technosphere_cpp_se.Base.Text.{Bytes, isspace}

is_digit : ℕ → Bool
is_digit c = leb 48 c && leb c 57

digits_from : ℕ → Bytes → ℕ
unfolding is_digit
digits_from acc [] = acc
digits_from acc (c ∷ s) =
    let rest = digits_from (acc * 10 + (c - 48)) s in if is_digit c then rest else acc

signed_from : Bytes → ℤ
unfolding digits_from
signed_from [] = pos 0
signed_from (c ∷ s) =
    if c == 45
    then negate (digits_from 0 s)
    else if c == 43
    then pos (digits_from 0 s)
    else pos (digits_from 0 (c ∷ s))

unfoldable pub atoi : Bytes → ℤ
unfolding signed_from isspace
atoi [] = pos 0
atoi (c ∷ s) = let rest = atoi s in if isspace c then rest else signed_from (c ∷ s)
