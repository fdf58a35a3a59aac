-- ===== src/Base/Atoi.antt =====
-- The C library's `atoi`.
use Prim.Native.Nat.{ℕ, zero, suc, ◌+◌, ◌-◌, ◌*◌}
use mathlib.Core.Bool.{Bool, ◌&&◌, ◌||◌}
use mathlib.Core.List.{[], ◌∷◌}
use chowdy.Base.Tests.{leb, if◌then◌else◌}
use chowdy.Base.Int.{ℤ, pos, negsuc}
use chowdy.Base.Outcome.{Str}
use chowdy.Base.Equality.{◌==◌, ℕ-Eq}

-- `isspace` of the C locale.
abbrev is_space : ℕ → Bool
is_space c = c == b' ' || leb 9 c && leb c 13

abbrev is_digit : ℕ → Bool
is_digit c = leb 48 c && leb c 57

-- The value of the leading digits.
digits_from : ℕ → Str → ℕ
digits_from acc [] = acc
digits_from acc (c ∷ s) =
    let rest = digits_from (acc * 10 + (c - 48)) s in if is_digit c then rest else acc

minus : ℕ → ℤ
minus zero = pos zero
minus (suc n) = negsuc n

signed : Str → ℤ
unfolding digits_from minus
signed [] = pos 0
signed (c ∷ s) =
    if c == b'-'
    then minus (digits_from 0 s)
    else if c == b'+'
    then pos (digits_from 0 s)
    else pos (digits_from 0 (c ∷ s))

-- On a text whose value fits an `int`.
unfoldable pub atoi : Str → ℤ
unfolding signed
atoi [] = signed []
atoi (c ∷ s) = let rest = atoi s in if is_space c then rest else signed (c ∷ s)
