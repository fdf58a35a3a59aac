-- ===== src/Base/Outcome.antt =====
-- Code that throws: a value, or the text that `what()` of the exception gives.
use Prim.Native.Nat.{ℕ}
use Prim.Native.Char.{code}
use Prim.Native.String.{String}
use mathlib.Core.Bool.{Bool, true, false}
use mathlib.Core.List.{List, [], ◌∷◌}

-- A `std::string`: its bytes.
abbrev pub Str : Type 0
Str = List ℕ

-- The bytes of an ASCII literal.
abbrev pub codes : String → Str
codes String.[] = []
codes (String.◌∷◌ c s) = code c ∷ codes s

pub data Result {ℓ} (A : Type ℓ) : Type ℓ where
  ok : A → Result A
  err : Str → Result A

-- An exception skips what follows.
module _ {a b} {From : Type a} {To : Type b} where
  infixl 5 ◌>>=◌
  abbrev pub ◌>>=◌ : Result From → (From → Result To) → Result To
  err what >>= next = err what
  ok value >>= next = next value

module _ {b} {To : Type b} where
  infixl 5 ◌>>◌
  abbrev pub ◌>>◌ : Result (Unit {0}) → Result To → Result To
  err what >> next = err what
  ok _ >> next = next

-- `if (!test) throw std::runtime_error(what)`
abbrev pub require : Bool → Str → Result (Unit {0})
require true what = ok tt
require false what = err what
