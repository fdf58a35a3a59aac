-- ===== src/Base/Decimal.antt =====
-- `std::to_string` and `%u` on unsigned numbers.
use chowdy.Base.{
  ℕ, zero, suc, ◌+◌, ◌-◌, ◌*◌, ◌/◌, ◌%◌, ◌<◌, ◌≤◌, ◌≡◌, refl, ap, ◌∙◌, sym, [], ◌∷◌, ◌++◌, arith,
  All, All-append, Str, ltb, if◌then◌else◌, Bool-cases, inl, inr,
}

-- One round for each digit; the fuel `n + 1` is more than the digits of `n`.
unfoldable pub decimal_from : ℕ → ℕ → Str
decimal_from zero n = []
decimal_from (suc fuel) n =
    let rest = decimal_from fuel (n / 10) in
    if ltb n 10 then (48 + n) ∷ [] else rest ++ ((48 + n % 10) ∷ [])

unfoldable pub decimal : ℕ → Str
unfolding decimal_from
decimal n = decimal_from (suc n) n

abbrev pub IsDigit : ℕ → Type 0
IsDigit c = (48 ≤ c) × (c ≤ 57)

digits_value : Str → ℕ → ℕ
digits_value [] acc = acc
digits_value (c ∷ s) acc = digits_value s (acc * 10 + (c - 48))

digits_value-append :
    (s t : Str) (acc : ℕ) → digits_value (s ++ t) acc ≡ digits_value t (digits_value s acc)
unfolding digits_value
digits_value-append [] t acc = refl
digits_value-append (c ∷ s) t acc = digits_value-append s t _

digits_value-decimal_from : (fuel n : ℕ) → n < fuel → digits_value (decimal_from fuel n) 0 ≡ n
unfolding digits_value decimal_from
digits_value-decimal_from zero n h = elim h [ ]
digits_value-decimal_from (suc fuel) n h = elim (Bool-cases (ltb n 10)) [
  | inl small ↦ rw small (omega arith)
  | inr big ↦ rw big (
      digits_value-append (decimal_from fuel (n / 10)) _ 0
      ∙ ground (arith, digits_value-decimal_from fuel (n / 10)))
]

decimal_from-IsDigit : (fuel n : ℕ) → All IsDigit (decimal_from fuel n)
unfolding decimal_from
decimal_from-IsDigit zero n = tt
decimal_from-IsDigit (suc fuel) n = elim (Bool-cases (ltb n 10)) [
  | inl small ↦ rw small (ground arith)
  | inr big ↦ rw big (All-append IsDigit _ _ (decimal_from-IsDigit fuel (n / 10)) (omega arith))
]

pub decimal-IsDigit : (n : ℕ) → All IsDigit (decimal n)
unfolding decimal
decimal-IsDigit n = decimal_from-IsDigit (suc n) n

-- Different numbers have different texts.
pub decimal-injective : (m n : ℕ) → decimal m ≡ decimal n → m ≡ n
unfolding decimal
decimal-injective m n e =
    sym (digits_value-decimal_from (suc m) m (omega arith))
    ∙ ap (λ s. digits_value s 0) e
    ∙ digits_value-decimal_from (suc n) n (omega arith)
