-- ===== src/Pam/Request/Bounds.antt =====
-- pam/pam_chowdy.c: the buffers of the request's id and text.
use native.Mathlib.Nat.{pow-suc}
use Prim.Native.Nat.{bit_xor}
use chowdy.Base.{
  ℕ, zero, suc, ◌+◌, ◌*◌, ◌/◌, ◌%◌, ◌^◌, ◌≤◌, ◌<◌, ◌≡◌, refl, arith, [], ◌∷◌, ◌++◌, Option, none,
  some, Str, codes, take, length, length-append, Bool-cases, inl, inr, ltb,
}
use chowdy.Base.Decimal.{decimal, decimal_from}
use chowdy.Pam.Request.{hex_byte, hex_bytes, hex, fallback_id, make_request_id, request_text}

-- A number below 10^k has at most k digits.
decimal_from-le : (fuel n k : ℕ) → n < 10 ^ suc k → length (decimal_from fuel n) ≤ suc k
unfolding decimal_from
decimal_from-le zero n k h = omega arith
decimal_from-le (suc fuel) n zero h = ground arith
decimal_from-le (suc fuel) n (suc k) h =
    let step : 10 ^ suc (suc k) ≡ 10 ^ suc k * 10 = pow-suc 10 (suc k) in
    elim (Bool-cases (ltb n 10)) [
      | inl small ↦ rw small (omega arith)
      | inr big ↦ rw big (
          omega (
            arith,
            length-append (decimal_from fuel (n / 10)) ((48 + n % 10) ∷ []),
            decimal_from-le fuel (n / 10) k (omega (arith, step)),
          ))
    ]

length-take-le : (n : ℕ) (s : Str) → length (take n s) ≤ n
length-take-le zero s = omega arith
length-take-le (suc n) [] = omega arith
length-take-le (suc n) (c ∷ s) = omega (arith, length-take-le n s)

length-hex_bytes : (bytes : Str) → length (hex_bytes bytes) ≡ length bytes + length bytes
unfolding hex_bytes hex_byte
length-hex_bytes [] = refl
length-hex_bytes (b ∷ bytes) = omega (arith, length-hex_bytes bytes)

fallback_id-le : (pid time : ℕ) → length (fallback_id pid time 17) ≤ 16
unfolding fallback_id
fallback_id-le pid time = length-take-le 16 (hex (bit_xor pid time))

-- The id fits its buffer of 17 bytes with the terminating zero.
make_request_id-le :
    (urandom : Option Str) (pid time : ℕ) → length (make_request_id urandom pid time 17) ≤ 16
unfolding make_request_id
make_request_id-le none pid time = fallback_id-le pid time
make_request_id-le (some bytes) pid time =
    ground (arith, fallback_id-le pid time, length-hex_bytes bytes)

decimal-le : (n k : ℕ) → n < 10 ^ suc k → length (decimal n) ≤ suc k
unfolding decimal
decimal-le n k h = decimal_from-le (suc n) n k h

text_length :
    (u t r : Str)
    → length (
        codes "{\"type\":\"auth\",\"uid\":"
        ++ u
        ++ codes ",\"timeout_ms\":"
        ++ t
        ++ codes ",\"request_id\":\""
        ++ r
        ++ codes "\"}")
      ≡ 52 + length u + length t + length r
text_length u t r = simp (length-append) (omega arith)

-- The request fits its buffer of 256 bytes: the refusal of a longer one is never taken.
pub request_text-fits :
    (uid timeout_ms pid time : ℕ) (urandom : Option Str)
    → uid < 2 ^ 32
    → timeout_ms ≤ 60000
    → (0 < length (request_text uid timeout_ms (make_request_id urandom pid time 17)))
      × (length (request_text uid timeout_ms (make_request_id urandom pid time 17)) < 256)
unfolding request_text
request_text-fits uid timeout_ms pid time urandom h k = omega (
  arith,
  text_length (decimal uid) (decimal timeout_ms) (make_request_id urandom pid time 17),
  decimal-le uid 9 (omega arith),
  decimal-le timeout_ms 4 (omega arith),
  make_request_id-le urandom pid time,
)
