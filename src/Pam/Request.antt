-- ===== src/Pam/Request.antt =====
-- pam/pam_chowdy.c: the request's id and its text.
pub mod Bounds
use Prim.Native.Nat.{bit_xor}
use chowdy.Base.{
  ℕ, zero, suc, ◌+◌, ◌-◌, ◌/◌, ◌%◌, ◌≤◌, [], ◌∷◌, ◌++◌, Option, none, some, Str, codes, take,
  length, ltb, leb, nat_eq, ◌&&◌, if◌then◌else◌,
}
use chowdy.Base.Decimal.{decimal}

-- A lower-case hexadecimal digit.
abbrev pub hex_digit : ℕ → ℕ
hex_digit d = if ltb d 10 then 48 + d else 87 + d

-- `%02x`
unfoldable pub hex_byte : ℕ → Str
hex_byte b = hex_digit (b / 16 % 16) ∷ hex_digit (b % 16) ∷ []

unfoldable pub hex_bytes : Str → Str
unfolding hex_byte
hex_bytes [] = []
hex_bytes (b ∷ bytes) = hex_byte b ++ hex_bytes bytes

-- One round for each digit.
hex_from : ℕ → ℕ → Str
hex_from zero n = []
hex_from (suc fuel) n =
    let rest = hex_from fuel (n / 16) in
    if ltb n 16 then hex_digit n ∷ [] else rest ++ (hex_digit (n % 16) ∷ [])

-- `%llx`, of at most 16 digits.
unfoldable pub hex : ℕ → Str
unfolding hex_from
hex n = hex_from 16 n

-- `urandom` is what one read of 8 bytes gave, if the device could be opened; `n` is the room for the
-- text and its zero.
fallback_id : ℕ → ℕ → ℕ → Str
unfolding hex
fallback_id pid time n = take (n - 1) (hex (bit_xor pid time))

unfoldable pub make_request_id : Option Str → ℕ → ℕ → ℕ → Str
unfolding fallback_id hex_bytes
make_request_id none pid time n = fallback_id pid time n
make_request_id (some bytes) pid time n =
    if nat_eq (length bytes) 8 && leb 17 n then hex_bytes bytes else fallback_id pid time n

-- The text that `snprintf` would print with room enough; its length is the result `n`.
unfoldable pub request_text : ℕ → ℕ → Str → Str
request_text uid timeout_ms reqid =
    codes "{\"type\":\"auth\",\"uid\":"
    ++ decimal uid
    ++ codes ",\"timeout_ms\":"
    ++ decimal timeout_ms
    ++ codes ",\"request_id\":\""
    ++ reqid
    ++ codes "\"}"
