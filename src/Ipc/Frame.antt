-- ===== src/Ipc/Frame.antt =====
-- common/ipc.cpp: `read_message` and `write_message`, frames of a big-endian length and a payload.
-- `json::dump` and `json::parse` are nlohmann's, and so parameters.
pub mod Laws
use chowdy.Base.{
  ℕ, zero, suc, ◌+◌, ◌*◌, ◌/◌, ◌%◌, ◌^◌, List, [], ◌∷◌, ◌++◌, length, Str, codes, Result, ok, err,
  ltb, ◌==◌, ℕ-Eq, if◌then◌else◌,
}
use chowdy.Base.Decimal.{decimal}
use chowdy.Ipc.Stream.{Answer, Run, done, throws, blocked, read_exact, write_exact}

-- `htonl`, and the four bytes that it leaves in memory.
unfoldable pub be_bytes : ℕ → List ℕ
be_bytes v = (v / 2 ^ 24 % 256) ∷ (v / 2 ^ 16 % 256) ∷ (v / 2 ^ 8 % 256) ∷ (v % 256) ∷ []

-- `ntohl` of four bytes read.
unfoldable pub be_value : List ℕ → ℕ
be_value (a ∷ b ∷ c ∷ d ∷ []) = a * 2 ^ 24 + b * 2 ^ 16 + c * 2 ^ 8 + d
be_value _ = 0

abbrev pub max_payload : ℕ
max_payload = 2 ^ 20

abbrev pub write_limit : ℕ
write_limit = 2 ^ 30

-- What follows a loop that ended well.
abbrev pub and_then {ℓ κ} :
    {A : Type ℓ} {B : Type κ} → Run A → (A → List ℕ → List Answer → Run B) → Run B
and_then (done a rest s) f = f a rest s
and_then (throws what) f = throws what
and_then blocked f = blocked

abbrev pub lift {ℓ} : {A : Type ℓ} → Result A → List ℕ → List Answer → Run A
lift (ok a) rest s = done a rest s
lift (err what) rest s = throws what

module _ {J : Type 0} where
  -- The body after the length is known.
  unfoldable pub read_payload : (List ℕ → Result J) → ℕ → ℕ → List ℕ → List Answer → Run J
  read_payload parse limit len stream s =
      if len == 0
      then throws (codes "empty frame")
      else if ltb limit len
      then throws (codes "frame too large: " ++ decimal len)
      else and_then (read_exact s stream len []) (λ payload rest s'. lift (parse payload) rest s')

  unfoldable pub read_message : (List ℕ → Result J) → ℕ → List Answer → List ℕ → Run J
  unfolding read_payload
  read_message parse limit s stream =
      and_then (read_exact s stream 4 [])
        (λ be_len rest s'. read_payload parse limit (be_value be_len) rest s')

  -- `out` is what the peer has been sent before.
  unfoldable pub write_message : (J → Str) → List Answer → List ℕ → J → Run (Unit {0})
  write_message dump s out j =
      let payload = dump j in
      if ltb write_limit (length payload)
      then throws (codes "payload too big: " ++ decimal (length payload))
      else and_then (write_exact s (be_bytes (length payload % 2 ^ 32)) out)
          (λ _ out' s'. write_exact s' payload out')
