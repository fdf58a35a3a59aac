-- ===== src/Ipc/Stream.antt =====
-- common/ipc.cpp: `read_exact` and `write_exact`. What the peer has sent is a list of bytes, and how
-- the kernel answers the successive system calls is a script: the loops take one answer a round.
pub mod Laws
use Prim.Native.Nat.{min}
use chowdy.Base.{
  ℕ, zero, suc, ◌+◌, ◌-◌, List, [], ◌∷◌, ◌++◌, length, take, drop, Str, codes, ltb, if◌then◌else◌,
  leb,
}

-- The answer to one read or write.
pub data Answer : Type 0 where
  -- At most `n + 1` bytes are moved; a read at the end of what the peer sent moves none.
  moves : ℕ → Answer
  interrupted : Answer
  times_out : Answer
  fails : Str → Answer

-- How a loop ends: with its value and what is left of the stream and the script, with an `IpcError`,
-- or not yet, when the script is over.
pub data Run {ℓ} (A : Type ℓ) : Type ℓ where
  done : A → List ℕ → List Answer → Run A
  throws : Str → Run A
  blocked : Run A

abbrev pub smaller : ℕ → ℕ → ℕ
smaller a b = if leb a b then a else b

-- `while (got < n)`, with `n` the bytes still missing.
unfoldable pub read_exact : List Answer → List ℕ → ℕ → List ℕ → Run (List ℕ)
read_exact script stream zero got = done got stream script
read_exact [] stream (suc n) got = blocked
read_exact (moves k ∷ script) [] (suc n) got = throws (codes "peer closed mid-frame")
read_exact (moves k ∷ script) (b ∷ stream) (suc n) got =
    let r = suc (smaller k (smaller n (length stream))) in
    read_exact script (drop r (b ∷ stream)) (suc n - r) (got ++ take r (b ∷ stream))
read_exact (interrupted ∷ script) stream (suc n) got = read_exact script stream (suc n) got
read_exact (times_out ∷ script) stream (suc n) got = throws (codes "read timeout")
read_exact (fails what ∷ script) stream (suc n) got = throws (codes "read: " ++ what)

-- `while (sent < n)`: `left` is what is still to be sent, `out` what the peer has been sent.
-- A write of one byte or more moves one or more, or fails; SIGPIPE is ignored, as the daemon does.
unfoldable pub write_exact : List Answer → List ℕ → List ℕ → Run (Unit {0})
write_exact script [] out = done tt out script
write_exact [] (b ∷ left) out = blocked
write_exact (moves k ∷ script) (b ∷ left) out =
    let w = suc (smaller k (length left)) in
    write_exact script (drop w (b ∷ left)) (out ++ take w (b ∷ left))
write_exact (interrupted ∷ script) (b ∷ left) out = write_exact script (b ∷ left) out
write_exact (times_out ∷ script) (b ∷ left) out = throws (codes "write timeout")
write_exact (fails what ∷ script) (b ∷ left) out = throws (codes "write: " ++ what)
