-- ===== src/Pam/Wire.antt =====
-- pam/pam_chowdy.c: the transfers, `write_all` and `read_all`. The kernel's answers are a script, as
-- for the daemon's own loops.
pub mod Laws
use chowdy.Base.{ℕ, zero, suc, ◌+◌, ◌-◌, List, [], ◌∷◌, ◌++◌, take, drop, length}
use chowdy.Ipc.Stream.{Answer, moves, interrupted, times_out, fails, smaller}

-- A call's outcome: a value; the result -1; or the script is over and the call still waits.
pub data Io {ℓ} (A : Type ℓ) : Type ℓ where
  gives : A → Io A
  minus_one : Io A
  waits : Io A

-- The rest of a chain is skipped after -1.
module _ {a b} {From : Type a} {To : Type b} where
  infixl 5 ◌>>=◌
  abbrev pub ◌>>=◌ : Io From → (From → Io To) → Io To
  minus_one >>= rest = minus_one
  waits >>= rest = waits
  gives value >>= rest = rest value

-- A connection: the answers that the kernel will give, what the daemon sends, and what it has been
-- sent.
pub record Conn : Type 0 where
  pub script : List Answer
  pub stream : List ℕ
  pub sent : List ℕ

-- `while (n > 0)` around `recv`; `got` is what has been read before.
unfoldable pub read_loop : List Answer → List ℕ → ℕ → List ℕ → Io (List ℕ × List ℕ × List Answer)
read_loop script stream zero got = gives (got, stream, script)
read_loop [] stream (suc n) got = waits
read_loop (moves k ∷ script) [] (suc n) got = minus_one
read_loop (moves k ∷ script) (b ∷ stream) (suc n) got =
    let r = suc (smaller k (smaller n (length stream))) in
    read_loop script (drop r (b ∷ stream)) (suc n - r) (got ++ take r (b ∷ stream))
read_loop (interrupted ∷ script) stream (suc n) got = read_loop script stream (suc n) got
read_loop (times_out ∷ script) stream (suc n) got = minus_one
read_loop (fails what ∷ script) stream (suc n) got = minus_one

unfoldable pub read_all : Conn → ℕ → Io (List ℕ × Conn)
unfolding read_loop
read_all c n =
    read_loop c.script c.stream n [] >>= λ r. gives (r.0, record c { stream = r.1; script = r.2 })

-- `while (n > 0)` around `send`; `left` is what is still to be sent.
-- A `send` of one byte or more moves one or more, or fails.
unfoldable pub write_loop : List Answer → List ℕ → List ℕ → Io (List ℕ × List Answer)
write_loop script [] out = gives (out, script)
write_loop [] (b ∷ left) out = waits
write_loop (moves k ∷ script) (b ∷ left) out =
    let w = suc (smaller k (length left)) in
    write_loop script (drop w (b ∷ left)) (out ++ take w (b ∷ left))
write_loop (interrupted ∷ script) (b ∷ left) out = write_loop script (b ∷ left) out
write_loop (times_out ∷ script) (b ∷ left) out = minus_one
write_loop (fails what ∷ script) (b ∷ left) out = minus_one

unfoldable pub write_all : Conn → List ℕ → Io Conn
unfolding write_loop
write_all c bytes =
    write_loop c.script bytes c.sent >>= λ r. gives (record c { sent = r.0; script = r.1 })
