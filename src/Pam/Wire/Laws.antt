-- ===== src/Pam/Wire/Laws.antt =====
-- pam/pam_chowdy.c: the module's transfer loops beside those of common/ipc.cpp.
use chowdy.Base.{ℕ, zero, suc, ◌-◌, ◌≡◌, refl, ap, List, [], ◌∷◌, ◌++◌, take, drop, length}
use chowdy.Ipc.Stream.{
  Answer, moves, interrupted, times_out, fails, smaller, Run, done, throws, blocked, read_exact,
  write_exact,
}
use chowdy.Pam.Wire.{
  Conn, read_all, write_all, Io, gives, minus_one, waits, ◌>>=◌, read_loop, write_loop,
}

-- An exception as the result -1: the value, what is left of the stream, and the answers left.
abbrev pub as_io {ℓ} : {A : Type ℓ} → Run A → Io (A × List ℕ × List Answer)
as_io (done a rest script) = gives (a, rest, script)
as_io (throws what) = minus_one
as_io blocked = waits

read_loop-read_exact :
    (script : List Answer) (stream : List ℕ) (n : ℕ) (got : List ℕ)
    → read_loop script stream n got ≡ as_io (read_exact script stream n got)
unfolding read_loop read_exact
read_loop-read_exact script stream zero got = refl
read_loop-read_exact [] stream (suc n) got = refl
read_loop-read_exact (moves k ∷ script) [] (suc n) got = refl
read_loop-read_exact (moves k ∷ script) (b ∷ stream) (suc n) got =
    let r = suc (smaller k (smaller n (length stream))) in
    read_loop-read_exact script (drop r (b ∷ stream)) (suc n - r) (got ++ take r (b ∷ stream))
read_loop-read_exact (interrupted ∷ script) stream (suc n) got =
    read_loop-read_exact script stream (suc n) got
read_loop-read_exact (times_out ∷ script) stream (suc n) got = refl
read_loop-read_exact (fails what ∷ script) stream (suc n) got = refl

-- What the write loop leaves, without its empty value.
abbrev pub as_write : Run (Unit {0}) → Io (List ℕ × List Answer)
as_write (done _ out script) = gives (out, script)
as_write (throws what) = minus_one
as_write blocked = waits

write_loop-write_exact :
    (script : List Answer) (left out : List ℕ)
    → write_loop script left out ≡ as_write (write_exact script left out)
unfolding write_loop write_exact
write_loop-write_exact script [] out = refl
write_loop-write_exact [] (b ∷ left) out = refl
write_loop-write_exact (moves k ∷ script) (b ∷ left) out =
    let w = suc (smaller k (length left)) in
    write_loop-write_exact script (drop w (b ∷ left)) (out ++ take w (b ∷ left))
write_loop-write_exact (interrupted ∷ script) (b ∷ left) out =
    write_loop-write_exact script (b ∷ left) out
write_loop-write_exact (times_out ∷ script) (b ∷ left) out = refl
write_loop-write_exact (fails what ∷ script) (b ∷ left) out = refl

-- The module's own transfers do what the library's do, in every script of answers: they give -1
-- just where `read_exact` and `write_exact` throw, and else move the same bytes with the same calls.
pub read_all-write_all :
    (c : Conn) (n : ℕ) (bytes : List ℕ)
    → (read_all c n ≡ (
        as_io (read_exact c.script c.stream n []) >>= λ r.
        gives (r.0, record c { stream = r.1; script = r.2 })))
      × (write_all c bytes ≡ (
          as_write (write_exact c.script bytes c.sent) >>= λ r.
          gives (record c { sent = r.0; script = r.1 })))
unfolding read_all write_all
read_all-write_all c n bytes = (
  ap (λ r. r >>= λ q. gives (q.0, record c { stream = q.1; script = q.2 }))
      (read_loop-read_exact c.script c.stream n []),
  ap (λ r. r >>= λ q. gives (record c { sent = q.0; script = q.1 }))
      (write_loop-write_exact c.script bytes c.sent),
)
