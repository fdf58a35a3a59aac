-- ===== src/Pam/Login/Exchange.antt =====
-- pam/pam_chowdy.c: the exchange with the daemon, in frames.
use chowdy.Base.{
  ℕ, ◌+◌, ◌≤◌, ◌<◌, ◌≡◌, refl, ap, sym, ◌∙◌, arith, Bool, true, false, ◌||◌, List, [], ◌++◌, Str,
  take, drop, length, length-append, take-append, drop-append, nat_eq, ltb, leb, if◌then◌else◌,
}
use chowdy.Ipc.Stream.{Answer, Run, done, throws, blocked, read_exact}
use chowdy.Ipc.Stream.Laws.{
  IsHealthy, move_count, read_exact-Ends, write_exact-Ends, read_exact-exact,
}
use chowdy.Ipc.Frame.{be_bytes, be_value}
use chowdy.Ipc.Frame.Laws.{frame, length-be_bytes, be_value-be_bytes}
use chowdy.Pam.Wire.{Io, gives, minus_one, waits, ◌>>=◌, Conn, read_all, write_all, write_loop}
use chowdy.Pam.Wire.Laws.{as_io, read_all-write_all}
use chowdy.Pam.Login.{recv_buf_size, read_answer, exchange}

-- A transfer that ends well leaves a script from which others can go on.
pub record Serves (c after : Conn) (n : ℕ) : Type 0 where
  pub healthy : IsHealthy after.script
  pub moves_left : move_count c.script ≤ move_count after.script + n

write_all-Serves :
    (c : Conn) (bytes : List ℕ)
    → IsHealthy c.script
    → length bytes ≤ move_count c.script
    → (s : List Answer) × (write_all c bytes
        ≡ gives (record { script = s; stream = c.stream; sent = c.sent ++ bytes }))
      × Serves c (record { script = s; stream = c.stream; sent = c.sent ++ bytes }) (length bytes)
write_all-Serves c bytes h m =
    let e = write_exact-Ends c.script bytes c.sent h m in
    (
      e.script,
      (read_all-write_all c 0 bytes).1 ∙ rw e.ends refl,
      record { healthy = e.healthy; moves_left = e.moves_left },
    )

read_all-Serves :
    (c : Conn) (n : ℕ)
    → IsHealthy c.script
    → n ≤ move_count c.script
    → n ≤ length c.stream
    → (s : List Answer) × (read_all c n
        ≡ gives (take n c.stream, record { script = s; stream = drop n c.stream; sent = c.sent }))
      × Serves c (record { script = s; stream = drop n c.stream; sent = c.sent }) n
read_all-Serves c n h m l =
    let e = read_exact-Ends c.script c.stream n [] h m l in
    (
      e.script,
      (read_all-write_all c n []).0 ∙ rw e.ends refl,
      record { healthy = e.healthy; moves_left = e.moves_left },
    )

-- Whatever the script: what `read_all` gives are the next `n` bytes.
as_io-exact :
    (r : Run (List ℕ)) (c : Conn) (n : ℕ) {bytes : List ℕ} {after : Conn}
    → ((v rest : List ℕ) (s : List Answer)
        → r ≡ done v rest s
        → (v ++ rest ≡ c.stream) × (length v ≡ n))
    → ◌>>=◌ {To = List ℕ × Conn}
        (as_io r)
        (λ q. gives (q.0, record c { stream = q.1; script = q.2 }))
      ≡ gives (bytes, after)
    → (bytes ++ after.stream ≡ c.stream) × (length bytes ≡ n)
as_io-exact (done v rest s) c n exact h =
    let (whole, long) = exact v rest s refl in (cc whole, cc long)
as_io-exact (throws what) c n exact h = absurd (cc)
as_io-exact blocked c n exact h = absurd (cc)

pub read_all-exact :
    (c : Conn) (n : ℕ) {bytes : List ℕ} {after : Conn}
    → read_all c n ≡ gives (bytes, after)
    → (bytes ++ after.stream ≡ c.stream) × (length bytes ≡ n)
read_all-exact c n h =
    as_io-exact (read_exact c.script c.stream n []) c n
      (λ v rest s e.
        let (whole, long) = read_exact-exact c.script c.stream n [] e in
        (whole, omega (arith, long)))
      (sym ((read_all-write_all c n []).0) ∙ h)

write_loop-stream :
    (c : Conn) (r : Io (List ℕ × List Answer)) {after : Conn}
    → ◌>>=◌ {To = Conn} r (λ q. gives (record c { sent = q.0; script = q.1 })) ≡ gives after
    → after.stream ≡ c.stream
write_loop-stream c (gives q) h = cc
write_loop-stream c minus_one h = absurd (cc)
write_loop-stream c waits h = absurd (cc)

write_all-stream :
    (c : Conn) (bytes : List ℕ) {after : Conn}
    → write_all c bytes ≡ gives after
    → after.stream ≡ c.stream
unfolding write_all
write_all-stream c bytes h = write_loop-stream c (write_loop c.script bytes c.sent) h

module _ {ℓ κ} {A : Type ℓ} {B : Type κ} where
  -- A chain that gives a value gives one at each of its steps.
  pub bind-gives :
      (m : Io A) (f : A → Io B) {b : B}
      → (m >>= f) ≡ gives b
      → (a : A) × (m ≡ gives a) × (f a ≡ gives b)
  bind-gives (gives a) f h = (a, refl, h)
  bind-gives minus_one f h = absurd (cc)
  bind-gives waits f h = absurd (cc)

module _ {ℓ} {A : Type ℓ} where
  guard-gives :
      (refuse : Bool) (m : Io A) {a : A}
      → (if refuse then minus_one else m) ≡ gives a
      → (refuse ≡ false) × (m ≡ gives a)
  guard-gives true m h = absurd (cc)
  guard-gives false m h = (refl, h)

-- With a healthy kernel the request goes out as one frame, and a daemon's frame of 1 to 8192 bytes
-- comes back as the answer.
pub exchange-frame :
    (script : List Answer) (payload answer rest : List ℕ)
    → IsHealthy script
    → 0 < length payload
    → length payload < 256
    → 0 < length answer
    → length answer ≤ recv_buf_size
    → 8 + length payload + length answer ≤ move_count script
    → (after : Conn) × (exchange
          (record {
            script = script;
            stream = be_bytes (length answer) ++ (answer ++ rest);
            sent = [];
          })
          payload
        ≡ gives (answer, after))
      × (after.sent ≡ frame payload)
unfolding exchange read_answer
exchange-frame script payload answer rest h lo hi lo2 hi2 m =
    let header = be_bytes (length payload) in
    let before = be_bytes (length answer) in
    let c0 : Conn = record { script = script; stream = before ++ (answer ++ rest); sent = [] } in
    let (s1, w1, k1) =
      write_all-Serves c0 header h (omega (arith, length-be_bytes (length payload))) in
    let c1 : Conn = record { script = s1; stream = before ++ (answer ++ rest); sent = header } in
    let (s2, w2, k2) =
      write_all-Serves c1 payload k1.healthy
        (omega (arith, k1.moves_left, length-be_bytes (length payload))) in
    let c2 : Conn = record {
      script = s2;
      stream = before ++ (answer ++ rest);
      sent = header ++ payload;
    } in
    let (s3, r1, k3) =
      read_all-Serves c2 4 k2.healthy
        (omega (arith, k1.moves_left, k2.moves_left, length-be_bytes (length payload)))
        (omega (arith, length-append before (answer ++ rest), length-be_bytes (length answer))) in
    let c3 : Conn = record { script = s3; stream = answer ++ rest; sent = header ++ payload } in
    let r1' : read_all c2 4 ≡ gives (before, c3) =
      rw
        (
          take-append before (answer ++ rest) 4 (length-be_bytes (length answer)),
          drop-append before (answer ++ rest) 4 (length-be_bytes (length answer)),
        )
        at r1 in
    let (s4, r2, k4) =
      read_all-Serves c3 (length answer) k3.healthy
        (omega
          (arith, k1.moves_left, k2.moves_left, k3.moves_left, length-be_bytes (length payload)))
        (omega (arith, length-append answer rest)) in
    let c4 : Conn = record { script = s4; stream = rest; sent = header ++ payload } in
    let r2' : read_all c3 (length answer) ≡ gives (answer, c4) =
      rw
        (take-append answer rest (length answer) refl, drop-append answer rest (length answer) refl)
        at r2 in
    let fits : (nat_eq (length payload) 0 || leb 256 (length payload)) ≡ false = ground arith in
    let sane : (nat_eq (length answer) 0 || ltb recv_buf_size (length answer)) ≡ false =
      ground arith in
    (
      c4,
      rw fits (
          rw w1
            (rw w2 (rw r1' (rw (be_value-be_bytes (length answer) (omega arith)) (rw sane r2'))))),
      refl,
    )

-- What the daemon's bytes were, if an answer was taken: a length between 1 and 8192 in four bytes,
-- and that many bytes of answer.
pub exchange-stream :
    (c : Conn) (payload : List ℕ) {answer : Str} {after : Conn}
    → exchange c payload ≡ gives (answer, after)
    → (header : List ℕ) × (c.stream ≡ header ++ (answer ++ after.stream))
      × (length header ≡ 4)
      × (length answer ≡ be_value header)
      × (0 < length answer)
      × (length answer ≤ recv_buf_size)
unfolding exchange read_answer
exchange-stream c payload h =
    let (fits, h0) = guard-gives (nat_eq (length payload) 0 || leb 256 (length payload)) _ h in
    let (c1, w1, h1) = bind-gives (write_all c (be_bytes (length payload))) _ h0 in
    let (c2, w2, h2) = bind-gives (write_all c1 payload) _ h1 in
    let (b, r1, h3) = bind-gives (read_all c2 4) _ h2 in
    let (some_bytes, r2) =
      guard-gives (nat_eq (be_value b.0) 0 || ltb recv_buf_size (be_value b.0)) _ h3 in
    let (e1, l1) = read_all-exact c2 4 r1 in
    let (e2, l2) = read_all-exact b.1 (be_value b.0) r2 in
    (
      b.0,
      sym (write_all-stream c _ w1)
          ∙ sym (write_all-stream c1 _ w2)
          ∙ sym e1
          ∙ ap (λ t. b.0 ++ t) (sym e2),
      l1,
      l2,
      ground (arith, some_bytes, l2),
      ground (arith, some_bytes, l2),
    )
