-- ===== src/Ipc/Frame/Laws.antt =====
-- What goes over a socket as a frame.
use native.Mathlib.Nat.{mod-eq_of_lt}
use chowdy.Base.{
  ℕ, ◌+◌, ◌^◌, ◌≤◌, ◌<◌, ◌≡◌, ◌⊎◌, inl, inr, refl, ap, ◌∙◌, List, [], ◌++◌, arith, append_assoc,
  length, length-append, take, drop, take-append, drop-append, Str, codes, Result, ok, ◌%◌, ltb,
  true, false, ℕ-Eq, ◌==◌,
}
use chowdy.Base.Decimal.{decimal}
use chowdy.Ipc.Stream.{Answer, done, throws, read_exact, write_exact}
use chowdy.Ipc.Stream.Laws.{IsHealthy, move_count, Ends, read_exact-Ends, write_exact-Ends}
use chowdy.Ipc.Frame.{
  be_bytes, be_value, write_limit, lift, read_payload, read_message, write_message,
}

pub be_value-be_bytes : (v : ℕ) → v < 2 ^ 32 → be_value (be_bytes v) ≡ v
unfolding be_value be_bytes
be_value-be_bytes v h = omega arith

pub length-be_bytes : (v : ℕ) → length (be_bytes v) ≡ 4
unfolding be_bytes
length-be_bytes v = refl

-- The bytes of a frame.
abbrev pub frame : List ℕ → List ℕ
frame payload = be_bytes (length payload) ++ payload

module _ {J : Type 0} (dump : J → Str) (parse : List ℕ → Result J) where
  write_message-good :
      (s : List Answer) (out : List ℕ) (j : J) {n m : ℕ} {z : List Answer}
      → length (dump j) ≤ write_limit
      → (first : Ends
          (write_exact s (be_bytes (length (dump j))) out)
          tt
          (out ++ be_bytes (length (dump j)))
          n
          s)
      → (second : Ends
          (write_exact first.script (dump j) (out ++ be_bytes (length (dump j))))
          tt
          ((out ++ be_bytes (length (dump j))) ++ dump j)
          m
          z)
      → write_message dump s out j ≡ done tt (out ++ frame (dump j)) second.script
  unfolding write_message
  write_message-good s out j k first second =
      let small : ltb write_limit (length (dump j)) ≡ false = ground arith in
      let fits : length (dump j) % 2 ^ 32 ≡ length (dump j) = mod-eq_of_lt (omega arith) in
      rw (small, fits)
        (rw first.ends (
          second.ends
          ∙ ap (λ o. done tt o second.script)
              (append_assoc out (be_bytes (length (dump j))) (dump j))))

  -- A payload of at most 2^30 bytes is sent as one frame, after what was sent before.
  pub write_message-frame :
      (s : List Answer) (out : List ℕ) (j : J)
      → IsHealthy s
      → length (dump j) ≤ write_limit
      → 4 + length (dump j) ≤ move_count s
      → (s' : List Answer) × (write_message dump s out j ≡ done tt (out ++ frame (dump j)) s')
  write_message-frame s out j h k m =
      let header = be_bytes (length (dump j)) in
      let first =
        write_exact-Ends s header out h (omega (arith, length-be_bytes (length (dump j)))) in
      let second =
        write_exact-Ends first.script (dump j) (out ++ header) first.healthy
          (omega (arith, first.moves_left, length-be_bytes (length (dump j)))) in
      (second.script, write_message-good s out j k first second)

  read_payload-good :
      (limit : ℕ) (payload rest : List ℕ) (s : List Answer) {n : ℕ}
      → (r : Ends
          (read_exact s (payload ++ rest) (length payload) [])
          (take (length payload) (payload ++ rest))
          (drop (length payload) (payload ++ rest))
          n
          s)
      → 0 < length payload
      → length payload ≤ limit
      → read_payload parse limit (length payload) (payload ++ rest) s
        ≡ lift (parse payload) rest r.script
  unfolding read_payload
  read_payload-good limit payload rest s r lo hi =
      let some_bytes : (length payload == 0) ≡ false = ground arith in
      let few_bytes : ltb limit (length payload) ≡ false = ground arith in
      rw (some_bytes, few_bytes)
        (rw r.ends (
          rw (take-append payload rest (length payload) refl)
            (rw (drop-append payload rest (length payload) refl))))

  -- Reading the frame gives what `parse` makes of the payload, and leaves what follows.
  pub read_message-frame :
      (limit : ℕ) (s : List Answer) (payload rest : List ℕ)
      → IsHealthy s
      → 0 < length payload
      → length payload ≤ limit
      → limit < 2 ^ 32
      → 4 + length payload ≤ move_count s
      → (s' : List Answer) × (read_message parse limit s (frame payload ++ rest)
          ≡ lift (parse payload) rest s')
  unfolding read_message
  read_message-frame limit s payload rest h lo hi cap m =
      let header = be_bytes (length payload) in
      let first =
        read_exact-Ends s (header ++ (payload ++ rest)) 4 [] h (omega arith) (
          omega
            (arith, length-be_bytes (length payload), length-append header (payload ++ rest))) in
      let second =
        read_exact-Ends first.script (payload ++ rest) (length payload) [] first.healthy
          (omega (arith, first.moves_left)) (omega (arith, length-append payload rest)) in
      (
        second.script,
        rw (append_assoc header payload rest) (
            rw first.ends (
              rw (take-append header (payload ++ rest) 4 (length-be_bytes (length payload))) (
                rw (drop-append header (payload ++ rest) 4 (length-be_bytes (length payload))) (
                  rw (be_value-be_bytes (length payload) (omega arith))
                    (read_payload-good limit payload rest first.script second lo hi))))),
      )

  -- What `write_message` sends, `read_message` reads back as the same document and leaves the
  -- bytes behind it, however the kernel splits the transfers on both sides: if `parse` reads back
  -- what `dump` prints, and the text has between 1 byte and the reader's limit of at most 2^30.
  pub read_message-write_message :
      (limit : ℕ) (ws rs : List Answer) (rest : List ℕ) (j : J)
      → parse (dump j) ≡ ok j
      → 0 < length (dump j)
      → length (dump j) ≤ limit
      → limit ≤ write_limit
      → IsHealthy ws
      → 4 + length (dump j) ≤ move_count ws
      → IsHealthy rs
      → 4 + length (dump j) ≤ move_count rs
      → (sent : List ℕ) × (ws' : List Answer) × (rs' : List Answer) × (write_message dump ws [] j
          ≡ done tt sent ws')
        × (read_message parse limit rs (sent ++ rest) ≡ done j rest rs')
  read_message-write_message limit ws rs rest j parses lo hi cap hw mw hr mr =
      let (ws', wrote) = write_message-frame ws [] j hw (omega arith) mw in
      let (rs', read) = read_message-frame limit rs (dump j) rest hr lo hi (omega arith) mr in
      (frame (dump j), ws', rs', wrote, read ∙ rw parses)

  read_payload-refused :
      (limit len : ℕ) (stream : List ℕ) (s : List Answer)
      → (len ≡ 0) ⊎ (limit < len)
      → (what : Str) × (read_payload parse limit len stream s ≡ throws what)
  unfolding read_payload
  read_payload-refused limit len stream s (inl e) =
      let no_bytes : (len == 0) ≡ true = ground arith in (codes "empty frame", rw no_bytes)
  read_payload-refused limit len stream s (inr l) =
      let some_bytes : (len == 0) ≡ false = ground arith in
      let many_bytes : ltb limit len ≡ true = ground arith in
      (codes "frame too large: " ++ decimal len, rw (some_bytes, many_bytes))

  -- A frame that announces no byte or more than the limit is refused before its payload is read.
  pub read_message-refused :
      (limit len : ℕ) (s : List Answer) (rest : List ℕ)
      → IsHealthy s
      → 4 ≤ move_count s
      → len < 2 ^ 32
      → (len ≡ 0) ⊎ (limit < len)
      → (what : Str) × (read_message parse limit s (be_bytes len ++ rest) ≡ throws what)
  unfolding read_message
  read_message-refused limit len s rest h m fits out =
      let header = be_bytes len in
      let first =
        read_exact-Ends s (header ++ rest) 4 [] h (omega arith)
          (omega (arith, length-be_bytes len, length-append header rest)) in
      let (what, refused) = read_payload-refused limit len rest first.script out in
      (
        what,
        rw first.ends (
            rw (take-append header rest 4 (length-be_bytes len)) (
              rw (drop-append header rest 4 (length-be_bytes len))
                (rw (be_value-be_bytes len fits) refused))),
      )
