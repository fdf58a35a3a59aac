-- ===== src/Ipc/Stream/Laws.antt =====
-- What the read and write loops promise, however the kernel splits the transfers.
use chowdy.Base.{
  ℕ, zero, suc, ◌+◌, ◌-◌, ◌≤◌, ◌<◌, ◌≡◌, refl, ap, ◌∙◌, List, [], ◌∷◌, ◌++◌, arith, append_assoc,
  append-nil, length, length-append, take, drop, take-append-drop, length-take_le, length-drop,
  codes,
}
use chowdy.Ipc.Stream.{
  Answer, moves, interrupted, times_out, fails, Run, done, throws, smaller, read_exact, write_exact,
}

-- A script with no error in it, however often the calls are interrupted.
abbrev pub IsHealthy : List Answer → Type 0
IsHealthy [] = Unit
IsHealthy (moves k ∷ s) = IsHealthy s
IsHealthy (interrupted ∷ s) = IsHealthy s
IsHealthy (times_out ∷ s) = ⊥
IsHealthy (fails what ∷ s) = ⊥

-- The calls that move bytes.
abbrev pub move_count : List Answer → ℕ
move_count [] = 0
move_count (moves k ∷ s) = suc (move_count s)
move_count (_ ∷ s) = move_count s

-- A loop that ends well, in a state from which others can go on: it took at most `n` moves.
pub record Ends {ℓ} {A : Type ℓ} (r : Run A) (v : A) (rest : List ℕ) (n : ℕ) (s : List Answer)
    : Type ℓ where
  pub script : List Answer
  pub ends : r ≡ done v rest script
  pub healthy : IsHealthy script
  pub moves_left : move_count s ≤ move_count script + n

sub-zero : (n : ℕ) → n - 0 ≡ n
sub-zero n = omega arith

suc-sub-suc : (n r : ℕ) → suc n - suc r ≡ n - r
suc-sub-suc n r = omega arith

take_split :
    (r n : ℕ) (bs : List ℕ)
    → r ≤ n
    → n ≤ length bs
    → take r bs ++ take (n - r) (drop r bs) ≡ take n bs
take_split zero n bs h k = rw (sub-zero n)
take_split (suc r) zero bs h k = absurd (omega arith)
take_split (suc r) (suc n) [] h k = absurd (omega arith)
take_split (suc r) (suc n) (b ∷ bs) h k =
    rw (suc-sub-suc n r) (ap (◌∷◌ b) (take_split r n bs (omega arith) (omega arith)))

drop_split : (r n : ℕ) (bs : List ℕ) → r ≤ n → n ≤ length bs → drop (n - r) (drop r bs) ≡ drop n bs
drop_split zero n bs h k = rw (sub-zero n)
drop_split (suc r) zero bs h k = absurd (omega arith)
drop_split (suc r) (suc n) [] h k = absurd (omega arith)
drop_split (suc r) (suc n) (b ∷ bs) h k =
    rw (suc-sub-suc n r) (drop_split r n bs (omega arith) (omega arith))

smaller-le : (a b : ℕ) → (smaller a b ≤ a) × (smaller a b ≤ b)
smaller-le a b = ground arith

-- With the bytes there and enough calls that move some, `read_exact` returns just the next `n`.
pub read_exact-Ends :
    (s : List Answer) (st : List ℕ) (n : ℕ) (got : List ℕ)
    → IsHealthy s
    → n ≤ move_count s
    → n ≤ length st
    → Ends (read_exact s st n got) (got ++ take n st) (drop n st) n s
unfolding read_exact
read_exact-Ends s st zero got h k l = record {
  script = s;
  ends = ground (arith, append-nil got);
  healthy = h;
  moves_left = omega arith;
}
read_exact-Ends [] st (suc n) got h k l = absurd (omega arith)
read_exact-Ends (moves k ∷ s) [] (suc n) got h m l = absurd (omega arith)
read_exact-Ends (moves k ∷ s) (b ∷ st) (suc n) got h m l =
    let q = smaller k (smaller n (length st)) in
    let short : (q ≤ n) × (q ≤ length st) =
      omega (arith, smaller-le k (smaller n (length st)), smaller-le n (length st)) in
    let ih =
      read_exact-Ends s (drop q st) (suc n - suc q) (got ++ b ∷ take q st) h (omega arith)
        (omega (arith, length-drop q st)) in
    record {
      script = ih.script;
      ends =
          ih.ends
          ∙ ground (
            arith,
            suc-sub-suc n q,
            append_assoc got (b ∷ take q st) (take (n - q) (drop q st)),
            take_split q n st,
            drop_split q n st,
          );
      healthy = ih.healthy;
      moves_left = omega (arith, ih.moves_left);
    }
read_exact-Ends (interrupted ∷ s) st (suc n) got h k l =
    let ih = read_exact-Ends s st (suc n) got h k l in
    record { script = ih.script; ends = ih.ends; healthy = ih.healthy; moves_left = ih.moves_left }
read_exact-Ends (times_out ∷ s) st (suc n) got h k l = absurd h
read_exact-Ends (fails what ∷ s) st (suc n) got h k l = absurd h

-- A peer that closes early is noticed: with fewer bytes than asked for, `read_exact` throws.
read_exact-closed :
    (s : List Answer) (st : List ℕ) (n : ℕ) (got : List ℕ)
    → IsHealthy s
    → n ≤ move_count s
    → length st < n
    → read_exact s st n got ≡ throws (codes "peer closed mid-frame")
unfolding read_exact
read_exact-closed s st zero got h k l = absurd (omega arith)
read_exact-closed [] st (suc n) got h k l = absurd (omega arith)
read_exact-closed (moves k ∷ s) [] (suc n) got h m l = refl
read_exact-closed (moves k ∷ s) (b ∷ st) (suc n) got h m l =
    let q = smaller k (smaller n (length st)) in
    let short : (q ≤ n) × (q ≤ length st) =
      omega (arith, smaller-le k (smaller n (length st)), smaller-le n (length st)) in
    read_exact-closed s (drop q st) (suc n - suc q) (got ++ b ∷ take q st) h (omega arith)
      (omega (arith, length-drop q st))
read_exact-closed (interrupted ∷ s) st (suc n) got h k l = read_exact-closed s st (suc n) got h k l
read_exact-closed (times_out ∷ s) st (suc n) got h k l = absurd h
read_exact-closed (fails what ∷ s) st (suc n) got h k l = absurd h

-- Whatever the script, errors included: a read that ends well took exactly the next `n` bytes.
pub read_exact-exact :
    (s : List Answer) (st : List ℕ) (n : ℕ) (got : List ℕ) {v rest : List ℕ} {s' : List Answer}
    → read_exact s st n got ≡ done v rest s'
    → (v ++ rest ≡ got ++ st) × (length v ≡ length got + n)
unfolding read_exact
read_exact-exact s st zero got e = ground (arith, e)
read_exact-exact [] st (suc n) got e = cc
read_exact-exact (moves k ∷ s) [] (suc n) got e = cc
read_exact-exact (moves k ∷ s) (b ∷ st) (suc n) got e =
    let q = smaller k (smaller n (length st)) in
    let short : (q ≤ n) × (q ≤ length st) =
      omega (arith, smaller-le k (smaller n (length st)), smaller-le n (length st)) in
    let ih = read_exact-exact s (drop q st) (suc n - suc q) (got ++ b ∷ take q st) e in
    (
      ih.0
          ∙ append_assoc got (b ∷ take q st) (drop q st)
          ∙ ap (λ r. got ++ b ∷ r) (take-append-drop q st),
      omega (arith, ih.1, length-append got (b ∷ take q st), length-take_le q st),
    )
read_exact-exact (interrupted ∷ s) st (suc n) got e = read_exact-exact s st (suc n) got e
read_exact-exact (times_out ∷ s) st (suc n) got e = cc
read_exact-exact (fails what ∷ s) st (suc n) got e = cc

-- With enough calls that move some, `write_exact` sends everything, once and in order.
pub write_exact-Ends :
    (s : List Answer) (bs out : List ℕ)
    → IsHealthy s
    → length bs ≤ move_count s
    → Ends (write_exact s bs out) tt (out ++ bs) (length bs) s
unfolding write_exact
write_exact-Ends s [] out h k = record {
  script = s;
  ends = ground (arith, append-nil out);
  healthy = h;
  moves_left = omega arith;
}
write_exact-Ends [] (b ∷ bs) out h k = absurd (omega arith)
write_exact-Ends (moves k ∷ s) (b ∷ bs) out h m =
    let q = smaller k (length bs) in
    let short : q ≤ length bs = omega (arith, smaller-le k (length bs)) in
    let ih =
      write_exact-Ends s (drop q bs) (out ++ b ∷ take q bs) h (omega (arith, length-drop q bs)) in
    record {
      script = ih.script;
      ends =
          ih.ends
          ∙ ap (λ o. done tt o ih.script)
              (append_assoc out (b ∷ take q bs) (drop q bs)
                ∙ ap (λ r. out ++ b ∷ r) (take-append-drop q bs));
      healthy = ih.healthy;
      moves_left = omega (arith, ih.moves_left, length-drop q bs);
    }
write_exact-Ends (interrupted ∷ s) (b ∷ bs) out h k =
    let ih = write_exact-Ends s (b ∷ bs) out h k in
    record { script = ih.script; ends = ih.ends; healthy = ih.healthy; moves_left = ih.moves_left }
write_exact-Ends (times_out ∷ s) (b ∷ bs) out h k = absurd h
write_exact-Ends (fails what ∷ s) (b ∷ bs) out h k = absurd h
