-- ===== src/Daemon/Pipeline/Watchdog/Closing.antt =====
-- daemon/pipeline.cpp: when a stream that is no longer used is closed.
use chowdy.Base.{
  ℕ, ◌+◌, ◌-◌, ◌*◌, ◌≤◌, ◌<◌, ◌≡◌, refl, ap, ◌∙◌, arith, Bool, true, false, List, [], ◌∷◌, ◌++◌,
  Any, inl, inr, leb, nat_eq, Bool-cases, if◌then◌else◌,
}
use chowdy.Daemon.Pipeline.{Pipeline}
use chowdy.Daemon.Pipeline.Watchdog.{ns_per_ms, stop_if_streaming, idle_round, idle_keeper_loop}

-- Each time follows the one before it by at most `pause`.
abbrev pub IsPaced : ℕ → ℕ → List ℕ → Type 0
IsPaced pause before [] = Unit
IsPaced pause before (now ∷ times) =
    ((before ≤ now) × (now ≤ before + pause)) × IsPaced pause now times

-- A first part of the rounds, the last of them no later than `deadline`, leaves the stream off.
pub record Closes (window_ms : ℕ) (times : List ℕ) (p : Pipeline) (deadline : ℕ) : Type 0 where
  pub earlier : List ℕ
  pub now : ℕ
  pub later : List ℕ
  pub split : times ≡ earlier ++ (now ∷ later)
  pub in_time : now ≤ deadline
  pub closed : (idle_keeper_loop window_ms (earlier ++ (now ∷ [])) p).camera.is_streaming ≡ false

if-off :
    (b : Bool) (x y : Pipeline)
    → x.camera.is_streaming ≡ false
    → (b ≡ false → y.camera.is_streaming ≡ false)
    → (if b then x else y).camera.is_streaming ≡ false
if-off true x y hx hy = hx
if-off false x y hx hy = hy refl

stop_if_streaming-off : (p : Pipeline) → (stop_if_streaming p).camera.is_streaming ≡ false
unfolding stop_if_streaming
stop_if_streaming-off p = if-off p.camera.is_streaming _ p refl (λ e. e)

idle_round-late :
    (window_ms now : ℕ) (p : Pipeline)
    → 0 < p.last_use
    → p.last_use + window_ms * ns_per_ms ≤ now
    → 0 < window_ms
    → (idle_round window_ms now p).camera.is_streaming ≡ false
unfolding idle_round
idle_round-late window_ms now p used late w =
    let known : nat_eq p.last_use 0 ≡ false = ground arith in
    let over : leb (window_ms * ns_per_ms) (now - p.last_use) ≡ true = ground arith in
    rw (known, over) (stop_if_streaming-off p)

idle_round-early :
    (window_ms now : ℕ) (p : Pipeline)
    → 0 < window_ms
    → now < p.last_use + window_ms * ns_per_ms
    → idle_round window_ms now p ≡ p
unfolding idle_round
idle_round-early window_ms now p w early =
    let under : leb (window_ms * ns_per_ms) (now - p.last_use) ≡ false = ground arith in
    rw under (ground arith)

still_goes :
    (used window_ms now : ℕ) (times : List ℕ)
    → leb (used + window_ms * ns_per_ms) now ≡ false
    → Any (λ t. used + window_ms * ns_per_ms ≤ t) (now ∷ times)
    → Any (λ t. used + window_ms * ns_per_ms ≤ t) times
still_goes used window_ms now times early (inl here) = absurd (ground arith)
still_goes used window_ms now times early (inr later) = later

-- A stream whose last use lies back is closed: if the rounds follow one another by at most `pause`,
-- the loop was awake before the window was over and goes on until it is, then a round that comes no
-- later than `pause` after the window's end leaves the stream off. With rounds every half window that
-- is one and a half windows after the last use.
pub idle_keeper_loop-Closes :
    (window_ms pause before : ℕ) (times : List ℕ) (p : Pipeline)
    → 0 < window_ms
    → 0 < p.last_use
    → before ≤ p.last_use + window_ms * ns_per_ms
    → IsPaced pause before times
    → Any (λ now. p.last_use + window_ms * ns_per_ms ≤ now) times
    → Closes window_ms times p (p.last_use + window_ms * ns_per_ms + pause)
unfolding idle_keeper_loop
idle_keeper_loop-Closes window_ms pause before [] p w used awake paced goes = absurd goes
idle_keeper_loop-Closes window_ms pause before (now ∷ times) p w used awake paced goes =
    elim (Bool-cases (leb (p.last_use + window_ms * ns_per_ms) now)) [
      | inl late ↦ record {
        earlier = [];
        now = now;
        later = times;
        split = refl;
        in_time = omega (arith, paced);
        closed = idle_round-late window_ms now p used (ground arith) w;
      }
      | inr early ↦
          let same = idle_round-early window_ms now p w (ground arith) in
          let rest =
            idle_keeper_loop-Closes window_ms pause now times p w used (ground arith) paced.1
              (still_goes p.last_use window_ms now times early goes) in
          record {
            earlier = now ∷ rest.earlier;
            now = rest.now;
            later = rest.later;
            split = ap (◌∷◌ now) rest.split;
            in_time = rest.in_time;
            closed =
                ap
                  (λ q.
                    (idle_keeper_loop window_ms (rest.earlier ++ (rest.now ∷ []))
                      q).camera.is_streaming)
                  same
                ∙ rest.closed;
          }
    ]
