-- ===== src/Daemon/Pipeline/Watchdog.antt =====
-- daemon/pipeline.cpp: how the pipeline starts and ends, and the thread that closes a stream left
-- open, `idle_keeper_loop`. Times are nanoseconds of the steady clock.
pub mod Closing
use chowdy.Base.{
  ℕ, zero, suc, ◌+◌, ◌-◌, ◌*◌, ◌%◌, ◌^◌, Bool, true, false, ◌&&◌, not, List, [], ◌∷◌, Option, none,
  some, Str, codes, Result, ok, err, ℤ, pos, negsuc, ltb, leb, nat_eq, ◌==◌, Str-Eq, if◌then◌else◌,
  pos_part,
}
use chowdy.Daemon.Pipeline.{
  Pipeline, PipelineConfig, OpenAnswer, ensure_camera_open, release_camera,
}

abbrev is_positive : ℤ → Bool
is_positive n = ltb 0 (pos_part n)

-- The window of the thread in milliseconds, if it is started.
unfoldable pub watchdog_window : PipelineConfig → Option ℕ
watchdog_window cfg =
    if cfg.camera_policy == codes "idle_keep" && is_positive cfg.idle_keep_ms
    then some (pos_part cfg.idle_keep_ms)
    else if cfg.camera_policy == codes "lazy" && is_positive cfg.lazy_safety_close_ms
    then some (pos_part cfg.lazy_safety_close_ms)
    else none

-- The constructor's eager opening; its failure is only logged.
unfoldable pub open_if_warm : OpenAnswer → Result (Unit {0}) → ℕ → Pipeline → Pipeline
unfolding ensure_camera_open
open_if_warm o s now p =
    if p.cfg.camera_policy == codes "warm" then (ensure_camera_open o s now p).0 else p

-- The body of the destructor, once the thread is joined.
unfoldable pub shut_down : Pipeline → Pipeline
unfolding release_camera
shut_down p = release_camera p

abbrev pub ns_per_ms : ℕ
ns_per_ms = 1000000

stop_if_streaming : Pipeline → Pipeline
stop_if_streaming p =
    if p.camera.is_streaming
    then record p {
      camera = record { is_open = p.camera.is_open; is_streaming = false };
      frames_since_open = 0;
      use_gen = (p.use_gen + 1) % 2 ^ 64;
    }
    else p

-- One round of the loop that is not told to stop, at the time `now`; a stream that was never used
-- has no time of last use.
unfoldable pub idle_round : ℕ → ℕ → Pipeline → Pipeline
unfolding stop_if_streaming
idle_round window_ms now p =
    if nat_eq p.last_use 0
    then p
    else if leb (window_ms * ns_per_ms) (now - p.last_use)
    then stop_if_streaming p
    else p

-- The rounds at these times, while nothing else touches the pipeline.
unfoldable pub idle_keeper_loop : ℕ → List ℕ → Pipeline → Pipeline
unfolding idle_round
idle_keeper_loop window_ms [] p = p
idle_keeper_loop window_ms (now ∷ times) p =
    idle_keeper_loop window_ms times (idle_round window_ms now p)
