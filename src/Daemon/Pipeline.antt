-- ===== src/Daemon/Pipeline.antt =====
-- daemon/pipeline.hpp and daemon/pipeline.cpp: the camera's life cycle and one captured frame. Every
-- definition is what runs while the pipeline's mutex is held. What OpenCV, the driver and the models
-- answer is an argument (`Shot`); times are nanoseconds of the steady clock.
pub mod Config
pub mod Lamp
pub mod Watchdog
use chowdy.Base.{
  ℕ, suc, ◌+◌, ◌%◌, ◌^◌, Bool, true, false, ◌&&◌, not, List, [], ◌∷◌, ◌++◌, Option, none, some, Str,
  codes, Result, ok, err, ℤ, pos, leb_ℤ, ◌==◌, Str-Eq, ℕ-Eq, if◌then◌else◌,
}
use chowdy.Floats.{FloatOps, f64_zero}
use chowdy.Encoding.Embedding.{Embedding}

-- `Detection`: the height of its box and its score; the handlers read nothing else of it.
pub record Detection : Type 0 where
  pub box_height : ℕ
  pub score : ℕ

-- daemon/camera.hpp: the settings of `Camera::open` that the daemon sets.
pub record CameraConfig : Type 0 where
  pub device : Str
  pub width : ℤ
  pub height : ℤ
  pub fps : ℤ

pub record PipelineConfig : Type 0 where
  pub camera : CameraConfig
  pub detector_model : Str
  pub embedder_model : Str
  pub intra_op_threads : ℤ
  pub warmup_frames : ℤ
  pub dark_threshold : ℕ
  pub detector_conf_threshold : ℕ
  pub nms_iou : ℕ
  pub enroll_quality_min : ℕ
  pub camera_policy : Str
  pub idle_keep_ms : ℤ
  pub lazy_safety_close_ms : ℤ

pub record FrameOutcome : Type 0 where
  pub captured : Bool
  pub has_face : Bool
  pub brightness : ℕ
  pub detection : Option Detection
  pub embedding : Option Embedding
  pub quality : ℕ

-- daemon/camera.hpp: whether `fd_ >= 0`, and `streaming_`.
pub record Camera : Type 0 where
  pub is_open : Bool
  pub is_streaming : Bool

-- The detached threads: `prewarm_async` with the generation that it read, `release_camera_async`.
pub data Worker : Type 0 where
  opener : ℕ → Worker
  closer : Worker

pub record Pipeline : Type 0 where
  pub cfg : PipelineConfig
  pub embedder_id : ℕ
  pub camera : Camera
  pub frames_since_open : ℕ
  pub use_gen : ℕ
  pub last_use : ℕ
  pub workers : List Worker

-- How `Camera::open` ends: streaming, or with an exception after which the device is closed again
-- or still open.
pub data OpenAnswer : Type 0 where
  opens : OpenAnswer
  stays_closed : Str → OpenAnswer
  left_open : Str → OpenAnswer

-- A captured frame, and what the detector and the embedder give on it.
pub record Frame : Type 0 where
  pub mean : ℕ
  pub detect : ℕ → ℕ → Result (List Detection)
  pub frame_quality : Detection → ℕ
  pub embed_aligned : Detection → Result Embedding

-- What the devices and the clock answer to one `process_one_frame`.
pub record Shot : Type 0 where
  pub open_answer : OpenAnswer
  pub start_answer : Result (Unit {0})
  pub opened_at : ℕ
  pub used_at : ℕ
  pub capture : ℕ → Result (Option Frame)

-- `Camera::open` is called on a camera that is not open.
unfoldable pub camera_open : OpenAnswer → Camera → Camera × Result (Unit {0})
camera_open opens c = (record { is_open = true; is_streaming = true }, ok tt)
camera_open (stays_closed what) c = (record c { is_open = false }, err what)
camera_open (left_open what) c = (record c { is_open = true }, err what)

-- `Camera::start_stream` is called on one that is open and not streaming.
unfoldable pub start_stream : Result (Unit {0}) → Camera → Camera × Result (Unit {0})
start_stream (ok _) c = (record c { is_streaming = true }, ok tt)
start_stream (err what) c = (c, err what)

-- The counter starts again when the camera was brought up, and the use is stamped.
brought_up : ℕ → Pipeline → Camera × Result (Unit {0}) → Pipeline × Result (Unit {0})
brought_up now p (c, ok _) = (record p { camera = c; frames_since_open = 0; last_use = now }, ok tt)
brought_up now p (c, err what) = (record p { camera = c }, err what)

unfoldable pub ensure_camera_open :
    OpenAnswer → Result (Unit {0}) → ℕ → Pipeline → Pipeline × Result (Unit {0})
unfolding camera_open start_stream brought_up
ensure_camera_open o s now p =
    if not p.camera.is_open
    then brought_up now p (camera_open o p.camera)
    else if not p.camera.is_streaming
    then brought_up now p (start_stream s p.camera)
    else (record p { last_use = now }, ok tt)

-- `use_gen_` is a uint64_t.
unfoldable pub release_camera : Pipeline → Pipeline
release_camera p = if not p.camera.is_streaming then p else record p {
  camera = record { is_open = p.camera.is_open; is_streaming = false };
  frames_since_open = 0;
  use_gen = (p.use_gen + 1) % 2 ^ 64;
}

abbrev pub is_lazy : Pipeline → Bool
is_lazy p = p.cfg.camera_policy == codes "lazy"

-- The new thread is put at the end.
unfoldable pub prewarm_async : Pipeline → Pipeline
prewarm_async p =
    if is_lazy p then record p { workers = p.workers ++ (opener p.use_gen ∷ []) } else p

unfoldable pub release_camera_async : Pipeline → Pipeline
release_camera_async p = record p { workers = p.workers ++ (closer ∷ []) }

-- The destructor of `RequestScope`.
unfoldable pub end_request : Pipeline → Pipeline
unfolding release_camera_async
end_request p = if is_lazy p then release_camera_async p else p

-- The body of a detached thread; an exception of the opening is only logged.
unfoldable pub run_worker : OpenAnswer → Result (Unit {0}) → ℕ → Worker → Pipeline → Pipeline
unfolding ensure_camera_open release_camera
run_worker o s now (opener gen0) p =
    let (p', r) = ensure_camera_open o s now p in if p.use_gen == gen0 then p' else p
run_worker o s now closer p = release_camera p

abbrev pub no_outcome : FrameOutcome
no_outcome = record {
  captured = false;
  has_face = false;
  brightness = f64_zero;
  detection = none;
  embedding = none;
  quality = f64_zero;
}

-- The embedder's result put into the outcome.
embedded : FrameOutcome → Result Embedding → Result FrameOutcome
embedded out (ok e) = ok (record out { embedding = some e })
embedded out (err what) = err what

with_face : Frame → Bool → FrameOutcome → Result (List Detection) → Result FrameOutcome
unfolding embedded
with_face f run_embedder out (err what) = err what
with_face f run_embedder out (ok []) = ok out
with_face f run_embedder out (ok (d ∷ ds)) =
    let out' = record out { has_face = true; detection = some d; quality = f.frame_quality d } in
    if run_embedder then embedded out' (f.embed_aligned d) else ok out'

module _ (fl : FloatOps) where
  open fl use {lt64}

  -- The captured frame, counted in `n`.
  unfoldable pub look_at : PipelineConfig → Bool → ℕ → Frame → Result FrameOutcome
  unfolding with_face
  look_at cfg run_embedder n f =
      let out = record no_outcome { captured = true } in
      let lit = record out { brightness = f.mean } in
      if leb_ℤ (pos n) cfg.warmup_frames
      then ok out
      else if lt64 f.mean cfg.dark_threshold
      then ok lit
      else with_face f run_embedder lit (f.detect cfg.detector_conf_threshold cfg.nms_iou)

  after_capture : Bool → Pipeline → Result (Option Frame) → Pipeline × Result FrameOutcome
  unfolding look_at
  after_capture run_embedder p (err what) = (p, err what)
  after_capture run_embedder p (ok none) = (p, ok no_outcome)
  after_capture run_embedder p (ok (some f)) =
      let n = suc p.frames_since_open in
      (record p { frames_since_open = n }, look_at p.cfg run_embedder n f)

  -- `Camera::capture` refuses without an active stream.
  unfoldable pub capture : Shot → ℕ → Camera → Result (Option Frame)
  capture shot timeout c =
      if c.is_open && c.is_streaming
      then shot.capture timeout
      else err (codes "Camera::capture without active stream")

  after_open : Shot → ℕ → Bool → Pipeline × Result (Unit {0}) → Pipeline × Result FrameOutcome
  unfolding after_capture capture
  after_open shot timeout run_embedder (p, err what) = (p, err what)
  after_open shot timeout run_embedder (p, ok _) =
      let p' = record p { last_use = shot.used_at } in
      after_capture run_embedder p' (capture shot timeout p'.camera)

  unfoldable pub process_one_frame : Shot → ℕ → Bool → Pipeline → Pipeline × Result FrameOutcome
  unfolding after_open
  process_one_frame shot timeout run_embedder p =
      after_open shot timeout run_embedder
        (ensure_camera_open shot.open_answer shot.start_answer shot.opened_at p)
