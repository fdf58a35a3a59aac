-- ===== src/Daemon/Pipeline/Config.antt =====
-- The settings of the pipeline through a captured frame.
use chowdy.Base.{
  ℕ, ◌≡◌, refl, ◌∙◌, Bool, true, false, Option, none, some, Result, ok, err, if◌then◌else◌, not,
}
use chowdy.Floats.{FloatOps}
use chowdy.Daemon.Pipeline.{
  Camera, Pipeline, PipelineConfig, Shot, Frame, OpenAnswer, brought_up, camera_open, start_stream,
  ensure_camera_open, after_capture, capture, after_open, process_one_frame,
}

brought_up-cfg :
    (now : ℕ) (p : Pipeline) (x : Camera × Result (Unit {0})) → (brought_up now p x).0.cfg ≡ p.cfg
unfolding brought_up
brought_up-cfg now p (c, ok _) = refl
brought_up-cfg now p (c, err what) = refl

if-cfg :
    (b : Bool) (x y : Pipeline × Result (Unit {0})) (cfg : PipelineConfig)
    → x.0.cfg ≡ cfg
    → y.0.cfg ≡ cfg
    → (if b then x else y).0.cfg ≡ cfg
if-cfg true x y cfg hx hy = hx
if-cfg false x y cfg hx hy = hy

pub ensure_camera_open-cfg :
    (o : OpenAnswer) (s : Result (Unit {0})) (now : ℕ) (p : Pipeline)
    → (ensure_camera_open o s now p).0.cfg ≡ p.cfg
unfolding ensure_camera_open
ensure_camera_open-cfg o s now p =
    if-cfg (not p.camera.is_open) _ _ p.cfg (brought_up-cfg now p (camera_open o p.camera)) (
      if-cfg (not p.camera.is_streaming) _ _ p.cfg (brought_up-cfg now p (start_stream s p.camera))
        refl)

module _ (fl : FloatOps) where
  after_capture-cfg :
      (run_embedder : Bool) (p : Pipeline) (x : Result (Option Frame))
      → (after_capture fl run_embedder p x).0.cfg ≡ p.cfg
  unfolding after_capture
  after_capture-cfg run_embedder p (err what) = refl
  after_capture-cfg run_embedder p (ok none) = refl
  after_capture-cfg run_embedder p (ok (some f)) = refl

  after_open-cfg :
      (shot : Shot) (timeout : ℕ) (run_embedder : Bool) (x : Pipeline × Result (Unit {0}))
      → (after_open fl shot timeout run_embedder x).0.cfg ≡ x.0.cfg
  unfolding after_open
  after_open-cfg shot timeout run_embedder (p, err what) = refl
  after_open-cfg shot timeout run_embedder (p, ok _) =
      after_capture-cfg run_embedder (record p { last_use = shot.used_at })
        (capture fl shot timeout p.camera)

  pub process_one_frame-cfg :
      (shot : Shot) (timeout : ℕ) (run_embedder : Bool) (p : Pipeline)
      → (process_one_frame fl shot timeout run_embedder p).0.cfg ≡ p.cfg
  unfolding process_one_frame
  process_one_frame-cfg shot timeout run_embedder p =
      after_open-cfg shot timeout run_embedder
        (ensure_camera_open shot.open_answer shot.start_answer shot.opened_at p)
      ∙ ensure_camera_open-cfg shot.open_answer shot.start_answer shot.opened_at p
