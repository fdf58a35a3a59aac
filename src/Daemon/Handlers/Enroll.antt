-- ===== src/Daemon/Handlers/Enroll.antt =====
-- daemon/handlers/enroll.cpp: the three requests of an enrollment.
pub mod Saved
use chowdy.Base.{
  ℕ, zero, suc, ◌+◌, Bool, true, false, ◌||◌, not, List, [], ◌∷◌, ◌++◌, length, Option, none, some,
  Str, codes, Result, ok, err, ℤ, pos, ltb_ℤ, leb_ℤ, ◌+ℤ◌, ◌==◌, ℕ-Eq, is_empty, if◌then◌else◌,
}
use chowdy.Floats.{
  FloatOps, f64_zero, f32_zero, f32_floor, f32_margin, f32_too_far, f32_too_close, f32_frame_height,
}
use chowdy.Encoding.Embedding.{Embedding, pick_threshold}
use chowdy.Encoding.File.{EnrollmentFile}
use chowdy.Encoding.Disk.{DiskIo}
use chowdy.Files.{FileSystem}
use chowdy.Proto.Reason
use chowdy.Proto.Requests.{EnrollStartRequest, EnrollFrameRequest, EnrollFinishRequest}
use chowdy.Proto.Responses.{
  AnyResponse, enroll_progress, enroll_done, error, EnrollProgressResponse, ErrorResponse,
}
use chowdy.Daemon.Store.{EnrollmentStore, contains_char, save}
use chowdy.Daemon.Sessions.{EnrollSession, SessionManager, create, get, put_session, drop_session}
use chowdy.Daemon.Pipeline.{
  Pipeline, PipelineConfig, Detection, FrameOutcome, Shot, process_one_frame, end_request,
}
use chowdy.Daemon.Handlers.World.{World}

unfoldable pub make_progress : Str → Str → EnrollSession → Str → ℕ → Bool → AnyResponse
make_progress id req_id s hint quality done = enroll_progress (record {
  request_id = req_id;
  session = id;
  frames_collected = pos (length s.embeddings);
  frames_needed = s.max_frames;
  quality = quality;
  done = done;
  hint = hint;
})

unfoldable pub make_err : Str → Str → Str → AnyResponse
make_err req_id reason detail =
    error (record { request_id = req_id; reason = reason; detail = detail })

unfoldable pub enroll_authorised : ℕ → Bool
enroll_authorised peer_uid = peer_uid == 0

unfoldable pub need_root : Str
need_root = codes "enrollment changes credentials and must run as root (use sudo)"

-- `r.min_frames > 0 ? r.min_frames : 5`, and the limit that follows from it.
unfoldable pub min_of : ℤ → ℤ
min_of n = if ltb_ℤ (pos 0) n then n else pos 5

-- For a least number up to 2147483640; above it the source's sum is no `int`.
unfoldable pub max_of : ℤ → ℤ → ℤ
max_of min_f n = if ltb_ℤ min_f n then n else min_f +ℤ pos 7

-- The session that was just created, fetched and reported.
started : Str → Str → Option EnrollSession × SessionManager → AnyResponse × SessionManager
started id req_id (none, m) = (make_err req_id Reason.internal_error [], m)
started id req_id (some s, m) = (make_progress id req_id s (codes "ok") f64_zero false, m)

-- `created_at` and `fetched_at` are the clock readings in `create` and in `get`.
unfoldable pub handle_start : ℕ → ℕ → ℕ → EnrollStartRequest → World → AnyResponse × World
unfolding make_progress make_err enroll_authorised need_root min_of max_of started
handle_start peer_uid created_at fetched_at r w =
    let min_f = min_of r.min_frames in
    let max_f = max_of min_f r.max_frames in
    let (id, m) = create created_at r.uid r.label min_f max_f w.sessions in
    let (resp, m') = started id r.request_id (get fetched_at id m) in
    if not (enroll_authorised peer_uid)
    then (make_err r.request_id Reason.peer_denied need_root, w)
    else if is_empty r.label || contains_char b'/' r.label
    then (make_err r.request_id Reason.internal_error (codes "invalid label"), w)
    else (resp, record w { sessions = m' })

module _ (fl : FloatOps) where
  open fl use {lt64, lt32, div32, to_f64}

  -- `out.detection ? out.detection->box.height / 360.f : 0.f`
  unfoldable pub height_fraction : Option Detection → ℕ
  height_fraction none = f32_zero
  height_fraction (some d) = div32 d.box_height f32_frame_height

  -- The embedding put into the session, and the answer.
  accept_frame :
      EnrollFrameRequest
      → EnrollSession
      → FrameOutcome
      → Option Embedding
      → AnyResponse × EnrollSession
  accept_frame r s out none =
      (make_progress r.session r.request_id s (codes "blurry_hold_still") out.quality false, s)
  accept_frame r s out (some e) =
      let s' = record s { embeddings = s.embeddings ++ (e ∷ []) } in
      (
        make_progress r.session r.request_id s' (codes "ok") out.quality
            (leb_ℤ s.max_frames (pos (length s'.embeddings))),
        s',
      )

  -- The checks of the captured frame, in their order.
  unfoldable pub grade_frame :
      PipelineConfig
      → EnrollFrameRequest
      → EnrollSession
      → FrameOutcome
      → AnyResponse × EnrollSession
  unfolding make_progress height_fraction accept_frame
  grade_frame cfg r s out =
      let h_frac = height_fraction out.detection in
      let progress : Str → ℕ → AnyResponse × EnrollSession =
        λ hint quality. (make_progress r.session r.request_id s hint quality false, s) in
      if not out.captured
      then progress (codes "no_face") f64_zero
      else if lt64 out.brightness cfg.dark_threshold
      then progress (codes "too_dark") f64_zero
      else if not out.has_face
      then progress (codes "no_face") f64_zero
      else if lt32 h_frac f32_too_far
      then progress (codes "too_far") out.quality
      else if lt32 f32_too_close h_frac
      then progress (codes "too_close") out.quality
      else if lt64 out.quality (to_f64 cfg.enroll_quality_min)
      then progress (codes "blurry_hold_still") out.quality
      else accept_frame r s out out.embedding

  -- An exception of the pipeline is answered and counts no attempt.
  after_frame :
      EnrollFrameRequest
      → EnrollSession
      → World
      → Pipeline × Result FrameOutcome
      → AnyResponse × World
  unfolding grade_frame
  after_frame r s w (p, err what) = (
    make_progress r.session r.request_id s (codes "no_face") f64_zero false,
    record w { pipeline = p },
  )
  after_frame r s w (p, ok out) =
      let (resp, s') = grade_frame p.cfg r (record s { attempts = suc s.attempts }) out in
      (resp, record w { pipeline = p; sessions = put_session r.session s' w.sessions })

  with_session :
      EnrollFrameRequest
      → Shot
      → World
      → Option EnrollSession × SessionManager
      → AnyResponse × World
  unfolding after_frame
  with_session r shot w (none, m) = (
    make_err r.request_id Reason.peer_denied (codes "unknown session"),
    record w { sessions = m },
  )
  with_session r shot w (some s, m) =
      let w' = record w { sessions = m } in
      if leb_ℤ s.max_frames (pos (length s.embeddings))
      then (make_progress r.session r.request_id s (codes "ok") f64_zero true, w')
      else after_frame r s w' (process_one_frame fl shot 800 true w.pipeline)

  unfoldable pub handle_frame : ℕ → ℕ → Shot → EnrollFrameRequest → World → AnyResponse × World
  unfolding make_err enroll_authorised need_root with_session
  handle_frame peer_uid now shot r w =
      if not (enroll_authorised peer_uid)
      then (make_err r.request_id Reason.peer_denied need_root, w)
      else with_session r shot w (get now r.session w.sessions)

  unfoldable pub enrollment_of : Pipeline → EnrollSession → EnrollmentFile
  enrollment_of p s = record {
    embedder_id = p.embedder_id;
    created = 0;
    threshold = pick_threshold fl s.embeddings f32_floor f32_margin;
    embeddings = s.embeddings;
  }

  -- After `save`: an exception is answered and the session stays; otherwise it is dropped.
  after_save :
      EnrollFinishRequest
      → EnrollSession
      → EnrollmentFile
      → World
      → EnrollmentStore × FileSystem × Result (Unit {0})
      → AnyResponse × World
  after_save r s ef w (st, fs, err what) =
      (make_err r.request_id Reason.internal_error what, record w { store = st; fs = fs })
  after_save r s ef w (st, fs, ok _) = (
    enroll_done (record {
      request_id = r.request_id;
      label = s.label;
      embeddings_saved = pos (length ef.embeddings);
      threshold = to_f64 ef.threshold;
    }),
    record w { store = st; fs = fs; sessions = drop_session r.session w.sessions },
  )

  finish_session :
      DiskIo
      → EnrollFinishRequest
      → World
      → Option EnrollSession × SessionManager
      → AnyResponse × World
  unfolding enrollment_of after_save
  finish_session io r w (none, m) = (
    make_err r.request_id Reason.peer_denied (codes "unknown session"),
    record w { sessions = m },
  )
  finish_session io r w (some s, m) =
      let w' = record w { sessions = m } in
      let ef = enrollment_of w.pipeline s in
      if ltb_ℤ (pos (length s.embeddings)) s.min_frames
      then (make_err r.request_id Reason.low_confidence (codes "not enough good frames"), w')
      else after_save r s ef w' (save io s.uid s.label ef w.fs w.store)

  -- The scope of the request ends after its answer is made.
  unfoldable pub handle_finish : ℕ → ℕ → DiskIo → EnrollFinishRequest → World → AnyResponse × World
  unfolding make_err enroll_authorised need_root finish_session
  handle_finish peer_uid now io r w =
      let (resp, w') = finish_session io r w (get now r.session w.sessions) in
      if not (enroll_authorised peer_uid)
      then (make_err r.request_id Reason.peer_denied need_root, w)
      else (resp, record w' { pipeline = end_request w'.pipeline })
