-- ===== src/Daemon/Handlers/Test.antt =====
-- daemon/handlers/test.cpp: `handle_test`. The rounds of its loop are a script, as in `handle_auth`.
pub mod Reads
use chowdy.Base.{
  ℕ, zero, suc, ◌+◌, ◌-◌, ◌*◌, Bool, true, false, ◌&&◌, ◌||◌, not, ◌⊎◌, inl, inr, List, [], ◌∷◌,
  Option, none, some, Str, Result, ok, err, ℤ, pos, negsuc, ltb, ◌==◌, ℕ-Eq, Str-Eq, if◌then◌else◌,
}
use chowdy.Floats.{FloatOps, f64_zero, f64_minus_one}
use chowdy.Encoding.Embedding.{Embedding, emb_dim, cosine_sim_normed}
use chowdy.Proto.Reason
use chowdy.Proto.Requests.{TestRequest}
use chowdy.Proto.Responses.{TestResponse}
use chowdy.Daemon.Store.{EnrollmentStore, UserEnrollment, for_uid}
use chowdy.Daemon.Pipeline.{
  Pipeline, FrameOutcome, Detection, Shot, no_outcome, process_one_frame, end_request,
}
use chowdy.Daemon.Handlers.World.{World}

unfoldable pub test_budget_ms : ℤ → ℕ
test_budget_ms (pos zero) = 3000
test_budget_ms (pos (suc n)) = suc n
test_budget_ms (negsuc n) = 3000

-- The reading of the clock at the loop's test, and the shot.
pub record TestScript : Type 0 where
  pub started_at : ℕ
  pub rounds : List (ℕ × Shot)
  pub finished_at : ℕ

-- How the loop ends: with the last frame, with an exception, or not within the script.
pub data TestEnd : Type 0 where
  frame : FrameOutcome → TestEnd
  failed : TestEnd
  unfinished : TestEnd

module _ (fl : FloatOps) where
  open fl use {lt64, le64, to_f64}

  -- What follows a frame: the loop is left at a face.
  after_frame :
      (FrameOutcome → Pipeline → Pipeline × TestEnd)
      → Pipeline × Result FrameOutcome
      → Pipeline × TestEnd
  after_frame go_on (p, err what) = (p, failed)
  after_frame go_on (p, ok out) =
      let rest = go_on out p in if out.has_face then (p, frame out) else rest

  unfoldable pub test_loop : ℕ → List (ℕ × Shot) → FrameOutcome → Pipeline → Pipeline × TestEnd
  unfolding after_frame
  test_loop deadline [] out p = (p, unfinished)
  test_loop deadline ((now, shot) ∷ rs) out p =
      if ltb now deadline
      then after_frame (λ out' p'. test_loop deadline rs out' p')
          (process_one_frame fl shot 300 true p)
      else (p, frame out)

  -- The loop over the embeddings under one label.
  unfoldable pub best_of : Embedding → Str → List Embedding → ℕ × Str → ℕ × Str
  best_of face label [] best = best
  best_of face label (e ∷ es) (best, best_label) =
      let s = cosine_sim_normed fl face e emb_dim in
      best_of face label es (if lt64 best s then (s, label) else (best, best_label))

  unfoldable pub best_match : ℕ → Embedding → List UserEnrollment → ℕ × Str → ℕ × Str
  unfolding best_of
  best_match my_id face [] best = best
  best_match my_id face (u ∷ us) best = best_match my_id face us (
      if not (u.file.embedder_id == my_id)
      then best
      else best_of face u.label u.file.embeddings best)

  -- The loop that computes `would_auth`.
  unfoldable pub would_pass : ℕ → Str → List UserEnrollment → Bool
  would_pass best label [] = false
  would_pass best label (u ∷ us) =
      (u.label == label && le64 (to_f64 u.file.threshold) best) || would_pass best label us

  compared : List UserEnrollment → TestResponse → ℕ × Str → TestResponse
  unfolding would_pass
  compared us r (best, label) =
      if lt64 f64_zero best
      then record r { best_match = label; confidence = best; would_auth = would_pass best label us }
      else r

  score_of : Option Detection → ℕ
  score_of none = f64_zero
  score_of (some d) = to_f64 d.score

  -- The comparison, when the frame has an embedding.
  with_embedding : ℕ → World → TestResponse → Option Embedding → TestResponse × World
  unfolding best_match compared
  with_embedding peer_uid w r none = (r, w)
  with_embedding peer_uid w r (some face) =
      let (us, st) = for_uid peer_uid w.fs w.store in
      (
        compared us r (best_match w.pipeline.embedder_id face us (f64_minus_one, [])),
        record w { store = st },
      )

module _ (fl : FloatOps) (ms_of : ℕ → ℕ) where
  empty_response : TestRequest → Str → ℕ → TestResponse
  empty_response req reason elapsed = record {
    request_id = req.request_id;
    face_detected = false;
    best_match = [];
    confidence = f64_zero;
    would_auth = false;
    elapsed_ms = elapsed;
    reason = reason;
  }

  unfoldable pub answer_test : ℕ → TestRequest → ℕ → World → TestEnd → Option TestResponse × World
  unfolding score_of with_embedding empty_response
  answer_test peer_uid req elapsed w failed =
      (some (empty_response req Reason.camera_error elapsed), w)
  answer_test peer_uid req elapsed w unfinished = (none, w)
  answer_test peer_uid req elapsed w (frame out) =
      let r = record (empty_response req Reason.ok_reason elapsed) {
        face_detected = true;
        confidence = score_of fl out.detection;
      } in
      let (r', w') = with_embedding fl peer_uid w r out.embedding in
      if not out.has_face
      then (some (empty_response req Reason.no_face elapsed), w)
      else (some r', w')

  unfoldable pub handle_test : ℕ → TestRequest → TestScript → World → Option TestResponse × World
  unfolding answer_test
  handle_test peer_uid req script w =
      let deadline = script.started_at + test_budget_ms req.timeout_ms * 1000000 in
      let (p, end) = test_loop fl deadline script.rounds no_outcome w.pipeline in
      let (resp, w') =
        answer_test peer_uid req (ms_of (script.finished_at - script.started_at))
          (record w { pipeline = p }) end in
      (resp, record w' { pipeline = end_request w'.pipeline })
