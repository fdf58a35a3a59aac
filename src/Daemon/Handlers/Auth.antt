-- ===== src/Daemon/Handlers/Auth.antt =====
-- daemon/handlers/auth.cpp: `handle_auth`. The rounds of the capture loop are a script: each gives
-- the readings of the clock and what the devices answer. The duration in milliseconds as a `double`
-- is an argument, for `std::chrono` computes it.
pub mod Sightings
pub mod Admission
pub mod Answers
use chowdy.Base.{
  ℕ, zero, suc, ◌+◌, ◌-◌, ◌*◌, ◌/◌, Bool, true, false, ◌||◌, not, ◌⊎◌, inl, inr, List, [], ◌∷◌,
  Option, none, some, Str, Result, ok, err, ℤ, pos, negsuc, ltb, ◌==◌, ℕ-Eq, if◌then◌else◌,
  is_empty,
}
use chowdy.Floats.{FloatOps, f64_zero, f64_minus_one}
use chowdy.Files.{FileSystem}
use chowdy.Encoding.Embedding.{Embedding}
use chowdy.Proto.Reason
use chowdy.Proto.Requests.{AuthRequest}
use chowdy.Proto.Responses.{AuthResponse}
use chowdy.Daemon.Store.{EnrollmentStore, UserEnrollment, for_uid}
use chowdy.Daemon.Pipeline.{
  Pipeline, PipelineConfig, FrameOutcome, Shot, process_one_frame, end_request,
}
use chowdy.Daemon.Handlers.Matching.{of_embedder, Match, matched, unmatched, match_enrollments}

unfoldable pub authorise : ℕ → ℕ → Bool
authorise peer_uid req_uid = peer_uid == 0 || peer_uid == req_uid

-- One round: the readings at the loop's test and for `remaining`, the shot, and the reading of an
-- answer given in this round.
pub record Round : Type 0 where
  pub tested_at : ℕ
  pub measured_at : ℕ
  pub shot : Shot
  pub answered_at : ℕ

pub record Progress : Type 0 where
  pub attempts : ℕ
  pub faces_seen : ℕ
  pub captures_seen : ℕ
  pub best_sim : ℕ
  pub best_label : Str

abbrev pub no_progress : Progress
no_progress = record {
  attempts = 0;
  faces_seen = 0;
  captures_seen = 0;
  best_sim = f64_minus_one;
  best_label = [];
}

-- How the loop ends; `unfinished` is a script that is over before the deadline.
pub data LoopEnd : Type 0 where
  found : Str → ℕ → ℕ → LoopEnd
  camera_failed : ℕ → LoopEnd
  expired : Progress → LoopEnd
  unfinished : LoopEnd

-- A positive timeout in milliseconds, or 2000.
unfoldable pub budget_ms : ℤ → ℕ
budget_ms (pos zero) = 2000
budget_ms (pos (suc n)) = suc n
budget_ms (negsuc n) = 2000

abbrev pub ms : ℕ
ms = 1000000

abbrev pub smaller : ℕ → ℕ → ℕ
smaller a b = if ltb b a then b else a

module _ (fl : FloatOps) where
  open fl use {lt64}

  compared : Progress → Match → Progress ⊎ (Str × ℕ)
  compared g (matched label s) = inr (label, s)
  compared g (unmatched best label) = inl (record g { best_sim = best; best_label = label })

  -- `if (!out.embedding) continue;` and the loop over the enrollments.
  with_embedding : List UserEnrollment → Progress → Option Embedding → Progress ⊎ (Str × ℕ)
  unfolding compared
  with_embedding us g none = inl g
  with_embedding us g (some face) =
      compared g (match_enrollments fl face us g.best_sim g.best_label)

  -- What a frame without an exception adds, or the match that it gives.
  unfoldable pub judge :
      PipelineConfig → List UserEnrollment → FrameOutcome → Progress → Progress ⊎ (Str × ℕ)
  unfolding with_embedding
  judge cfg us out g =
      let tried = record g { attempts = suc g.attempts } in
      let captured = record tried { captures_seen = suc g.captures_seen } in
      let seen = record captured { faces_seen = suc g.faces_seen } in
      if not out.captured
      then inl tried
      else if lt64 out.brightness cfg.dark_threshold
      then inl captured
      else if not out.has_face
      then inl captured
      else with_embedding us seen out.embedding

  pub verdict : ℕ → Progress ⊎ (Str × ℕ) → Progress ⊎ LoopEnd
  verdict now (inl g) = inl g
  verdict now (inr (label, s)) = inr (found label s now)

  -- The body of the loop: the progress with which it goes on, or how the loop ends.
  pub after_frame :
      List UserEnrollment
      → ℕ
      → Progress
      → Pipeline × Result FrameOutcome
      → Pipeline × (Progress ⊎ LoopEnd)
  unfolding verdict
  after_frame us now g (p, err what) = (p, inr (camera_failed now))
  after_frame us now g (p, ok out) = (p, verdict now (judge p.cfg us out g))

  pub round_body :
      List UserEnrollment → ℕ → Round → Progress → Pipeline → Pipeline × (Progress ⊎ LoopEnd)
  unfolding after_frame
  round_body us deadline r g p =
      let remaining = (deadline - r.measured_at) / ms in
      if remaining == 0
      then (p, inr (expired g))
      else after_frame us r.answered_at g
          (process_one_frame fl r.shot (smaller remaining 300) true p)

  -- What follows the body: the next round, or the end.
  pub next_round :
      (Progress → Pipeline → Pipeline × LoopEnd)
      → Pipeline × (Progress ⊎ LoopEnd)
      → Pipeline × LoopEnd
  next_round go_on (p, inl g) = go_on g p
  next_round go_on (p, inr end) = (p, end)

  unfoldable pub auth_loop :
      List UserEnrollment → ℕ → List Round → Progress → Pipeline → Pipeline × LoopEnd
  unfolding round_body next_round
  auth_loop us deadline [] g p = (p, unfinished)
  auth_loop us deadline (r ∷ rs) g p =
      if ltb r.tested_at deadline
      then next_round (λ g' p'. auth_loop us deadline rs g' p') (round_body us deadline r g p)
      else (p, expired g)

  unfoldable pub final_reason : Progress → Str
  final_reason g =
      if ltb 0 g.faces_seen
      then Reason.low_confidence
      else if ltb 0 g.captures_seen
      then Reason.no_face
      else Reason.timeout

-- The readings of the clock and the answers of the devices during one request.
pub record AuthScript : Type 0 where
  pub started_at : ℕ
  pub rounds : List Round
  pub finished_at : ℕ

module _ (fl : FloatOps) (ms_of : ℕ → ℕ) where
  open fl use {lt64}

  unfoldable pub make_resp : AuthRequest → Str → ℕ → Str → ℕ → Bool → AuthResponse
  make_resp req reason elapsed label confidence success = record {
    request_id = req.request_id;
    success = success;
    reason = reason;
    matched_label = label;
    confidence = confidence;
    elapsed_ms = elapsed;
  }

  abbrev pub refuse : AuthRequest → AuthScript → Str → AuthResponse
  refuse req script reason =
      make_resp req reason (ms_of (script.finished_at - script.started_at)) [] f64_zero false

  unfoldable pub answer_auth : AuthRequest → AuthScript → LoopEnd → Option AuthResponse
  unfolding make_resp final_reason
  answer_auth req script (found label s now) =
      some (make_resp req Reason.matched (ms_of (now - script.started_at)) label s true)
  answer_auth req script (camera_failed now) =
      some (make_resp req Reason.camera_error (ms_of (now - script.started_at)) [] f64_zero false)
  answer_auth req script (expired g) = some (
      make_resp req (final_reason fl g) (ms_of (script.finished_at - script.started_at))
        g.best_label (if lt64 f64_zero g.best_sim then g.best_sim else f64_zero) false)
  answer_auth req script unfinished = none

  -- `none` is a request that the script leaves unfinished. The pointers of the context are not null.
  unfoldable pub handle_auth :
      ℕ
      → AuthRequest
      → AuthScript
      → FileSystem
      → EnrollmentStore
      → Pipeline
      → Option AuthResponse × EnrollmentStore × Pipeline
  unfolding authorise answer_auth
  handle_auth peer_uid req script fs st p =
      let (loaded, st') = for_uid req.uid fs st in
      let us = of_embedder p.embedder_id loaded in
      let deadline = script.started_at + budget_ms req.timeout_ms * ms in
      let looped = auth_loop fl us deadline script.rounds no_progress p in
      if not (authorise peer_uid req.uid)
      then (some (refuse req script Reason.peer_denied), st, end_request p)
      else if is_empty loaded
      then (some (refuse req script Reason.not_enrolled), st', end_request p)
      else if is_empty us
      then (some (refuse req script Reason.embedder_mismatch), st', end_request p)
      else (answer_auth req script looped.1, st', end_request looped.0)
