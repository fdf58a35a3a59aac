-- ===== src/Daemon/Handlers/Auth/Admission.antt =====
-- Who is let in by `handle_auth`.
use mathlib.Core.Path.{subst}
use chowdy.Base.{
  ℕ, ◌+◌, ◌-◌, ◌*◌, ◌≡◌, refl, ap, ◌⊎◌, inl, inr, true, false, some, All, All-keep_if, Any, Any-map,
  List, [], ◌∷◌, Str, ok, keep_if, ◌==◌, Bool-cases, is_empty, ℕ-Eq, arith, Str-Eq,
}
use chowdy.Floats.{FloatOps}
use chowdy.Encoding.Embedding.{Embedding}
use chowdy.Files.{FileSystem}
use chowdy.Proto.Reason
use chowdy.Proto.Requests.{AuthRequest}
use chowdy.Proto.Responses.{AuthResponse}
use chowdy.Daemon.Store.{EnrollmentStore, UserEnrollment, for_uid}
use chowdy.Daemon.Pipeline.{Pipeline, PipelineConfig, FrameOutcome, process_one_frame}
use chowdy.Daemon.Handlers.Matching.{of_embedder}
use chowdy.Daemon.Handlers.Auth.{
  authorise, AuthScript, Round, no_progress, LoopEnd, found, camera_failed, expired, unfinished,
  budget_ms, ms, auth_loop, make_resp, answer_auth, handle_auth,
}
use chowdy.Daemon.Handlers.Auth.Sightings.{Accepts, IsStrict, Shows, Sighting, auth_loop-found}

authorise-cases : (peer req : ℕ) → authorise peer req ≡ true → (peer ≡ 0) ⊎ (peer ≡ req)
unfolding authorise
authorise-cases peer req h = ground (arith, h)

abbrev pub deadline_of : AuthRequest → AuthScript → ℕ
deadline_of req script = script.started_at + budget_ms req.timeout_ms * ms

-- The enrollments that the comparison is given are made by this embedder.
of_embedder-Any :
    (P : UserEnrollment → Type 0) (my_id : ℕ) (us : List UserEnrollment)
    → Any P (of_embedder my_id us)
    → Any (λ u. (u.file.embedder_id ≡ my_id) × P u) us
unfolding of_embedder keep_if
of_embedder-Any P my_id [] h = absurd h
of_embedder-Any P my_id (u ∷ us) h = elim (Bool-cases (u.file.embedder_id == my_id)) [
  | inr foreign ↦ inr (of_embedder-Any P my_id us (rw foreign at h))
  | inl own ↦ elim (rw own at h) [
    | inl here ↦ inl (ground (arith, own), here)
    | inr there ↦ inr (of_embedder-Any P my_id us there)
  ]
]

module _ (fl : FloatOps) where
  -- The round's frame shows a face that an enrollment under the label accepts, which this embedder made.
  abbrev pub Recognises : PipelineConfig → ℕ → List UserEnrollment → Str → ℕ → Round → Type 0
  Recognises cfg my_id us label s r =
      (p : Pipeline) × (timeout : ℕ) × (out : FrameOutcome) × (face : Embedding)
      × ((process_one_frame fl r.shot timeout true p).1 ≡ ok out)
      × Shows fl cfg out face
      × Any (λ u. (u.file.embedder_id ≡ my_id) × ((u.label ≡ label) × Accepts fl face s u)) us

  Sighting-Recognises :
      (cfg : PipelineConfig) (my_id : ℕ) (us : List UserEnrollment) (label : Str) (s : ℕ)
      (r : Round)
      → Sighting fl cfg (of_embedder my_id us) label s r
      → Recognises cfg my_id us label s r
  Sighting-Recognises cfg my_id us label s r (p, timeout, out, face, gives, shows, accepted) = (
    p,
    timeout,
    out,
    face,
    gives,
    shows,
    of_embedder-Any (λ u. (u.label ≡ label) × Accepts fl face s u) my_id us accepted,
  )

module _ (fl : FloatOps) (ms_of : ℕ → ℕ) where
  -- An answer that fails is not one that succeeds.
  failed_answer :
      (r resp : AuthResponse) → some r ≡ some resp → r.success ≡ false → ¬ (resp.success ≡ true)
  failed_answer r resp h fails win =
      let same : r ≡ resp = cc h in cc (ap (λ (x : AuthResponse). x.success) same, fails, win)

  answer_auth-found :
      (req : AuthRequest) (script : AuthScript) (e : LoopEnd) (resp : AuthResponse)
      → answer_auth fl ms_of req script e ≡ some resp
      → resp.success ≡ true
      → (resp.reason ≡ Reason.matched)
        × ((now : ℕ) × (e ≡ found resp.matched_label resp.confidence now))
  unfolding answer_auth make_resp
  answer_auth-found req script (found l s now) resp h win =
      let r = make_resp fl ms_of req Reason.matched (ms_of (now - script.started_at)) l s true in
      let same : r ≡ resp = cc h in
      subst
        (λ (x : AuthResponse).
          (x.reason ≡ Reason.matched)
          × ((n : ℕ) × (found l s now ≡ found x.matched_label x.confidence n)))
        same (refl, (now, refl))
  answer_auth-found req script (camera_failed now) resp h win =
      absurd (failed_answer _ resp h refl win)
  answer_auth-found req script (expired g) resp h win = absurd (failed_answer _ resp h refl win)
  answer_auth-found req script unfinished resp h win = absurd (cc h)

  -- When no enrollment of the user has a threshold as low as -1.0, a successful answer means that the
  -- peer is root or the user, that its reason is `matched`, and that a round's frame was captured, was
  -- bright enough and showed a face, whose embedding has the reported confidence with an embedding of
  -- the reported label, at least that label's threshold, in a file whose embedder is the one loaded.
  pub handle_auth-admits :
      (peer_uid : ℕ) (req : AuthRequest) (script : AuthScript) (fs : FileSystem)
      (st : EnrollmentStore) (p : Pipeline) (resp : AuthResponse)
      → All (IsStrict fl) (for_uid req.uid fs st).0
      → (handle_auth fl ms_of peer_uid req script fs st p).0 ≡ some resp
      → resp.success ≡ true
      → ((peer_uid ≡ 0) ⊎ (peer_uid ≡ req.uid))
        × (resp.reason ≡ Reason.matched)
        × Any
            (Recognises fl p.cfg p.embedder_id
              (for_uid req.uid fs st).0
              resp.matched_label
              resp.confidence)
            script.rounds
  unfolding handle_auth
  handle_auth-admits peer_uid req script fs st p resp strict h win =
      let loaded = (for_uid req.uid fs st).0 in
      let us = of_embedder p.embedder_id loaded in
      elim (Bool-cases (authorise peer_uid req.uid)) [
        | inr denied ↦ absurd (failed_answer _ resp (rw denied at h) refl win)
        | inl allowed ↦ elim (Bool-cases (is_empty loaded)) [
          | inl nobody ↦ absurd (failed_answer _ resp (rw (allowed, nobody) at h) refl win)
          | inr somebody ↦ elim (Bool-cases (is_empty us)) [
            | inl foreign ↦
                absurd (failed_answer _ resp (rw (allowed, somebody, foreign) at h) refl win)
            | inr usable ↦
                let looped = auth_loop fl us (deadline_of req script) script.rounds no_progress p in
                let (reason, (now, end)) =
                  answer_auth-found req script looped.1 resp (rw (allowed, somebody, usable) at h)
                    win in
                (
                  authorise-cases peer_uid req.uid allowed,
                  reason,
                  Any-map script.rounds
                      (λ r.
                        Sighting-Recognises fl p.cfg p.embedder_id loaded resp.matched_label
                          resp.confidence r)
                      (auth_loop-found fl us (deadline_of req script) script.rounds no_progress p
                        resp.matched_label resp.confidence now
                        (unfold of_embedder in All-keep_if (IsStrict fl) _ loaded strict) end),
                )
          ]
        ]
      ]
