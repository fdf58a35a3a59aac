-- ===== src/Daemon/Handlers/Auth/Answers.antt =====
-- How the capture loop of `handle_auth` ends, and the answer of the request.
use chowdy.Base.{
  ℕ, ◌+◌, ◌-◌, ◌*◌, ◌/◌, ◌≤◌, ◌≡◌, refl, ◌⊎◌, inl, inr, Bool, true, false, List, [], ◌∷◌, some, Str,
  Any, Result, ok, err, Bool-cases, ltb, is_empty, ◌==◌, ℕ-Eq, arith, Str-Eq,
}
use chowdy.Floats.{FloatOps}
use chowdy.Files.{FileSystem}
use chowdy.Proto.Requests.{AuthRequest}
use chowdy.Proto.Responses.{AuthResponse}
use chowdy.Daemon.Store.{EnrollmentStore, UserEnrollment, for_uid}
use chowdy.Daemon.Pipeline.{Pipeline, FrameOutcome, process_one_frame}
use chowdy.Daemon.Handlers.Matching.{of_embedder}
use chowdy.Daemon.Handlers.Auth.{
  authorise, Round, AuthScript, Progress, no_progress, LoopEnd, found, camera_failed, expired,
  unfinished, budget_ms, ms, smaller, auth_loop, make_resp, answer_auth, handle_auth, round_body,
  next_round, after_frame, verdict, judge,
}

abbrev pub deadline_of : AuthRequest → AuthScript → ℕ
deadline_of req script = script.started_at + budget_ms req.timeout_ms * ms

abbrev pub is_end : LoopEnd → Bool
is_end unfinished = false
is_end (found l s now) = true
is_end (camera_failed now) = true
is_end (expired g) = true

-- A body that does not go on has come to an end.
abbrev pub Ends : Progress ⊎ LoopEnd → Type 0
Ends (inl g) = Unit
Ends (inr end) = is_end end ≡ true

module _ (fl : FloatOps) where
  verdict-Ends : (now : ℕ) (x : Progress ⊎ (Str × ℕ)) → Ends (verdict fl now x)
  unfolding verdict
  verdict-Ends now (inl g) = tt
  verdict-Ends now (inr (l, s)) = refl

  after_frame-Ends :
      (us : List UserEnrollment) (now : ℕ) (g : Progress) (x : Pipeline × Result FrameOutcome)
      → Ends (after_frame fl us now g x).1
  unfolding after_frame
  after_frame-Ends us now g (p, err what) = refl
  after_frame-Ends us now g (p, ok out) = verdict-Ends now (judge fl p.cfg us out g)

  round_body-Ends :
      (us : List UserEnrollment) (deadline : ℕ) (r : Round) (g : Progress) (p : Pipeline)
      → Ends (round_body fl us deadline r g p).1
  unfolding round_body
  round_body-Ends us deadline r g p =
      let remaining = (deadline - r.measured_at) / ms in
      elim (Bool-cases (remaining == 0)) [
        | inl late ↦ rw late
        | inr early ↦ rw early (
            after_frame-Ends us r.answered_at g
              (process_one_frame fl r.shot (smaller remaining 300) true p))
      ]

  next_round-is_end :
      (go_on : Progress → Pipeline → Pipeline × LoopEnd) (x : Pipeline × (Progress ⊎ LoopEnd))
      → Ends x.1
      → ((g : Progress) (p : Pipeline) → is_end (go_on g p).1 ≡ true)
      → is_end (next_round fl go_on x).1 ≡ true
  unfolding next_round
  next_round-is_end go_on (p, inl g) h later = later g p
  next_round-is_end go_on (p, inr end) h later = h

  auth_loop-is_end :
      (us : List UserEnrollment) (deadline : ℕ) (rs : List Round) (g : Progress) (p : Pipeline)
      → Any (λ r. deadline ≤ r.tested_at) rs
      → is_end (auth_loop fl us deadline rs g p).1 ≡ true
  unfolding auth_loop
  auth_loop-is_end us deadline [] g p h = absurd h
  auth_loop-is_end us deadline (r ∷ rs) g p h = elim (Bool-cases (ltb r.tested_at deadline)) [
    | inr late ↦ rw late
    | inl early ↦
        let later : Any (λ r. deadline ≤ r.tested_at) rs = elim h [
          | inl now ↦ absurd (ground (arith, now, early))
          | inr there ↦ there
        ] in
        rw early (
          next_round-is_end (λ g' p'. auth_loop fl us deadline rs g' p')
            (round_body fl us deadline r g p) (round_body-Ends us deadline r g p)
            (λ g' p'. auth_loop-is_end us deadline rs g' p' later))
  ]

module _ (fl : FloatOps) (ms_of : ℕ → ℕ) where
  answer_auth-is_end :
      (req : AuthRequest) (script : AuthScript) (e : LoopEnd)
      → is_end e ≡ true
      → (resp : AuthResponse) × (answer_auth fl ms_of req script e ≡ some resp)
        × (resp.request_id ≡ req.request_id)
  unfolding answer_auth make_resp
  answer_auth-is_end req script (found l s now) h = (_, refl, refl)
  answer_auth-is_end req script (camera_failed now) h = (_, refl, refl)
  answer_auth-is_end req script (expired g) h = (_, refl, refl)
  answer_auth-is_end req script unfinished h = cc h

  -- If one of the rounds would start at or after the request's deadline (its timeout, or two seconds
  -- when that is not positive, after the start), the request has an answer, with the request's id.
  pub handle_auth-answers :
      (peer_uid : ℕ) (req : AuthRequest) (script : AuthScript) (fs : FileSystem)
      (st : EnrollmentStore) (p : Pipeline)
      → Any (λ r. deadline_of req script ≤ r.tested_at) script.rounds
      → (resp : AuthResponse) × ((handle_auth fl ms_of peer_uid req script fs st p).0 ≡ some resp)
        × (resp.request_id ≡ req.request_id)
  unfolding handle_auth make_resp
  handle_auth-answers peer_uid req script fs st p h =
      let loaded = (for_uid req.uid fs st).0 in
      let us = of_embedder p.embedder_id loaded in
      let looped = auth_loop fl us (deadline_of req script) script.rounds no_progress p in
      elim (Bool-cases (authorise peer_uid req.uid)) [
        | inr denied ↦ rw denied (_, refl, refl)
        | inl allowed ↦ elim (Bool-cases (is_empty loaded)) [
          | inl nobody ↦ rw (allowed, nobody) (_, refl, refl)
          | inr somebody ↦ elim (Bool-cases (is_empty us)) [
            | inl foreign ↦ rw (allowed, somebody, foreign) (_, refl, refl)
            | inr usable ↦
                rw (allowed, somebody, usable)
                  (answer_auth-is_end req script looped.1
                    (auth_loop-is_end fl us (deadline_of req script) script.rounds no_progress p h))
          ]
        ]
      ]
