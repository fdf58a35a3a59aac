-- ===== src/Cli/Commands/Protocol.antt =====
-- cli/main.cpp: the order of the requests of `enroll`, and its limits at the daemon.
use chowdy.Base.{
  ℕ, suc, ◌≤◌, ◌≡◌, refl, arith, Bool, true, false, List, [], ◌∷◌, some, Str, codes, Result, ok,
  err, ◌>>=◌, ℤ, pos, if◌then◌else◌,
}
use chowdy.Json.{JsonLib}
use chowdy.Proto.Requests.{AnyRequest, enroll_start, enroll_frame, enroll_finish}
use chowdy.Proto.Responses.{EnrollProgressResponse, enroll_progress_response_from_json}
use chowdy.Daemon.Handlers.Enroll.{min_of, max_of}
use chowdy.Cli.Commands.{
  half, start_request, Outcome, sends, explain_if_denied, expect, finished, after_finish,
  enroll_loop, begin_loop, unless_denied, after_start, cmd_enroll,
}

-- Frames of one session with the ids from `k` on, and then its end.
pub data FramesThenFinish (ids : ℕ → Str) (session : Str) : ℕ → List AnyRequest → Type 0 where
  frame_then :
      {k : ℕ} {rest : List AnyRequest}
      → FramesThenFinish ids session (suc k) rest
      → FramesThenFinish ids session k
          (enroll_frame (record { session = session; request_id = ids k }) ∷ rest)
  finish :
      {k : ℕ}
      → FramesThenFinish ids session k
          (enroll_finish (record { session = session; request_id = ids k }) ∷ [])

Orderly : (ℕ → Str) → Str → ℕ → Outcome → Type 0
Orderly ids session k o = o.code ≡ some 0 → FramesThenFinish ids session k o.sent

if-Orderly :
    (ids : ℕ → Str) (session : Str) (k : ℕ) (b : Bool) (x y : Outcome)
    → Orderly ids session k x
    → Orderly ids session k y
    → Orderly ids session k (if b then x else y)
if-Orderly ids session k true x y hx hy = hx
if-Orderly ids session k false x y hx hy = hy

module _ (L : JsonLib) where
  open L use {J}

  finished-Orderly :
      {A : Type 0} (ids : ℕ → Str) (session : Str) (k : ℕ) (r : Result A)
      → Orderly ids session k
          (sends (enroll_finish (record { session = session; request_id = ids k })) (finished L r))
  unfolding finished Orderly
  finished-Orderly ids session k (ok a) = λ h. finish
  finished-Orderly ids session k (err what) = λ h. absurd (cc)

  enroll_loop-Orderly :
      (ids : ℕ → Str) (session : Str) (answers : List (Result J)) (k : ℕ)
      (r : Result EnrollProgressResponse)
      → Orderly ids session k (enroll_loop L ids session k r answers)
  unfolding enroll_loop after_finish Orderly
  enroll_loop-Orderly ids session answers k (err what) = λ h. absurd (cc)
  enroll_loop-Orderly ids session [] k (ok p) =
      if-Orderly ids session k p.done _ _ (λ h. absurd (cc)) (λ h. absurd (cc))
  enroll_loop-Orderly ids session (a ∷ answers) k (ok p) =
      if-Orderly ids session k p.done _ _ (finished-Orderly ids session k _)
        (λ h. frame_then (enroll_loop-Orderly ids session answers (suc k) _ h))

  -- The first answer was a progress report, and its session is the one of what follows.
  pub record Enrolls (ids : ℕ → Str) (answers : List (Result J)) (rest : List AnyRequest)
      : Type 0 where
    pub first : Result J
    pub later : List (Result J)
    pub progress : EnrollProgressResponse
    pub answered : answers ≡ first ∷ later
    pub reports :
        expect L (codes "enroll_progress") (enroll_progress_response_from_json L) first
        ≡ ok progress
    pub follows : FramesThenFinish ids progress.session 1 rest

  begin_loop-Enrolls :
      (ids : ℕ → Str) (a : Result J) (answers : List (Result J)) (r : Result EnrollProgressResponse)
      → expect L (codes "enroll_progress") (enroll_progress_response_from_json L) a ≡ r
      → (begin_loop L ids r answers).code ≡ some 0
      → Enrolls ids (a ∷ answers) (begin_loop L ids r answers).sent
  unfolding begin_loop Orderly
  begin_loop-Enrolls ids a answers (err what) e h = absurd (cc)
  begin_loop-Enrolls ids a answers (ok p) e h = record {
    first = a;
    later = answers;
    progress = p;
    answered = refl;
    reports = e;
    follows = enroll_loop-Orderly ids p.session answers 1 (ok p) h;
  }

  unless_denied-Enrolls :
      (ids : ℕ → Str) (answers : List (Result J)) (d : Result Bool) (o : Outcome)
      → (o.code ≡ some 0 → Enrolls ids answers o.sent)
      → (unless_denied L d o).code ≡ some 0
      → Enrolls ids answers (unless_denied L d o).sent
  unfolding unless_denied
  unless_denied-Enrolls ids answers (err what) o f h = absurd (cc)
  unless_denied-Enrolls ids answers (ok true) o f h = absurd (cc)
  unless_denied-Enrolls ids answers (ok false) o f h = f h

  after_start-Enrolls :
      (ids : ℕ → Str) (answers : List (Result J))
      → (after_start L ids answers).code ≡ some 0
      → Enrolls ids answers (after_start L ids answers).sent
  unfolding after_start
  after_start-Enrolls ids [] h = absurd (cc)
  after_start-Enrolls ids (a ∷ answers) h =
      unless_denied-Enrolls ids (a ∷ answers) (a >>= explain_if_denied L) _
        (begin_loop-Enrolls ids a answers _ refl) h

  -- An enrollment that ends with the exit code 0 has sent one start, then frames, and one finish at the
  -- end, all of the session that the daemon's first answer opened.
  pub cmd_enroll-Enrolls :
      (ids : ℕ → Str) (uid : ℕ) (label : Str) (n : ℤ) (answers : List (Result J))
      → (cmd_enroll L ids uid label n answers).code ≡ some 0
      → (rest : List AnyRequest) × ((cmd_enroll L ids uid label n answers).sent
          ≡ enroll_start (start_request uid label n (ids 0)) ∷ rest)
        × Enrolls ids answers rest
  unfolding cmd_enroll
  cmd_enroll-Enrolls ids uid label n answers h = (_, refl, after_start-Enrolls ids answers h)

-- Where the client asks for 4 frames or more, the daemon's session takes just that many.
start_request-max_of :
    (uid n : ℕ) (label id : Str)
    → 4 ≤ n
    → max_of
        (min_of (start_request uid label (pos n) id).min_frames)
        (start_request uid label (pos n) id).max_frames
      ≡ pos n
unfolding start_request min_of max_of half
start_request-max_of uid n label id h = ground arith
