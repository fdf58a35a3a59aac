-- ===== src/Daemon/Pipeline/Lamp.antt =====
-- When the detached threads of `prewarm_async` and `release_camera_async` leave the camera on.
use mathlib.Core.Path.{subst}
use chowdy.Base.{
  ℕ, ◌+◌, ◌%◌, ◌^◌, ◌<◌, ◌≡◌, ◌≢◌, refl, sym, ap, ◌∙◌, true, false, List, [], ◌∷◌, ◌++◌, Result, ok,
  All, arith, Bool-cases, inl, inr, if◌then◌else◌, ℕ-Eq, nat_eq, nat_eq_iff, Str-Eq,
}
use chowdy.Daemon.Pipeline.{
  Pipeline, OpenAnswer, opens, Worker, opener, closer, is_lazy, camera_open, start_stream,
  brought_up, ensure_camera_open, release_camera, prewarm_async, release_camera_async, end_request,
  run_worker,
}

-- One detached thread that gets the mutex, with what the devices answer it.
pub record WorkerStep : Type 0 where
  pub open_answer : OpenAnswer
  pub start_answer : Result (Unit {0})
  pub now : ℕ
  pub worker : Worker

unfoldable pub run_workers : List WorkerStep → Pipeline → Pipeline
run_workers [] p = p
run_workers (w ∷ ws) p = run_workers ws (run_worker w.open_answer w.start_answer w.now w.worker p)

-- A prewarm that did not read the present generation.
abbrev pub IsStale : ℕ → Worker → Type 0
IsStale gen (opener gen0) = gen ≢ gen0
IsStale gen closer = Unit

release_camera-dark : (p : Pipeline) → p.camera.is_streaming ≡ false → release_camera p ≡ p
unfolding release_camera
release_camera-dark p dark = simp (dark)

release_camera-lit :
    (p : Pipeline)
    → p.camera.is_streaming ≡ true
    → ((release_camera p).use_gen ≡ (p.use_gen + 1) % 2 ^ 64)
      × ((release_camera p).camera.is_streaming ≡ false)
unfolding release_camera
release_camera-lit p lit = simp (lit) (refl, refl)

run_worker-stale :
    (o : OpenAnswer) (s : Result (Unit {0})) (now : ℕ) (w : Worker) (p : Pipeline)
    → p.camera.is_streaming ≡ false
    → IsStale p.use_gen w
    → run_worker o s now w p ≡ p
unfolding run_worker
run_worker-stale o s now (opener gen0) p dark stale = elim (Bool-cases (nat_eq p.use_gen gen0)) [
  | inl same ↦ absurd (stale ((nat_eq_iff p.use_gen gen0).0 same))
  | inr differ ↦ ap (λ b. if b then (ensure_camera_open o s now p).0 else p) differ
]
run_worker-stale o s now closer p dark stale = release_camera-dark p dark

run_workers-stale :
    (ws : List WorkerStep) (p : Pipeline)
    → p.camera.is_streaming ≡ false
    → All (λ (w : WorkerStep). IsStale p.use_gen w.worker) ws
    → run_workers ws p ≡ p
unfolding run_workers
run_workers-stale [] p dark stale = refl
run_workers-stale (w ∷ ws) p dark stale =
    ap (run_workers ws)
      (run_worker-stale w.open_answer w.start_answer w.now w.worker p dark stale.0)
    ∙ run_workers-stale ws p dark stale.1

-- A thread that was started before a request's stream was stopped.
abbrev pub IsEarlier : ℕ → Worker → Type 0
IsEarlier gen (opener gen0) = gen0 ≡ gen
IsEarlier gen closer = Unit

bumped : ℕ → ℕ
bumped gen = (gen + 1) % 2 ^ 64

IsEarlier→IsStale : (gen : ℕ) (w : Worker) → gen < 2 ^ 64 → IsEarlier gen w → IsStale (bumped gen) w
unfolding bumped
IsEarlier→IsStale gen (opener gen0) small e = omega (arith, e)
IsEarlier→IsStale gen closer small e = tt

All-IsStale :
    (gen : ℕ) (ws : List WorkerStep)
    → gen < 2 ^ 64
    → All (λ (w : WorkerStep). IsEarlier gen w.worker) ws
    → All (λ (w : WorkerStep). IsStale (bumped gen) w.worker) ws
All-IsStale gen [] small h = tt
All-IsStale gen (w ∷ ws) small h =
    (IsEarlier→IsStale gen w.worker small h.0, All-IsStale gen ws small h.1)

-- Once a closing thread has stopped a running stream, any number of closing threads and of prewarms
-- that read the generation before that stop, in any order and with any answers of the device, change
-- nothing: the camera stays off.
pub run_workers-closed :
    (ws : List WorkerStep) (p : Pipeline)
    → p.camera.is_streaming ≡ true
    → p.use_gen < 2 ^ 64
    → All (λ (w : WorkerStep). IsEarlier p.use_gen w.worker) ws
    → (run_workers ws (release_camera p) ≡ release_camera p)
      × ((release_camera p).camera.is_streaming ≡ false)
unfolding bumped
run_workers-closed ws p lit small early =
    let (gen, dark) = release_camera-lit p lit in
    let stale : All (λ (w : WorkerStep). IsStale (release_camera p).use_gen w.worker) ws =
      subst (λ g. All (λ (w : WorkerStep). IsStale g w.worker) ws) (sym gen)
        (All-IsStale p.use_gen ws small early) in
    (run_workers-stale ws (release_camera p) dark stale, dark)

ensure_camera_open-streams :
    (now : ℕ) (p : Pipeline)
    → p.camera.is_streaming ≡ false
    → (ensure_camera_open opens (ok tt) now p).0.camera.is_streaming ≡ true
unfolding ensure_camera_open camera_open start_stream brought_up
ensure_camera_open-streams now p dark = elim (Bool-cases p.camera.is_open) [
  | inl opened ↦ simp (opened, dark)
  | inr closed ↦ simp (closed)
]

lazy_request :
    (p : Pipeline)
    → is_lazy p ≡ true
    → end_request (prewarm_async p)
      ≡ record p { workers = (p.workers ++ (opener p.use_gen ∷ [])) ++ (closer ∷ []) }
unfolding end_request prewarm_async release_camera_async
lazy_request p lazy = simp (lazy)

-- In lazy mode, on a camera that is off, let a prewarm start, the request be answered without a frame,
-- and the request's closing thread run before the prewarm. Then, when the device opens or starts, the
-- prewarm switches the stream on, though no thread is left that would stop it.
pub prewarm_async-late :
    (p : Pipeline) (now : ℕ)
    → is_lazy p ≡ true
    → p.camera.is_streaming ≡ false
    → p.workers ≡ []
    → let q = end_request (prewarm_async p) in
      (q.workers ≡ opener p.use_gen ∷ closer ∷ [])
      × ((run_worker opens
            (ok tt)
            now
            (opener p.use_gen)
            (run_worker opens (ok tt) now closer q)).camera.is_streaming
          ≡ true)
unfolding run_worker
prewarm_async-late p now lazy dark idle =
    let q : Pipeline = record p {
      workers = (p.workers ++ (opener p.use_gen ∷ [])) ++ (closer ∷ []);
    } in
    let queue : q.workers ≡ opener p.use_gen ∷ closer ∷ [] = simp (idle) in
    rw (lazy_request p lazy, release_camera-dark q dark)
      (queue, rw ((nat_eq_iff p.use_gen p.use_gen).1 refl) (ensure_camera_open-streams now q dark))
