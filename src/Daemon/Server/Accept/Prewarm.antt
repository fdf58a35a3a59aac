-- ===== src/Daemon/Server/Accept/Prewarm.antt =====
-- daemon/server.cpp: what the accepting threads do to the pipeline.
use chowdy.Base.{
  ℕ, suc, ◌+◌, ◌≡◌, refl, ap, ◌∙◌, arith, Bool, true, false, not, List, [], ◌∷◌, ◌++◌, length,
  length-append, if◌then◌else◌, codes, ◌==◌, Str-Eq,
}
use chowdy.Daemon.Pipeline.{Pipeline, is_lazy, prewarm_async, opener}
use chowdy.Daemon.Server.Accept.{
  SockKind, auth_sock, mgmt_sock, Polled, interrupted, poll_failed, polled, Accepted, no_connection,
  connection, Round, Loop, hand_over, accept_one, after_poll, round, accept_loop,
}

-- The threads of warming up that so many connections of this kind start.
abbrev pub threads_for : SockKind → Pipeline → ℕ → ℕ
threads_for auth_sock p n = if is_lazy p then n else 0
threads_for mgmt_sock p n = 0

-- Two states of the loop with the same settings and camera, between which as many threads were
-- started as the connections handed over call for.
pub record Warms (kind : SockKind) (before after : Loop) : Type 0 where
  pub cfg : after.pipeline.cfg ≡ before.pipeline.cfg
  pub camera : after.pipeline.camera ≡ before.pipeline.camera
  pub workers :
      length after.pipeline.workers + threads_for kind before.pipeline before.handed
      ≡ length before.pipeline.workers + threads_for kind before.pipeline after.handed

threads_for-cfg :
    (kind : SockKind) (p q : Pipeline) (n : ℕ)
    → p.cfg ≡ q.cfg
    → threads_for kind p n ≡ threads_for kind q n
threads_for-cfg auth_sock p q n e = ap (λ c. if c.camera_policy == codes "lazy" then n else 0) e
threads_for-cfg mgmt_sock p q n e = refl

Warms-trans : (kind : SockKind) (a b c : Loop) → Warms kind a b → Warms kind b c → Warms kind a c
Warms-trans kind a b c h k = record {
  cfg = k.cfg ∙ h.cfg;
  camera = k.camera ∙ h.camera;
  workers = omega (
    arith,
    h.workers,
    k.workers,
    threads_for-cfg kind b.pipeline a.pipeline b.handed h.cfg,
    threads_for-cfg kind b.pipeline a.pipeline c.handed h.cfg,
  );
}

Warms-refl : (kind : SockKind) (l : Loop) → Warms kind l l
Warms-refl kind l = record { cfg = refl; camera = refl; workers = refl }

Warms-over : (kind : SockKind) (l : Loop) → Warms kind l (record l { is_over = true })
Warms-over kind l = record { cfg = refl; camera = refl; workers = refl }

if-Warms :
    (kind : SockKind) (b : Bool) (l x y : Loop)
    → Warms kind l x
    → Warms kind l y
    → Warms kind l (if b then x else y)
if-Warms kind true l x y hx hy = hx
if-Warms kind false l x y hx hy = hy

length-prewarm_async :
    (b : Bool) (p : Pipeline) (n : ℕ)
    → length (if b then record p { workers = p.workers ++ (opener p.use_gen ∷ []) } else p).workers
        + (if b then n else 0)
      ≡ length p.workers + (if b then suc n else 0)
length-prewarm_async true p n = omega (arith, length-append p.workers (opener p.use_gen ∷ []))
length-prewarm_async false p n = refl

prewarm_async-rest :
    (p : Pipeline) → ((prewarm_async p).cfg ≡ p.cfg) × ((prewarm_async p).camera ≡ p.camera)
unfolding prewarm_async
prewarm_async-rest p = ground arith

hand_over-Warms : (kind : SockKind) (l : Loop) → Warms kind l (hand_over kind l)
unfolding hand_over prewarm_async
hand_over-Warms auth_sock l = record {
  cfg = (prewarm_async-rest l.pipeline).0;
  camera = (prewarm_async-rest l.pipeline).1;
  workers = length-prewarm_async (is_lazy l.pipeline) l.pipeline l.handed;
}
hand_over-Warms mgmt_sock l = record { cfg = refl; camera = refl; workers = refl }

accept_one-Warms : (kind : SockKind) (a : Accepted) (l : Loop) → Warms kind l (accept_one kind a l)
unfolding accept_one
accept_one-Warms kind no_connection l = Warms-refl kind l
accept_one-Warms kind connection l = hand_over-Warms kind l

after_poll-Warms :
    (kind : SockKind) (r : Round) (p : Polled) (l : Loop) → Warms kind l (after_poll kind r p l)
unfolding after_poll
after_poll-Warms kind r interrupted l = Warms-refl kind l
after_poll-Warms kind r poll_failed l = Warms-over kind l
after_poll-Warms kind r (polled readable) l =
    if-Warms kind r.stopping_after_poll l _ _ (Warms-over kind l)
      (if-Warms kind (not readable) l _ _ (Warms-refl kind l) (accept_one-Warms kind r.accept l))

round-Warms : (kind : SockKind) (r : Round) (l : Loop) → Warms kind l (round kind r l)
unfolding round
round-Warms kind r l =
    if-Warms kind r.stopping l _ _ (Warms-over kind l) (after_poll-Warms kind r r.poll l)

-- Whatever the rounds meet: the loop of the management socket starts no thread of warming up, and that
-- of the auth socket starts one for each connection that it hands over if the policy is `lazy`, and
-- none else. Neither touches the camera itself.
pub accept_loop-Warms :
    (kind : SockKind) (rounds : List Round) (l : Loop) → Warms kind l (accept_loop kind rounds l)
unfolding accept_loop
accept_loop-Warms kind [] l = Warms-refl kind l
accept_loop-Warms kind (r ∷ rounds) l = if-Warms kind l.is_over l _ _ (Warms-refl kind l) (
    Warms-trans kind l (round kind r l) _ (round-Warms kind r l)
      (accept_loop-Warms kind rounds (round kind r l)))
