-- ===== src/Tests/Requests.antt =====
-- Sessions, the store, the camera and the handlers.
use chowdy.Base.{
  ℕ, ◌-◌, ◌≤◌, ◌≡◌, ◌≢◌, refl, ◌⊎◌, inl, inr, true, false, List, [], ◌∷◌, ◌++◌, replicate, arith,
  none, some, codes, ok, pos, ◌==◌, Str-Eq, if◌then◌else◌, Any, All, str_eq, keep_if,
}
use chowdy.Base.Dict.{lookup}
use chowdy.Files.{FileSystem, has_dir}
use chowdy.Encoding.Embedding.{emb_dim, cosine_sim_normed, pick_threshold}
use chowdy.Encoding.File.{EnrollmentFile, header_chunks}
use chowdy.Encoding.Disk.{DiskIo, save_enrollment}
use chowdy.Ipc.Stream.{moves}
use chowdy.Ipc.Frame.{be_bytes}
use chowdy.Floats.{f32_floor}
use chowdy.Proto.Reason
use chowdy.Proto.Requests.{AuthRequest, EnrollFinishRequest, remove, request_to_json}
use chowdy.Proto.Responses.{AuthResponse, EnrollDoneResponse, enroll_done}
use chowdy.Daemon.Sessions.{
  EnrollSession, SessionManager, no_sessions, create, get, new_session, reap_expired, session_ttl,
}
use chowdy.Daemon.Sessions.Laws.{create-fresh, get_cases}
use chowdy.Daemon.Sessions.Issued.{Op, gets, drops, run_ops, create-distinct}
use chowdy.Daemon.Store.{
  EnrollmentStore, new_store, uid_dir, load_dir, for_uid, cache_hit, latest_mtime, save, bad_label,
  contains_char,
}
use chowdy.Daemon.Store.History.{StoreOp, loads, saves, removes, run_history, for_uid-run_history}
use chowdy.Daemon.Pipeline.{
  Pipeline, PipelineConfig, Camera, Frame, Shot, opens, opener, closer, release_camera,
  prewarm_async, end_request, run_worker, ensure_camera_open, process_one_frame,
}
use chowdy.Daemon.Pipeline.Lamp.{WorkerStep, run_workers, run_workers-closed, prewarm_async-late}
use chowdy.Daemon.Handlers.World.{World, IsKept}
use chowdy.Daemon.Handlers.Matching.{of_embedder, match_enrollments}
use chowdy.Daemon.Handlers.Auth.{Round, AuthScript, auth_loop, judge, handle_auth, budget_ms}
use chowdy.Daemon.Handlers.Auth.Sightings.{IsStrict}
use chowdy.Daemon.Handlers.Auth.Admission.{Recognises, handle_auth-admits}
use chowdy.Daemon.Handlers.Auth.Answers.{handle_auth-answers}
use chowdy.Daemon.Handlers.Enroll.{handle_finish}
use chowdy.Daemon.Handlers.Enroll.Saved.{IsSaved, handle_finish-IsSaved}
use chowdy.Daemon.Server.{Host, Peer, handle_connection}
use chowdy.Daemon.Server.Access.{handle_connection-IsKept}
use chowdy.Tests.Samples.{toy, key, json}

create-fresh_example :
    let (id, m') = create 5 1000 (codes "desk") (pos 5) (pos 15) no_sessions in
    (lookup id no_sessions.sessions ≡ none)
    × (lookup (codes "1000-1") m'.sessions ≡ (
        if id == codes "1000-1"
        then some (new_session 5 1000 (codes "desk") (pos 5) (pos 15))
        else lookup (codes "1000-1") (reap_expired 5 no_sessions).sessions))
create-fresh_example =
    create-fresh 5 1000 (codes "desk") (pos 5) (pos 15) no_sessions (codes "1000-1")
      (unfold no_sessions in tt) (unfold no_sessions in omega arith)

abbrev desk_session : EnrollSession
desk_session = record {
  uid = 1000;
  label = codes "desk";
  min_frames = pos 1;
  max_frames = pos 8;
  embeddings = replicate 512 1 ∷ [];
  attempts = 3;
  last_touch = 5;
}

abbrev sessions : SessionManager
sessions = record { sessions = (codes "1000-1", desk_session) ∷ []; counter = 1 }

get_cases_example :
    let (found, m') = get 9 (codes "1000-1") sessions in
    ((found ≡ none) × (lookup (codes "1000-1") m'.sessions ≡ none))
    ⊎ ((s : EnrollSession) × (lookup (codes "1000-1") (reap_expired 9 sessions).sessions ≡ some s)
        × (9 - s.last_touch ≤ session_ttl)
        × (found ≡ some (record s { last_touch = 9 }))
        × (lookup (codes "1000-1") m'.sessions ≡ some (record s { last_touch = 9 })))
get_cases_example = get_cases 9 (codes "1000-1") sessions

abbrev between : List Op
between = gets 6 (codes "1000-1") ∷ drops (codes "1000-1") ∷ []

create-distinct_example :
    let (id, m') = create 5 1000 (codes "desk") (pos 5) (pos 15) no_sessions in
    let later = run_ops between m' in
    let (id', _) = create 7 1000 (codes "desk") (pos 5) (pos 15) later in
    (id ≢ id') × (lookup id' later.sessions ≡ none)
create-distinct_example =
    create-distinct between 5 7 1000 1000 (codes "desk") (codes "desk") (pos 5) (pos 5) (pos 15)
      (pos 15) no_sessions (unfold no_sessions in tt) (unfold no_sessions in omega arith)

abbrev enrolled : EnrollmentFile
enrolled = record { embedder_id = 7; created = 4; threshold = 3; embeddings = replicate 512 1 ∷ [] }

abbrev good_disk : DiskIo
good_disk = record {
  opens = true;
  writes = λ i. true;
  flushed = 9000;
  renames = true;
  rename_message = [];
}

abbrev no_files : FileSystem
no_files = record { dirs = []; files = []; now = 99 }

abbrev history : List StoreOp
history =
    loads 1000
    ∷ saves good_disk 1000 (codes "desk") enrolled
    ∷ loads 1000
    ∷ removes (λ dir label. record { dir = dir; name = label }) 1000 (codes "desk")
    ∷ []

for_uid-run_history_example :
    let (fs', st') = run_history history (no_files, new_store (codes "/u")) in
    (for_uid 1000 fs' st').0 ≡ load_dir (uid_dir (codes "/u") 1000) fs'
for_uid-run_history_example =
    for_uid-run_history history (codes "/u") no_files 1000 tt
      (tt, (tt, (tt, (unfold contains_char in (refl, refl), tt))))

abbrev lazy_config : PipelineConfig
lazy_config = record {
  camera = record { device = codes "/dev/video2"; width = pos 640; height = pos 360; fps = pos 30 };
  detector_model = codes "detector.onnx";
  embedder_model = codes "embedder.onnx";
  intra_op_threads = pos 4;
  idle_keep_ms = pos 10000;
  lazy_safety_close_ms = pos 5000;
  warmup_frames = pos 0;
  dark_threshold = 25;
  detector_conf_threshold = 1;
  nms_iou = 1;
  enroll_quality_min = 1;
  camera_policy = codes "lazy";
}

abbrev camera_off : Camera
camera_off = record { is_open = true; is_streaming = false }

abbrev camera_on : Camera
camera_on = record { is_open = true; is_streaming = true }

abbrev idle : Pipeline
idle = record {
  cfg = lazy_config;
  embedder_id = 7;
  camera = camera_off;
  frames_since_open = 0;
  use_gen = 4;
  last_use = 0;
  workers = [];
}

abbrev busy : Pipeline
busy = record idle { camera = camera_on }

abbrev steps : List WorkerStep
steps =
    record { open_answer = opens; start_answer = ok tt; now = 8; worker = opener 4 }
    ∷ record { open_answer = opens; start_answer = ok tt; now = 9; worker = closer }
    ∷ []

run_workers-closed_example :
    (run_workers steps (release_camera busy) ≡ release_camera busy)
    × ((release_camera busy).camera.is_streaming ≡ false)
run_workers-closed_example = run_workers-closed steps busy refl (omega arith) (refl, (tt, tt))

prewarm_async-late_example :
    let q = end_request (prewarm_async idle) in
    (q.workers ≡ opener 4 ∷ closer ∷ [])
    × ((run_worker opens
          (ok tt)
          9
          (opener 4)
          (run_worker opens (ok tt) 9 closer q)).camera.is_streaming
        ≡ true)
prewarm_async-late_example = prewarm_async-late idle 9 (unfold str_eq in refl) refl refl

-- The user's enrollment is in the cache of a daemon whose disk is empty.
abbrev cached : EnrollmentStore
cached = record {
  users_dir = codes "/u";
  cache =
      (1000, record { mtime = 0; items = record { label = codes "desk"; file = enrolled } ∷ [] })
      ∷ [];
}

abbrev sharp : Frame
sharp = record {
  mean = 50;
  detect = λ conf iou. ok (record { box_height = 90; score = 1 } ∷ []);
  frame_quality = λ d. 1;
  embed_aligned = λ d. ok (replicate 512 1);
}

abbrev good_shot : Shot
good_shot = record {
  open_answer = opens;
  start_answer = ok tt;
  opened_at = 11;
  used_at = 12;
  capture = λ timeout. ok (some sharp);
}

abbrev one_round : Round
one_round = record { tested_at = 20; measured_at = 21; shot = good_shot; answered_at = 30 }

abbrev last_round : Round
last_round = record {
  tested_at = 5000000000;
  measured_at = 5000000001;
  shot = good_shot;
  answered_at = 5000000002;
}

abbrev script : AuthScript
script = record { started_at = 10; rounds = one_round ∷ last_round ∷ []; finished_at = 5000000003 }

abbrev login : AuthRequest
login = record { uid = 1000; timeout_ms = pos 1500; request_id = codes "r1" }

abbrev welcome : AuthResponse
welcome = record {
  request_id = codes "r1";
  success = true;
  reason = codes "matched";
  matched_label = codes "desk";
  confidence = 512;
  elapsed_ms = 20;
}

abbrev ms_of : ℕ → ℕ
ms_of n = n

login-welcome : (handle_auth toy ms_of 0 login script no_files cached idle).0 ≡ some welcome
unfolding handle_auth for_uid cache_hit lookup latest_mtime has_dir of_embedder keep_if auth_loop
    budget_ms process_one_frame ensure_camera_open key judge match_enrollments cosine_sim_normed
    emb_dim Reason.matched
login-welcome = refl

cached-IsStrict : All (IsStrict toy) (for_uid 1000 no_files cached).0
unfolding for_uid cache_hit lookup latest_mtime has_dir key
cached-IsStrict = (refl, tt)

handle_auth-admits_example :
    (◌≡◌ {A = ℕ} 0 0 ⊎ ◌≡◌ {A = ℕ} 0 1000)
    × (codes "matched" ≡ Reason.matched)
    × Any
        (Recognises toy lazy_config 7 (for_uid 1000 no_files cached).0 (codes "desk") 512)
        script.rounds
handle_auth-admits_example =
    handle_auth-admits toy ms_of 0 login script no_files cached idle welcome cached-IsStrict
      login-welcome refl

handle_auth-answers_example :
    (resp : AuthResponse) × ((handle_auth toy ms_of 0 login script no_files cached idle).0
      ≡ some resp)
    × (resp.request_id ≡ codes "r1")
handle_auth-answers_example =
    handle_auth-answers toy ms_of 0 login script no_files cached idle
      (inr (inl (unfold budget_ms in omega arith)))

abbrev world : World
world = record { fs = no_files; store = cached; sessions = sessions; pipeline = idle }

abbrev finish : EnrollFinishRequest
finish = record { session = codes "1000-1"; request_id = codes "r9" }

abbrev saved : EnrollDoneResponse
saved = record {
  request_id = codes "r9";
  label = codes "desk";
  embeddings_saved = pos 1;
  threshold = f32_floor;
}

finish-saved : (handle_finish toy 0 9 good_disk finish world).0 ≡ enroll_done saved
unfolding handle_finish get lookup keep_if str_eq save bad_label contains_char save_enrollment
    header_chunks emb_dim pick_threshold
finish-saved = refl

handle_finish-IsSaved_example :
    (◌≡◌ {A = ℕ} 0 0)
    × ((s : EnrollSession) × ((get 9 (codes "1000-1") sessions).0 ≡ some s)
        × IsSaved toy good_disk finish world s saved
            (handle_finish toy 0 9 good_disk finish world).1)
handle_finish-IsSaved_example =
    handle_finish-IsSaved toy 0 9 good_disk finish world saved finish-saved

abbrev host : Host
host = record {
  auth_script = script;
  test_script = record { started_at = 0; rounds = []; finished_at = 0 };
  session_at = 9;
  fetched_at = 9;
  shot = good_shot;
  disk = good_disk;
  leads_to = λ dir label. record { dir = dir; name = label };
}

-- A user asks for the removal of enrollments.
abbrev user : Peer
user = record {
  cred = ok 1000;
  stream = be_bytes 2 ++ codes "{}";
  reads = moves 9 ∷ moves 9 ∷ [];
  writes = [];
}

abbrev removal : json.J
removal =
    request_to_json json
      (remove (record { uid = 1000; label = codes "desk"; request_id = codes "r2" }))

handle_connection-IsKept_example :
    IsKept world (handle_connection toy ms_of json (λ j. []) (λ bs. ok removal) host user world).1
handle_connection-IsKept_example =
    handle_connection-IsKept toy ms_of json (λ j. []) (λ bs. ok removal) host user 1000 world refl
      (λ e. omega (arith, e))
