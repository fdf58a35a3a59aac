-- ===== src/Daemon/Main.antt =====
-- daemon/main.cpp: from the command line and the configuration file to the settings of the daemon, or
-- to the exit code of a refusal.
pub mod Names
pub mod Precedence
pub mod Sources
use chowdy.Base.{
  ℕ, Bool, true, false, not, ◌&&◌, ◌||◌, List, [], ◌∷◌, Option, none, some, Str, codes, Result, ok,
  err, ℤ, pos, negsuc, ◌+◌, ◌==◌, Str-Eq, ℕ-Eq, if◌then◌else◌,
}
use chowdy.Base.Atoi.{atoi}
use chowdy.Floats.{FloatOps}
use chowdy.Logging.{Level, debug, info, notice, warn, error}
use chowdy.Config.{AppConfig, Table, load}
use chowdy.Daemon.Pipeline.{PipelineConfig}

-- The first loop over the arguments, for the path of the configuration: `pending` after `--config`.
unfoldable pub find_config : Str → Bool → List Str → Str
find_config path pending [] = path
find_config path pending (a ∷ args) =
    find_config (if pending then a else path) (not pending && a == codes "--config") args

unfoldable pub parse_level : Str → Option Level
parse_level s =
    if s == codes "debug"
    then some debug
    else if s == codes "info"
    then some info
    else if s == codes "notice"
    then some notice
    else if s == codes "warn"
    then some warn
    else if s == codes "error"
    then some error
    else none

-- The settings of the server, the pipeline, the store and the log.
pub record Settings : Type 0 where
  pub auth_socket_path : Str
  pub mgmt_socket_path : Str
  pub pipeline : PipelineConfig
  pub users_dir : Str
  pub min_level : Level

-- The fields that `main` does not set keep the defaults of daemon/pipeline.hpp.
unfoldable pub seed : AppConfig → Settings
seed c = record {
  auth_socket_path = codes "/run/chowdy/auth.sock";
  mgmt_socket_path = codes "/run/chowdy/mgmt.sock";
  pipeline = record {
    camera = record {
      device = c.camera.device;
      width = c.camera.width;
      height = c.camera.height;
      fps = c.camera.fps;
    };
    detector_model = c.recognition.detector_model;
    embedder_model = c.recognition.embedder_model;
    intra_op_threads = pos 4;
    warmup_frames = pos 0;
    dark_threshold = c.camera.dark_threshold;
    detector_conf_threshold = c.recognition.detector_conf_threshold;
    nms_iou = 0x3ecc_cccd;
    enroll_quality_min = c.recognition.enroll_quality_min;
    camera_policy = c.camera.policy;
    idle_keep_ms = c.camera.idle_keep_ms;
    lazy_safety_close_ms = c.camera.lazy_safety_close_ms;
  };
  users_dir = c.users_dir;
  min_level = c.log.level;
}

-- The flags whose value is kept as it stands.
pub data TextFlag : Type 0 where
  auth_socket : TextFlag
  mgmt_socket : TextFlag
  users_dir : TextFlag
  detector : TextFlag
  embedder : TextFlag
  device : TextFlag
  camera_policy : TextFlag

pub data Flag : Type 0 where
  config : Flag
  text : TextFlag → Flag
  idle_keep_ms : Flag
  log_level : Flag
  foreground : Flag
  help : Flag
  unknown : Flag

unfoldable pub flag_of : Str → Flag
flag_of a =
    if a == codes "--config"
    then config
    else if a == codes "--auth-socket"
    then text auth_socket
    else if a == codes "--mgmt-socket"
    then text mgmt_socket
    else if a == codes "--users-dir"
    then text users_dir
    else if a == codes "--detector"
    then text detector
    else if a == codes "--embedder"
    then text embedder
    else if a == codes "--device"
    then text device
    else if a == codes "--camera-policy"
    then text camera_policy
    else if a == codes "--idle-keep-ms"
    then idle_keep_ms
    else if a == codes "--log-level"
    then log_level
    else if a == codes "--foreground"
    then foreground
    else if a == codes "-h" || a == codes "--help"
    then help
    else unknown

unfoldable pub set_text : TextFlag → Str → Settings → Settings
set_text auth_socket v s = record s { auth_socket_path = v }
set_text mgmt_socket v s = record s { mgmt_socket_path = v }
set_text users_dir v s = record s { users_dir = v }
set_text detector v s = record s { pipeline = record s.pipeline { detector_model = v } }
set_text embedder v s = record s { pipeline = record s.pipeline { embedder_model = v } }
set_text device v s = record s {
  pipeline = record s.pipeline { camera = record s.pipeline.camera { device = v } };
}
set_text camera_policy v s = record s { pipeline = record s.pipeline { camera_policy = v } }

-- The second loop between two arguments: the settings so far, with the flag whose value comes next,
-- or the exit code.
pub data Progress : Type 0 where
  ready : Settings → Progress
  awaits : Flag → Settings → Progress
  exits : ℕ → Progress

begin : Settings → Flag → Progress
begin s foreground = ready s
begin s help = exits 0
begin s unknown = exits 2
begin s config = awaits config s
begin s (text f) = awaits (text f) s
begin s idle_keep_ms = awaits idle_keep_ms s
begin s log_level = awaits log_level s

set_level : Settings → Option Level → Progress
set_level s none = exits 2
set_level s (some level) = ready (record s { min_level = level })

-- The value that follows the flag.
give : Settings → Flag → Str → Progress
unfolding set_text set_level parse_level
give s (text f) v = ready (set_text f v s)
give s idle_keep_ms v = ready (record s { pipeline = record s.pipeline { idle_keep_ms = atoi v } })
give s log_level v = set_level s (parse_level v)
give s _ v = ready s

unfoldable pub step : Progress → Str → Progress
unfolding begin give flag_of
step (ready s) a = begin s (flag_of a)
step (awaits f s) v = give s f v
step (exits code) a = exits code

-- The end of the arguments: only `--config` may lack its value.
at_end : Progress → Progress
at_end (ready s) = ready s
at_end (awaits config s) = ready s
at_end (awaits f s) = exits 2
at_end (exits code) = exits code

unfoldable pub run_args : Progress → List Str → Progress
unfolding step at_end
run_args p [] = at_end p
run_args p (a ∷ args) = run_args (step p a) args

configured : List Str → Result AppConfig → Progress
unfolding seed run_args
configured args (err what) = exits 2
configured args (ok c) = run_args (ready (seed c)) args

module _ (fl : FloatOps) where
  -- `args` is the command line behind the program's name.
  unfoldable pub configure : (Str → Bool) → (Str → Result Table) → List Str → Progress
  unfolding find_config load configured
  configure exists parse_file args =
      configured args
        (load fl exists parse_file (find_config (codes "/etc/chowdy/config.toml") false args))

-- The first descriptor that systemd passes, `SD_LISTEN_FDS_START`.
abbrev listen_fds_start : ℕ
listen_fds_start = 3

-- The descriptors of the auth and the management socket, if systemd passes two.
unfoldable pub adopted_fds : ℤ → Option (ℕ × ℕ)
adopted_fds (pos n) = if n == 2 then some (listen_fds_start + 0, listen_fds_start + 1) else none
adopted_fds (negsuc n) = none
