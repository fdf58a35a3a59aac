-- ===== src/Config.antt =====
-- common/config.hpp and common/config.cpp: the daemon's configuration file. toml++ is a parameter: what
-- `value<T>()` gives of a parsed table, and how parsing ends.
use chowdy.Base.{
  ℕ, Bool, true, false, not, Option, none, some, Str, codes, Result, ok, err, ℤ, pos, ◌++◌, ◌||◌,
  ◌==◌, Str-Eq, if◌then◌else◌,
}
use chowdy.Floats.{FloatOps, f32_floor}
use chowdy.Logging.{Level, debug, info, notice, warn, error}

pub record CameraSection : Type 0 where
  pub device : Str
  pub width : ℤ
  pub height : ℤ
  pub fps : ℤ
  pub dark_threshold : ℕ
  pub policy : Str
  pub idle_keep_ms : ℤ
  pub lazy_safety_close_ms : ℤ

pub record RecognitionSection : Type 0 where
  pub detector_model : Str
  pub embedder_model : Str
  pub detector_conf_threshold : ℕ
  pub similarity_floor : ℕ
  pub enroll_quality_min : ℕ

pub record AntiSpoofSection : Type 0 where
  pub enabled : Bool
  pub model : Str
  pub threshold : ℕ

pub record LogSection : Type 0 where
  pub level : Level
  pub log_failed_attempts : Bool
  pub log_successful_attempts : Bool

-- The sections `auth` and `storage` have one field each.
pub record AppConfig : Type 0 where
  pub camera : CameraSection
  pub recognition : RecognitionSection
  pub antispoof : AntiSpoofSection
  pub default_timeout_ms : ℤ
  pub log : LogSection
  pub users_dir : Str

abbrev pub default_camera : CameraSection
default_camera = record {
  device = codes "/dev/v4l/by-path/pci-0000:00:14.0-usb-0:5:1.2-video-index0";
  width = pos 640;
  height = pos 360;
  fps = pos 30;
  dark_threshold = 0x4039_0000_0000_0000;
  policy = codes "lazy";
  idle_keep_ms = pos 10000;
  lazy_safety_close_ms = pos 5000;
}

abbrev pub default_recognition : RecognitionSection
default_recognition = record {
  detector_model = codes "/var/lib/chowdy/models/detector.onnx";
  embedder_model = codes "/var/lib/chowdy/models/embedder.onnx";
  detector_conf_threshold = 0x3f00_0000;
  similarity_floor = f32_floor;
  enroll_quality_min = 0x3dcc_cccd;
}

abbrev pub default_config : AppConfig
default_config = record {
  camera = default_camera;
  recognition = default_recognition;
  antispoof = record { enabled = false; model = codes ""; threshold = 0x3f33_3333 };
  default_timeout_ms = pos 2000;
  log = record { level = info; log_failed_attempts = true; log_successful_attempts = false };
  users_dir = codes "/var/lib/chowdy/users";
}

unfoldable pub parse_level : Str → Level → Level
parse_level s fallback =
    if s == codes "debug"
    then debug
    else if s == codes "info"
    then info
    else if s == codes "notice"
    then notice
    else if s == codes "warn" || s == codes "warning"
    then warn
    else if s == codes "error"
    then error
    else fallback

-- A parsed table: the value at a key of a section, if it is there and of the type.
pub record Table : Type 0 where
  pub str_at : Str → Str → Option Str
  pub int_at : Str → Str → Option ℤ
  pub double_at : Str → Str → Option ℕ
  pub bool_at : Str → Str → Option Bool

unfoldable pub assign_if : {A : Type 0} → A → Option A → A
assign_if dst none = dst
assign_if dst (some v) = v

level_if : Level → Option Str → Level
unfolding parse_level
level_if level none = level
level_if level (some s) = parse_level s level

module _ (fl : FloatOps) where
  open fl use {to_f32}

  float_if : ℕ → Option ℕ → ℕ
  float_if dst none = dst
  float_if dst (some d) = to_f32 d

  unfoldable pub load_camera : Table → CameraSection → CameraSection
  unfolding assign_if
  load_camera t c = record {
    device = assign_if c.device (t.str_at (codes "camera") (codes "device"));
    width = assign_if c.width (t.int_at (codes "camera") (codes "width"));
    height = assign_if c.height (t.int_at (codes "camera") (codes "height"));
    fps = assign_if c.fps (t.int_at (codes "camera") (codes "fps"));
    dark_threshold =
        assign_if c.dark_threshold (t.double_at (codes "camera") (codes "dark_threshold"));
    policy = assign_if c.policy (t.str_at (codes "camera") (codes "camera_policy"));
    idle_keep_ms = assign_if c.idle_keep_ms (t.int_at (codes "camera") (codes "idle_keep_ms"));
    lazy_safety_close_ms =
        assign_if c.lazy_safety_close_ms (t.int_at (codes "camera") (codes "lazy_safety_close_ms"));
  }

  unfoldable pub load_recognition : Table → RecognitionSection → RecognitionSection
  unfolding assign_if float_if
  load_recognition t r = record {
    detector_model =
        assign_if r.detector_model (t.str_at (codes "recognition") (codes "detector_model"));
    embedder_model =
        assign_if r.embedder_model (t.str_at (codes "recognition") (codes "embedder_model"));
    detector_conf_threshold =
        float_if r.detector_conf_threshold
          (t.double_at (codes "recognition") (codes "detector_conf_threshold"));
    similarity_floor =
        float_if r.similarity_floor (t.double_at (codes "recognition") (codes "similarity_floor"));
    enroll_quality_min =
        float_if r.enroll_quality_min
          (t.double_at (codes "recognition") (codes "enroll_quality_min"));
  }

  unfoldable pub load_antispoof : Table → AntiSpoofSection → AntiSpoofSection
  unfolding assign_if float_if
  load_antispoof t a = record {
    enabled = assign_if a.enabled (t.bool_at (codes "antispoof") (codes "enabled"));
    model = assign_if a.model (t.str_at (codes "antispoof") (codes "model"));
    threshold = float_if a.threshold (t.double_at (codes "antispoof") (codes "threshold"));
  }

  unfoldable pub load_log : Table → LogSection → LogSection
  unfolding assign_if level_if
  load_log t l = record {
    level = level_if l.level (t.str_at (codes "log") (codes "level"));
    log_failed_attempts =
        assign_if l.log_failed_attempts (t.bool_at (codes "log") (codes "log_failed_attempts"));
    log_successful_attempts =
        assign_if l.log_successful_attempts
          (t.bool_at (codes "log") (codes "log_successful_attempts"));
  }

  unfoldable pub load_table : Table → AppConfig → AppConfig
  unfolding load_camera load_recognition load_antispoof load_log assign_if
  load_table t c = record {
    camera = load_camera t c.camera;
    recognition = load_recognition t c.recognition;
    antispoof = load_antispoof t c.antispoof;
    default_timeout_ms =
        assign_if c.default_timeout_ms (t.int_at (codes "auth") (codes "default_timeout_ms"));
    log = load_log t c.log;
    users_dir = assign_if c.users_dir (t.str_at (codes "storage") (codes "users_dir"));
  }

  unfoldable pub loaded : Str → Result Table → Result AppConfig
  unfolding load_table
  loaded path (err description) =
      err (codes "config parse error in " ++ path ++ codes ": " ++ description)
  loaded path (ok t) = ok (load_table t default_config)

  -- `exists` says whether there is a file, `parse_file` what toml++ makes of it.
  unfoldable pub load : (Str → Bool) → (Str → Result Table) → Str → Result AppConfig
  unfolding loaded
  load exists parse_file path =
      if not (exists path) then ok default_config else loaded path (parse_file path)
