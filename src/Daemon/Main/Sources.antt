-- ===== src/Daemon/Main/Sources.antt =====
-- daemon/main.cpp and common/config.cpp: the path of the configuration, and what a text setting is
-- before the command line.
use chowdy.Base.{
  ◌≡◌, refl, ap, sym, ◌∙◌, ◌⊎◌, inl, inr, Bool, true, false, List, [], ◌∷◌, Option, none, some, Str,
  codes, Result, ok, err, Bool-cases, ◌==◌, Str-Eq,
}
use chowdy.Floats.{FloatOps}
use chowdy.Config.{
  AppConfig, Table, default_config, assign_if, load_camera, load_recognition, load_table, loaded,
  load,
}
use chowdy.Daemon.Main.{
  Settings, seed, find_config, TextFlag, auth_socket, mgmt_socket, users_dir, detector, embedder,
  device, camera_policy,
}

abbrev pub field : TextFlag → Settings → Str
field auth_socket s = s.auth_socket_path
field mgmt_socket s = s.mgmt_socket_path
field users_dir s = s.users_dir
field detector s = s.pipeline.detector_model
field embedder s = s.pipeline.embedder_model
field device s = s.pipeline.camera.device
field camera_policy s = s.pipeline.camera_policy

-- The arguments that stand behind a `--config` which is not itself such an argument.
abbrev pub config_values : Bool → List Str → List Str
config_values behind [] = []
config_values false (a ∷ args) = config_values (a == codes "--config") args
config_values true (a ∷ args) = a ∷ config_values false args

abbrev pub last_or : Str → List Str → Str
last_or path [] = path
last_or path (v ∷ values) = last_or v values

pub find_config-last_or :
    (path : Str) (behind : Bool) (args : List Str)
    → find_config path behind args ≡ last_or path (config_values behind args)
unfolding find_config
find_config-last_or path behind [] = refl
find_config-last_or path false (a ∷ args) = find_config-last_or path (a == codes "--config") args
find_config-last_or path true (a ∷ args) = find_config-last_or a false args

-- The built-in value.
abbrev pub built_in : TextFlag → Str
built_in auth_socket = codes "/run/chowdy/auth.sock"
built_in mgmt_socket = codes "/run/chowdy/mgmt.sock"
built_in users_dir = codes "/var/lib/chowdy/users"
built_in detector = codes "/var/lib/chowdy/models/detector.onnx"
built_in embedder = codes "/var/lib/chowdy/models/embedder.onnx"
built_in device = codes "/dev/v4l/by-path/pci-0000:00:14.0-usb-0:5:1.2-video-index0"
built_in camera_policy = codes "lazy"

-- The setting in the file; the sockets have none.
abbrev pub in_file : TextFlag → Table → Option Str
in_file auth_socket t = none
in_file mgmt_socket t = none
in_file users_dir t = t.str_at (codes "storage") (codes "users_dir")
in_file detector t = t.str_at (codes "recognition") (codes "detector_model")
in_file embedder t = t.str_at (codes "recognition") (codes "embedder_model")
in_file device t = t.str_at (codes "camera") (codes "device")
in_file camera_policy t = t.str_at (codes "camera") (codes "camera_policy")

abbrev pub else_built_in : Option Str → TextFlag → Str
else_built_in none f = built_in f
else_built_in (some v) f = v

-- The setting's value before the command line: with no file at the path the built-in one, otherwise
-- the file parsed, and it is the file's or else the built-in one.
abbrev pub IsStart : (Str → Bool) → (Str → Result Table) → Str → TextFlag → Str → Type 0
IsStart exists parse_file path f v =
    ((exists path ≡ false) × (v ≡ built_in f))
    ⊎ ((t : Table) × (exists path ≡ true)
        × (parse_file path ≡ ok t)
        × (v ≡ else_built_in (in_file f t) f))

assign_if-else_built_in :
    (f : TextFlag) (o : Option Str) → assign_if (built_in f) o ≡ else_built_in o f
unfolding assign_if
assign_if-else_built_in f none = refl
assign_if-else_built_in f (some v) = refl

default_config-built_in : (f : TextFlag) → field f (seed default_config) ≡ built_in f
unfolding seed
default_config-built_in auth_socket = refl
default_config-built_in mgmt_socket = refl
default_config-built_in users_dir = refl
default_config-built_in detector = refl
default_config-built_in embedder = refl
default_config-built_in device = refl
default_config-built_in camera_policy = refl

module _ (fl : FloatOps) where
  load_table-in_file :
      (f : TextFlag) (t : Table)
      → field f (seed (load_table fl t default_config)) ≡ else_built_in (in_file f t) f
  unfolding seed load_table load_camera load_recognition
  load_table-in_file auth_socket t = refl
  load_table-in_file mgmt_socket t = refl
  load_table-in_file users_dir t = assign_if-else_built_in users_dir (in_file users_dir t)
  load_table-in_file detector t = assign_if-else_built_in detector (in_file detector t)
  load_table-in_file embedder t = assign_if-else_built_in embedder (in_file embedder t)
  load_table-in_file device t = assign_if-else_built_in device (in_file device t)
  load_table-in_file camera_policy t =
      assign_if-else_built_in camera_policy (in_file camera_policy t)

  config_of : AppConfig → Result AppConfig → AppConfig
  config_of c (ok d) = d
  config_of c (err what) = c

  ok-field : (f : TextFlag) (c d : AppConfig) → ok c ≡ ok d → field f (seed d) ≡ field f (seed c)
  unfolding config_of
  ok-field f c d e = ap (λ r. field f (seed (config_of c r))) (sym e)

  loaded-IsStart :
      (path : Str) (r : Result Table) (f : TextFlag) (c : AppConfig)
      → loaded fl path r ≡ ok c
      → (t : Table) × (r ≡ ok t) × (field f (seed c) ≡ else_built_in (in_file f t) f)
  unfolding loaded
  loaded-IsStart path (err description) f c h = absurd (cc h)
  loaded-IsStart path (ok t) f c h =
      (t, refl, ok-field f (load_table fl t default_config) c h ∙ load_table-in_file f t)

  pub load-IsStart :
      (exists : Str → Bool) (parse_file : Str → Result Table) (path : Str) (f : TextFlag)
      (c : AppConfig)
      → load fl exists parse_file path ≡ ok c
      → IsStart exists parse_file path f (field f (seed c))
  unfolding load
  load-IsStart exists parse_file path f c h = elim (Bool-cases (exists path)) [
    | inr missing ↦
        inl (missing, ok-field f default_config c (rw missing at h) ∙ default_config-built_in f)
    | inl there ↦
        let (t, parsed, value) = loaded-IsStart path (parse_file path) f c (rw there at h) in
        inr (t, there, parsed, value)
  ]
