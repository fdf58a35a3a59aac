-- ===== src/Tests/Runs.antt =====
-- Runs of the theorems on start-up, the camera's watchdog, the accepting threads and the client.
use chowdy.Base.{
  ℕ, ◌+◌, ◌*◌, ◌≡◌, refl, inl, inr, arith, Bool, ◌==◌, Str-Eq, if◌then◌else◌, true, false, List, [],
  ◌∷◌, ◌++◌, Option, none, some, Str, codes, Result, ok, err, pos, negsuc, length,
}
use chowdy.Config.{AppConfig, Table, default_config}
use chowdy.Daemon.Main.{Settings, seed, device, configure}
use chowdy.Daemon.Main.Precedence.{last_given, assignments, configure-last_given}
use chowdy.Daemon.Main.Sources.{field, config_values, last_or, IsStart}
use chowdy.Daemon.Pipeline.{Pipeline}
use chowdy.Daemon.Pipeline.Watchdog.{ns_per_ms}
use chowdy.Daemon.Pipeline.Watchdog.Closing.{Closes, idle_keeper_loop-Closes}
use chowdy.Daemon.Server.Accept.{
  auth_sock, polled, connection, interrupted, Round, Loop, accept_loop,
}
use chowdy.Daemon.Server.Accept.Prewarm.{Warms, accept_loop-Warms}
use chowdy.Ipc.Listen.{Process, Calls, listen_unix}
use chowdy.Daemon.Server.Start.{ServerConfig, open_listener, construct_server}
use chowdy.Daemon.Server.Start.Teardown.{IsUndone, construct_server-IsUndone}
use chowdy.Proto.Requests.{AnyRequest, enroll_start}
use chowdy.Proto.Responses.{enroll_progress_response_to_json, enroll_done_response_to_json}
use chowdy.Cli.Commands.{start_request, cmd_enroll}
use chowdy.Cli.Commands.Protocol.{Enrolls, cmd_enroll-Enrolls}
use chowdy.Tests.Samples.{toy, json}

abbrev only_device : Str → Str → Option Str
only_device section key = if key == codes "device" then some (codes "/dev/video7") else none

abbrev table : Table
table = record {
  str_at = only_device;
  int_at = λ section key. none;
  double_at = λ section key. none;
  bool_at = λ section key. none;
}

abbrev args : List Str
args =
    codes "--config"
    ∷ codes "c.toml"
    ∷ codes "--device"
    ∷ codes "/dev/video9"
    ∷ codes "--foreground"
    ∷ []

abbrev config : AppConfig
config = record default_config {
  camera = record default_config.camera { device = codes "/dev/video7" };
}

abbrev settings : Settings
settings = record (seed config) {
  pipeline = record (seed config).pipeline {
    camera = record (seed config).pipeline.camera { device = codes "/dev/video9" };
  };
}

configure-last_given_example :
    (start : Str) × IsStart
      (λ path. true)
      (λ path. ok table)
      (last_or (codes "/etc/chowdy/config.toml") (config_values false args))
      device
      start
    × (field device settings ≡ last_given device start (assignments none args))
unfolding configure seed chowdy.Config.load chowdy.Base.str_eq
configure-last_given_example =
    configure-last_given toy (λ path. true) (λ path. ok table) args device settings refl

abbrev pipeline : Pipeline
pipeline = record {
  cfg = (seed config).pipeline;
  embedder_id = 7;
  camera = record { is_open = true; is_streaming = true };
  frames_since_open = 3;
  use_gen = 0;
  last_use = 1000;
  workers = [];
}

-- A window of 2 ms, and a round every millisecond.
idle_keeper_loop-Closes_example :
    Closes 2 (1001000 ∷ 2001000 ∷ 3001000 ∷ []) pipeline (1000 + 2 * ns_per_ms + 1000000)
idle_keeper_loop-Closes_example =
    idle_keeper_loop-Closes 2 1000000 1000 (1001000 ∷ 2001000 ∷ 3001000 ∷ []) pipeline (omega arith)
      (omega arith) (omega arith)
      ((omega arith, omega arith), ((omega arith, omega arith), ((omega arith, omega arith), tt)))
      (inr (inl (omega arith)))

abbrev met : Round
met = record {
  stopping = false;
  poll = polled true;
  stopping_after_poll = false;
  accept = connection;
}

abbrev rounds : List Round
rounds = met ∷ record met { poll = interrupted } ∷ met ∷ record met { stopping = true } ∷ met ∷ []

abbrev before : Loop
before = record { pipeline = pipeline; handed = 0; is_over = false }

accept_loop-Warms_example : Warms auth_sock before (accept_loop auth_sock rounds before)
accept_loop-Warms_example = accept_loop-Warms auth_sock rounds before

abbrev progress : Bool → json.J
progress is_done = enroll_progress_response_to_json json (record {
  request_id = codes "0";
  session = codes "abc";
  frames_collected = pos 1;
  frames_needed = pos 4;
  quality = 1;
  done = is_done;
  hint = codes "ok";
})

abbrev answers : List (Result json.J)
answers =
    ok (progress false)
    ∷ ok (progress true)
    ∷ ok (
        enroll_done_response_to_json json (record {
          request_id = codes "2";
          label = codes "desk";
          embeddings_saved = pos 4;
          threshold = 1;
        }))
    ∷ []

abbrev ids : ℕ → Str
ids k = k ∷ []

cmd_enroll-Enrolls_example :
    (rest : List AnyRequest) × ((cmd_enroll json ids 1000 (codes "desk") (pos 4) answers).sent
      ≡ enroll_start (start_request 1000 (codes "desk") (pos 4) (ids 0)) ∷ rest)
    × Enrolls json ids answers rest
unfolding cmd_enroll json enroll_progress_response_to_json chowdy.Base.Dict.lookup
    chowdy.Base.str_eq chowdy.Proto.Responses.enroll_progress_response_from_json
    enroll_done_response_to_json chowdy.Proto.Responses.enroll_done_response_from_json
cmd_enroll-Enrolls_example = cmd_enroll-Enrolls json ids 1000 (codes "desk") (pos 4) answers refl

abbrev sockets : ServerConfig
sockets = record {
  auth_socket_path = codes "/run/chowdy/auth.sock";
  mgmt_socket_path = codes "/run/chowdy/mgmt.sock";
  auth_socket_fd = negsuc 0;
  mgmt_socket_fd = negsuc 0;
}

abbrev gives : ℕ → Calls
gives fd = record { socket = ok fd; connect = none; bind = none; chmod = none; listen = none }

abbrev process : Process
process = record { open_fds = 0 ∷ 1 ∷ 2 ∷ []; umask = 18 }

construct_server-IsUndone_example :
    IsUndone process (construct_server sockets (gives 3) (gives 4) (ok (5, 6)) process)
construct_server-IsUndone_example =
    construct_server-IsUndone sockets 0 0 (gives 3) (gives 4) (ok (5, 6)) process refl refl
      (refl, (refl, (refl, tt)))
      (unfold open_listener listen_unix in (refl, (refl, (refl, (refl, tt)))))
      (unfold open_listener listen_unix in
        (
          (refl, (refl, (refl, (refl, (refl, tt))))),
          (refl, (refl, (refl, (refl, (refl, (refl, tt)))))),
        ))
