-- ===== src/Lib.antt =====
-- chowdy, a daemon for face authentication on Linux: a model of its code and what holds of it.
--
-- The program: a PAM module and a command line client send requests over Unix sockets to the daemon
-- chowdyd. A connection carries one frame with a JSON request and one with the response. The handlers
-- capture frames from an infrared camera, detect a face and compute its embedding, and compare it with
-- the enrollments, which lie in files under a directory per user.
--
-- Base: texts, results, numbers, lists, maps. Floats: floating point as bit patterns; arithmetic is a
--   parameter. Files: the part of the file system that the daemon uses.
-- Encoding: common/encoding.hpp and common/encoding.cpp. Embedding has the model tag, similarity and
--   threshold; File the bytes of an enrollment file and their parser; Disk save_enrollment.
-- Ipc: common/ipc.cpp. Stream has read_exact and write_exact, Frame read_message and
--   write_message, Socket the address and the timeouts, Listen connect_unix and listen_unix.
-- Json: the operations of nlohmann::json that the program calls, a parameter with documented laws.
-- Proto: proto/messages.hpp. Requests, Responses, Reason.
-- Daemon: Sessions is daemon/enroll_session.cpp, Store daemon/enrollment_store.cpp, Pipeline
--   daemon/pipeline.cpp with the state of daemon/camera.cpp (Watchdog its closing thread), Models
--   daemon/models.cpp, Handlers daemon/handlers, Server daemon/server.cpp (Start its
--   constructor and destructor, Accept its accepting loop), Main the settings that daemon/main.cpp
--   makes of the file and the command line.
-- Config: common/config.cpp. Logging: common/logging.cpp.
-- Pam: pam/pam_chowdy.c. Options has the module's line, Connect, Request and Wire the exchange with
--   the daemon, Scan the search in its answer, Login the entry points.
-- Cli: cli/main.cpp, its arguments and, in Commands, its requests and exit codes.
-- Tests: concrete parameters, and the theorems applied to concrete inputs.
--
-- State is passed explicitly, exceptions are values of Result with the text of what(), and pointers
-- into a table are read and written through it. A mutex makes what runs under it one step; the
-- detached threads of the pipeline are steps that come in any order (Daemon.Pipeline.Lamp).
--
-- Loops that wait for the outside take a script: a list of answers of the kernel (Ipc.Stream), or of
-- rounds with clock readings and answers of the devices (Daemon.Handlers.Auth, Daemon.Handlers.Test).
-- A loop whose script is over before it ends is `blocked` or `unfinished`. A script with as many calls
-- that move bytes as there are bytes is enough for the first; one that reaches the deadline for the
-- second. The fuel of Base.Decimal is above the number of digits.
--
-- Not modelled: common/secure_buffer.hpp, common/peer_cred.cpp (its answer is an argument), ONNX
-- Runtime, OpenCV, toml++ and the camera's driver calls (their results are arguments), the threads
-- of the server, what the client prints, and tools. File modes, listing errors of a directory
-- and the size limits of memory do not appear: `reserve` finds its room. Requests are handled one after
-- another, so the test of a session's size in handle_frame, which the source makes before it takes the
-- pipeline's mutex, is one step with what follows. The least number of frames is far enough from the
-- end of an int for 7 more. Pointers of a handler's context are not null. A write or send of some bytes
-- to a socket moves one at least or fails, as POSIX has it, and SIGPIPE is ignored. The path of a label
-- with a slash or a zero byte leads to a file that the host names.
pub mod Base
pub mod Floats
pub mod Files
pub mod Encoding
pub mod Ipc
pub mod Json
pub mod Logging
pub mod Config
pub mod Proto
pub mod Daemon
pub mod Pam
pub mod Cli
pub mod Tests
