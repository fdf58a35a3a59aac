-- ===== src/Daemon/Server/Start.antt =====
-- daemon/server.cpp: the constructor of `Server` and its destructor, with the descriptors of the
-- process. The mode of a socket's file, its close-on-exec flag and the threads are not modelled.
pub mod Teardown
use chowdy.Base.{ℕ, ◌∷◌, Str, codes, ◌++◌, Result, ok, err, ℤ, pos, negsuc}
use chowdy.Ipc.Listen.{Process, Calls, close_fd, listen_unix}

pub record ServerConfig : Type 0 where
  pub auth_socket_path : Str
  pub mgmt_socket_path : Str
  pub auth_socket_fd : ℤ
  pub mgmt_socket_fd : ℤ

pub record Server : Type 0 where
  pub auth_listen : ℕ
  pub mgmt_listen : ℕ
  pub wake_r : ℕ
  pub wake_w : ℕ

-- A socket that the service manager has passed, or one of its own.
unfoldable pub open_listener : ℤ → Str → Calls → Process → Result ℕ × Process
open_listener (pos fd) path k p = (ok fd, p)
open_listener (negsuc n) path k p = listen_unix k path p

-- An exception destroys the members that are there, the last one first.
unfoldable pub open_wake : Result (ℕ × ℕ) → ℕ → ℕ → Process → Result Server × Process
open_wake (err e) auth mgmt p = (err (codes "pipe2: " ++ e), close_fd auth (close_fd mgmt p))
open_wake (ok (r, w)) auth mgmt p = (
  ok (record { auth_listen = auth; mgmt_listen = mgmt; wake_r = r; wake_w = w }),
  record p { open_fds = w ∷ r ∷ p.open_fds },
)

unfoldable pub open_mgmt : Result (ℕ × ℕ) → ℕ → Result ℕ × Process → Result Server × Process
open_mgmt pipe auth (err e, p) = (err e, close_fd auth p)
open_mgmt pipe auth (ok mgmt, p) = open_wake pipe auth mgmt p

unfoldable pub open_auth :
    ServerConfig → Calls → Result (ℕ × ℕ) → Result ℕ × Process → Result Server × Process
open_auth cfg k pipe (err e, p) = (err e, p)
open_auth cfg k pipe (ok auth, p) =
    open_mgmt pipe auth (open_listener cfg.mgmt_socket_fd cfg.mgmt_socket_path k p)

-- The calls for the two sockets, and `pipe2`.
unfoldable pub construct_server :
    ServerConfig → Calls → Calls → Result (ℕ × ℕ) → Process → Result Server × Process
construct_server cfg auth_calls mgmt_calls pipe p =
    open_auth cfg mgmt_calls pipe
      (open_listener cfg.auth_socket_fd cfg.auth_socket_path auth_calls p)

unfoldable pub destroy_server : Server → Process → Process
destroy_server s p =
    close_fd s.auth_listen (close_fd s.mgmt_listen (close_fd s.wake_r (close_fd s.wake_w p)))
