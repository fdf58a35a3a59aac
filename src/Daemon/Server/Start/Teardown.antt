-- ===== src/Daemon/Server/Start/Teardown.antt =====
-- daemon/server.cpp: a server that is built, or not, and torn down.
use chowdy.Base.{ℕ, ◌≡◌, ◌∷◌, Str, Result, ok, err, ℤ, negsuc}
use chowdy.Ipc.Listen.{Process, Calls, close_fd}
use chowdy.Ipc.Listen.Cleanup.{IsTidy, IsFresh, IsNew, close_fd-opened, listen_unix-IsTidy}
use chowdy.Daemon.Server.Start.{
  ServerConfig, Server, open_listener, open_wake, open_mgmt, open_auth, construct_server,
  destroy_server,
}

-- An exception and the process as it was, or a server whose destructor makes it so.
abbrev pub IsUndone : Process → Result Server × Process → Type 0
IsUndone p (err what, after) = after ≡ p
IsUndone p (ok s, after) = destroy_server s after ≡ p

-- What `pipe2` gives is not open.
abbrev pub IsFreshPipe : Process → Result (ℕ × ℕ) → Type 0
IsFreshPipe p (err e) = Unit {0}
IsFreshPipe p (ok (r, w)) = IsNew r p × IsNew w (record p { open_fds = r ∷ p.open_fds })

close_fd-last :
    (fd : ℕ) (p after : Process)
    → IsNew fd p
    → after ≡ record p { open_fds = fd ∷ p.open_fds }
    → close_fd fd after ≡ p
close_fd-last fd p after new e = rw e (close_fd-opened fd p new)

open_wake-IsUndone :
    (pipe : Result (ℕ × ℕ)) (auth mgmt : ℕ) (p p1 p2 : Process)
    → close_fd auth p1 ≡ p
    → close_fd mgmt p2 ≡ p1
    → IsFreshPipe p2 pipe
    → IsUndone p (open_wake pipe auth mgmt p2)
unfolding open_wake destroy_server
open_wake-IsUndone (err e) auth mgmt p p1 p2 a m new = rw m a
open_wake-IsUndone (ok (r, w)) auth mgmt p p1 p2 a m new =
    let p3 = record p2 { open_fds = r ∷ p2.open_fds } in
    rw (close_fd-opened w p3 new.1) (rw (close_fd-opened r p2 new.0) (rw m a))

open_mgmt-IsUndone :
    (pipe : Result (ℕ × ℕ)) (auth : ℕ) (p p1 : Process) (x : Result ℕ × Process)
    → close_fd auth p1 ≡ p
    → IsTidy p1 x
    → IsFreshPipe x.1 pipe
    → IsUndone p (open_mgmt pipe auth x)
unfolding open_mgmt
open_mgmt-IsUndone pipe auth p p1 (err e, p2) a m new = rw m a
open_mgmt-IsUndone pipe auth p p1 (ok mgmt, p2) a m new =
    open_wake-IsUndone pipe auth mgmt p p1 p2 a (close_fd-last mgmt p1 p2 m.0 m.1) new

-- The process behind the opening of the management socket.
abbrev pub behind_mgmt : ServerConfig → Calls → Process → Process
behind_mgmt cfg k p = (open_listener cfg.mgmt_socket_fd cfg.mgmt_socket_path k p).1

abbrev pub behind_auth : ServerConfig → Calls → Process → Process
behind_auth cfg k p = (open_listener cfg.auth_socket_fd cfg.auth_socket_path k p).1

open_listener-IsTidy :
    (z : ℤ) (n : ℕ) (path : Str) (k : Calls) (p : Process)
    → z ≡ negsuc n
    → IsFresh p k.socket
    → IsTidy p (open_listener z path k p)
unfolding open_listener
open_listener-IsTidy z n path k p e new = rw e ((listen_unix-IsTidy k path p new).1)

open_auth-IsUndone :
    (cfg : ServerConfig) (n : ℕ) (k : Calls) (pipe : Result (ℕ × ℕ)) (p : Process)
    (x : Result ℕ × Process)
    → cfg.mgmt_socket_fd ≡ negsuc n
    → IsTidy p x
    → IsFresh x.1 k.socket
    → IsFreshPipe (behind_mgmt cfg k x.1) pipe
    → IsUndone p (open_auth cfg k pipe x)
unfolding open_auth
open_auth-IsUndone cfg n k pipe p (err e, p1) own a new wake = a
open_auth-IsUndone cfg n k pipe p (ok auth, p1) own a new wake =
    open_mgmt-IsUndone pipe auth p p1 _ (close_fd-last auth p p1 a.0 a.1)
      (open_listener-IsTidy cfg.mgmt_socket_fd n cfg.mgmt_socket_path k p1 own new) wake

-- Where both sockets are the server's own and the kernel gives descriptors that are not open, a
-- constructor that throws, at whichever call, leaves the open descriptors and the umask as they were,
-- and so does a constructor that does not throw and then the destructor.
pub construct_server-IsUndone :
    (cfg : ServerConfig) (n m : ℕ) (auth_calls mgmt_calls : Calls) (pipe : Result (ℕ × ℕ))
    (p : Process)
    → cfg.auth_socket_fd ≡ negsuc n
    → cfg.mgmt_socket_fd ≡ negsuc m
    → IsFresh p auth_calls.socket
    → IsFresh (behind_auth cfg auth_calls p) mgmt_calls.socket
    → IsFreshPipe (behind_mgmt cfg mgmt_calls (behind_auth cfg auth_calls p)) pipe
    → IsUndone p (construct_server cfg auth_calls mgmt_calls pipe p)
unfolding construct_server
construct_server-IsUndone cfg n m ka km pipe p own_auth own_mgmt new_auth new_mgmt wake =
    open_auth-IsUndone cfg m km pipe p _ own_mgmt
      (open_listener-IsTidy cfg.auth_socket_fd n cfg.auth_socket_path ka p own_auth new_auth)
      new_mgmt wake
