-- ===== src/Ipc/Listen.antt =====
-- common/ipc.cpp: `connect_unix` and `listen_unix`. The process has its open descriptors and its umask;
-- what the kernel answers to the calls is an argument. The socket's file is not modelled.
pub mod Cleanup
use chowdy.Base.{
  ℕ, Bool, true, false, not, List, [], ◌∷◌, ◌++◌, Option, none, some, Str, codes, Result, ok, err,
  keep_if, nat_eq, if◌then◌else◌,
}
use chowdy.Ipc.Socket.{check_path_fits}

pub record Process : Type 0 where
  pub open_fds : List ℕ
  pub umask : ℕ

-- `strerror(errno)` where a call fails.
pub record Calls : Type 0 where
  pub socket : Result ℕ
  pub connect : Option Str
  pub bind : Option Str
  pub chmod : Option Str
  pub listen : Option Str

-- The destructor of `Fd`.
unfoldable pub close_fd : ℕ → Process → Process
close_fd fd p = record p { open_fds = keep_if (λ f. not (nat_eq f fd)) p.open_fds }

-- An exception leaves the scope of the guard.
or_close : Option Str → Str → ℕ → Process → Result ℕ × Process → Result ℕ × Process
unfolding close_fd
or_close none what fd p next = next
or_close (some e) what fd p next = (err (what ++ e), close_fd fd p)

-- Behind the call of `socket`; the guard holds the descriptor.
connect_fd : Calls → Str → Result ℕ → Process → Result ℕ × Process
unfolding or_close
connect_fd k path (err e) p = (err (codes "socket: " ++ e), p)
connect_fd k path (ok fd) p =
    let p' = record p { open_fds = fd ∷ p.open_fds } in
    or_close k.connect (codes "connect " ++ path ++ codes ": ") fd p' (ok fd, p')

-- `::umask` sets the mask and gives the one before.
bind_with_umask : Process → Process
bind_with_umask p =
    let old_umask = p.umask in
    let cleared = record p { umask = 0 } in record cleared { umask = old_umask }

listen_fd : Calls → Str → Result ℕ → Process → Result ℕ × Process
unfolding or_close bind_with_umask
listen_fd k path (err e) p = (err (codes "socket: " ++ e), p)
listen_fd k path (ok fd) p =
    let p' = bind_with_umask (record p { open_fds = fd ∷ p.open_fds }) in
    or_close k.bind (codes "bind " ++ path ++ codes ": ") fd p' (
      or_close k.chmod (codes "chmod " ++ path ++ codes ": ") fd p'
        (or_close k.listen (codes "listen " ++ path ++ codes ": ") fd p' (ok fd, p')))

if_fits : Result (Unit {0}) → Process → Result ℕ × Process → Result ℕ × Process
if_fits (err what) p next = (err what, p)
if_fits (ok _) p next = next

unfoldable pub connect_unix : Calls → Str → Process → Result ℕ × Process
unfolding check_path_fits if_fits connect_fd
connect_unix k path p = if_fits (check_path_fits path) p (connect_fd k path k.socket p)

unfoldable pub listen_unix : Calls → Str → Process → Result ℕ × Process
unfolding check_path_fits if_fits listen_fd
listen_unix k path p = if_fits (check_path_fits path) p (listen_fd k path k.socket p)
