-- ===== src/Ipc/Listen/Cleanup.antt =====
-- common/ipc.cpp: what `connect_unix` and `listen_unix` leave of the process, exceptions included.
use chowdy.Base.{
  ℕ, ◌≡◌, refl, ap, arith, true, false, not, List, [], ◌∷◌, Option, none, some, Str, Result, ok,
  err, keep_if, nat_eq, All,
}
use chowdy.Ipc.Listen.{
  Process, Calls, close_fd, or_close, connect_fd, bind_with_umask, listen_fd, if_fits, connect_unix,
  listen_unix,
}
use chowdy.Ipc.Socket.{check_path_fits}

abbrev pub IsNew : ℕ → Process → Type 0
IsNew fd p = All (λ f. nat_eq f fd ≡ false) p.open_fds

-- An exception and the process as it was, or one descriptor more that was not open.
abbrev pub IsTidy : Process → Result ℕ × Process → Type 0
IsTidy p (err what, after) = after ≡ p
IsTidy p (ok fd, after) = IsNew fd p × (after ≡ record p { open_fds = fd ∷ p.open_fds })

-- A descriptor that the kernel gives is none of those that are open.
abbrev pub IsFresh : Process → Result ℕ → Type 0
IsFresh p (err e) = Unit
IsFresh p (ok fd) = IsNew fd p

keep_if-fresh :
    (fd : ℕ) (fds : List ℕ)
    → All (λ f. nat_eq f fd ≡ false) fds
    → keep_if (λ f. not (nat_eq f fd)) fds ≡ fds
unfolding keep_if
keep_if-fresh fd [] h = refl
keep_if-fresh fd (f ∷ fds) h = rw (h.0) (ap (◌∷◌ f) (keep_if-fresh fd fds h.1))

pub close_fd-opened :
    (fd : ℕ) (p : Process) → IsNew fd p → close_fd fd (record p { open_fds = fd ∷ p.open_fds }) ≡ p
unfolding close_fd keep_if
close_fd-opened fd p h =
    let own : nat_eq fd fd ≡ true = ground arith in
    rw own (ap (λ fds. record p { open_fds = fds }) (keep_if-fresh fd p.open_fds h))

or_close-IsTidy :
    (o : Option Str) (what : Str) (fd : ℕ) (p : Process) (next : Result ℕ × Process)
    → IsNew fd p
    → IsTidy p next
    → IsTidy p (or_close o what fd (record p { open_fds = fd ∷ p.open_fds }) next)
unfolding or_close
or_close-IsTidy none what fd p next h t = t
or_close-IsTidy (some e) what fd p next h t = close_fd-opened fd p h

connect_fd-IsTidy :
    (k : Calls) (path : Str) (r : Result ℕ) (p : Process)
    → IsFresh p r
    → IsTidy p (connect_fd k path r p)
unfolding connect_fd
connect_fd-IsTidy k path (err e) p h = refl
connect_fd-IsTidy k path (ok fd) p h = or_close-IsTidy k.connect _ fd p _ h (h, refl)

listen_fd-IsTidy :
    (k : Calls) (path : Str) (r : Result ℕ) (p : Process)
    → IsFresh p r
    → IsTidy p (listen_fd k path r p)
unfolding listen_fd bind_with_umask
listen_fd-IsTidy k path (err e) p h = refl
listen_fd-IsTidy k path (ok fd) p h =
    or_close-IsTidy k.bind _ fd p _ h
      (or_close-IsTidy k.chmod _ fd p _ h (or_close-IsTidy k.listen _ fd p _ h (h, refl)))

if_fits-IsTidy :
    (r : Result (Unit {0})) (p : Process) (next : Result ℕ × Process)
    → IsTidy p next
    → IsTidy p (if_fits r p next)
unfolding if_fits
if_fits-IsTidy (err what) p next t = refl
if_fits-IsTidy (ok _) p next t = t

-- Whatever fails on the way, connect_unix and listen_unix throw and leave no descriptor open and the
-- umask as it was; or they give a descriptor that was not open, which is the only one more; if the
-- kernel gives one that is not open.
pub listen_unix-IsTidy :
    (k : Calls) (path : Str) (p : Process)
    → IsFresh p k.socket
    → IsTidy p (connect_unix k path p) × IsTidy p (listen_unix k path p)
unfolding connect_unix listen_unix
listen_unix-IsTidy k path p h = (
  if_fits-IsTidy (check_path_fits path) p _ (connect_fd-IsTidy k path k.socket p h),
  if_fits-IsTidy (check_path_fits path) p _ (listen_fd-IsTidy k path k.socket p h),
)
