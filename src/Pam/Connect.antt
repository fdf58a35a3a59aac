-- ===== src/Pam/Connect.antt =====
-- pam/pam_chowdy.c: `connect_socket` and `set_io_timeout`, over what the kernel answers.
pub mod Reached
use chowdy.Base.{
  ℕ, Bool, true, false, ◌&&◌, not, Option, none, some, Str, length, leb, if◌then◌else◌,
}
use chowdy.Ipc.Socket.{TimeVal, fill_timeval, sun_path_size, fill_addr}

-- The result of `connect`.
pub data Connected : Type 0 where
  at_once : Connected
  -- `EINPROGRESS`
  in_progress : Connected
  refused : Connected

-- What the kernel answers to the calls of `connect_socket`.
pub record Kernel : Type 0 where
  pub makes_socket : Bool
  -- `connect` on the address that the bytes of `sun_path` give
  pub connects : Str → Connected
  -- `poll` reports an event in the given time
  pub polls : ℕ → Bool
  -- `getsockopt` succeeds and reports no error
  pub has_no_error : Bool
  -- `setsockopt` of the receive and of the send timeout
  pub sets_receive : Bool
  pub sets_send : Bool

-- The timeouts of a connected descriptor; `none` is no limit.
pub record Timeouts : Type 0 where
  pub receive : Option TimeVal
  pub send : Option TimeVal

-- A failure to set the first leaves the second as it was.
unfoldable pub set_io_timeout : Kernel → ℕ → Timeouts → Timeouts
set_io_timeout k ms t =
    if not k.sets_receive
    then t
    else if not k.sets_send
    then record t { receive = some (fill_timeval ms) }
    else record { receive = some (fill_timeval ms); send = some (fill_timeval ms) }

-- Whether `connect` and the wait for it succeed.
waits_connected : Kernel → ℕ → Connected → Bool
waits_connected k timeout_ms at_once = true
waits_connected k timeout_ms in_progress = k.polls timeout_ms && k.has_no_error
waits_connected k timeout_ms refused = false

-- The descriptor, or `none` for -1.
unfoldable pub connect_socket : Kernel → Str → ℕ → Option Timeouts
unfolding waits_connected set_io_timeout
connect_socket k path timeout_ms =
    if not k.makes_socket
    then none
    else if leb sun_path_size (length path)
    then none
    else if waits_connected k timeout_ms (k.connects (fill_addr path))
    then some (set_io_timeout k timeout_ms (record { receive = none; send = none }))
    else none
