-- ===== src/Pam/Connect/Reached.antt =====
-- pam/pam_chowdy.c: what `connect_socket` has met when it gives a descriptor.
use chowdy.Base.{ℕ, ◌<◌, ◌≡◌, refl, arith, ◌⊎◌, inl, inr, true, some, Str, length, leb, Bool-cases}
use chowdy.Ipc.Socket.{sun_path_size, fill_addr}
use chowdy.Pam.Connect.{
  Connected, at_once, in_progress, refused, Kernel, Timeouts, waits_connected, connect_socket,
}

-- `connect` ended well at once, or was under way and `poll` and `SO_ERROR` said that it did.
abbrev pub IsAccepted : Kernel → ℕ → Connected → Type 0
IsAccepted k timeout_ms answer =
    (answer ≡ at_once)
    ⊎ ((answer ≡ in_progress) × (k.polls timeout_ms ≡ true) × (k.has_no_error ≡ true))

-- There was a socket, the path fits its address, and the connection to this path was accepted.
abbrev pub Reaches : Kernel → Str → ℕ → Type 0
Reaches k path timeout_ms =
    (k.makes_socket ≡ true)
    × (length path < sun_path_size)
    × IsAccepted k timeout_ms (k.connects (fill_addr path))

waits_connected-IsAccepted :
    (k : Kernel) (timeout_ms : ℕ) (answer : Connected)
    → waits_connected k timeout_ms answer ≡ true
    → IsAccepted k timeout_ms answer
unfolding waits_connected
waits_connected-IsAccepted k timeout_ms at_once h = inl refl
waits_connected-IsAccepted k timeout_ms in_progress h =
    inr (refl, ground (arith, h), ground (arith, h))
waits_connected-IsAccepted k timeout_ms refused h = absurd (cc h)

pub connect_socket-Reaches :
    (k : Kernel) (path : Str) (timeout_ms : ℕ) (t : Timeouts)
    → connect_socket k path timeout_ms ≡ some t
    → Reaches k path timeout_ms
unfolding connect_socket
connect_socket-Reaches k path timeout_ms t h = elim (Bool-cases k.makes_socket) [
  | inr without ↦ absurd (cc (rw without at h))
  | inl made ↦ elim (Bool-cases (leb sun_path_size (length path))) [
    | inl long ↦ absurd (cc (rw (made, long) at h))
    | inr fits ↦ elim (Bool-cases (waits_connected k timeout_ms (k.connects (fill_addr path)))) [
      | inr failed ↦ absurd (cc (rw (made, fits, failed) at h))
      | inl accepted ↦ (
        made,
        ground (arith, fits),
        waits_connected-IsAccepted k timeout_ms (k.connects (fill_addr path)) accepted,
      )
    ]
  ]
]
