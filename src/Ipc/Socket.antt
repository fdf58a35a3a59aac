-- ===== src/Ipc/Socket.antt =====
-- common/ipc.cpp: the values that the socket calls get. A path may fill `sun_path`, 108 bytes, up to
-- its terminating zero.
use chowdy.Base.{
  ℕ, ◌+◌, ◌-◌, ◌*◌, ◌/◌, ◌%◌, ◌≡◌, refl, ap, zero, suc, arith, ◌∷◌, Str, codes, Result, ok, err,
  length, length-append, replicate, ltb, ◌++◌, if◌then◌else◌, Bool-cases, inl, inr,
}

abbrev pub sun_path_size : ℕ
sun_path_size = 108

-- The exception of a path that is too long.
unfoldable pub check_path_fits : Str → Result (Unit {0})
check_path_fits path =
    if ltb sun_path_size (length path + 1)
    then err (codes "socket path too long: " ++ path)
    else ok tt

-- The bytes of `sun_path`, all zero before.
unfoldable pub fill_addr : Str → Str
fill_addr path = path ++ (0 ∷ replicate (sun_path_size - 1 - length path) 0)

pub length-replicate : (n c : ℕ) → length (replicate n c) ≡ n
length-replicate zero c = refl
length-replicate (suc n) c = ap suc (length-replicate n c)

-- A path that passes the check is written with its zero into `sun_path` and not past its end.
length-fill_addr :
    (path : Str) → check_path_fits path ≡ ok tt → length (fill_addr path) ≡ sun_path_size
unfolding check_path_fits fill_addr
length-fill_addr path fits = elim (Bool-cases (ltb sun_path_size (length path + 1))) [
  | inl long ↦ absurd (cc (rw long at fits))
  | inr short ↦ ground (
    arith,
    short,
    length-append path (0 ∷ replicate (sun_path_size - 1 - length path) 0),
    length-replicate (sun_path_size - 1 - length path) 0,
  )
]

-- `timeval`: seconds and microseconds.
pub record TimeVal : Type 0 where
  pub tv_sec : ℕ
  pub tv_usec : ℕ

-- The lambda `fill` on a duration in milliseconds that is not negative.
unfoldable pub fill_timeval : ℕ → TimeVal
fill_timeval ms = record { tv_sec = ms / 1000; tv_usec = ms % 1000 * 1000 }

-- The receive and the send timeout that are set on a connection.
unfoldable pub set_timeout : ℕ → ℕ → TimeVal × TimeVal
unfolding fill_timeval
set_timeout rcv snd = (fill_timeval rcv, fill_timeval snd)
