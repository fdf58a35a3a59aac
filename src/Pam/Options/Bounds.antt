-- ===== src/Pam/Options/Bounds.antt =====
-- pam/pam_chowdy.c: what the options can set: the timeout, and the confirmation.
use chowdy.Base.{
  ◌≤◌, arith, List, [], ◌∷◌, Option, none, some, Str, codes, ℤ, pos, negsuc, Bool-cases, inl, inr,
  ◌==◌, Str-Eq,
}
use chowdy.Base.Atoi.{atoi}
use chowdy.Pam.Prefix.{strip_prefix}
use chowdy.Pam.Options.{
  Opts, default_opts, set_timeout_ms, set_confirm, set_allow, try_allow, try_confirm, try_timeout,
  try_socket, parse_option, parse_from, parse_options,
}

abbrev pub IsTimely : Opts → Type 0
IsTimely o = (1 ≤ o.timeout_ms) × (o.timeout_ms ≤ 60000)

set_timeout_ms-IsTimely : (o : Opts) (t : ℤ) → IsTimely o → IsTimely (set_timeout_ms o t)
unfolding set_timeout_ms
set_timeout_ms-IsTimely o (pos n) h = ground arith
set_timeout_ms-IsTimely o (negsuc n) h = h

try_allow-IsTimely : (o : Opts) (v : Option Str) → IsTimely o → IsTimely (try_allow o v)
unfolding try_allow set_allow
try_allow-IsTimely o none h = h
try_allow-IsTimely o (some []) h = h
try_allow-IsTimely o (some (c ∷ v)) h = h

try_confirm-IsTimely :
    (o : Opts) (a : Str) (v : Option Str) → IsTimely o → IsTimely (try_confirm o a v)
unfolding try_confirm set_confirm
try_confirm-IsTimely o a (some v) h = h
try_confirm-IsTimely o a none h = elim (Bool-cases (a == codes "noconfirm")) [
  | inl is ↦ rw is h
  | inr not_is ↦ rw not_is (try_allow-IsTimely o _ h)
]

try_timeout-IsTimely :
    (o : Opts) (a : Str) (v : Option Str) → IsTimely o → IsTimely (try_timeout o a v)
unfolding try_timeout
try_timeout-IsTimely o a (some v) h = set_timeout_ms-IsTimely o (atoi v) h
try_timeout-IsTimely o a none h = elim (Bool-cases (a == codes "debug")) [
  | inl is ↦ rw is h
  | inr not_is ↦ rw not_is (try_confirm-IsTimely o a _ h)
]

try_socket-IsTimely :
    (o : Opts) (a : Str) (v : Option Str) → IsTimely o → IsTimely (try_socket o a v)
unfolding try_socket
try_socket-IsTimely o a (some v) h = h
try_socket-IsTimely o a none h = try_timeout-IsTimely o a (strip_prefix (codes "timeout=") a) h

parse_from-IsTimely : (o : Opts) (argv : List Str) → IsTimely o → IsTimely (parse_from o argv)
unfolding parse_from parse_option
parse_from-IsTimely o [] h = h
parse_from-IsTimely o (a ∷ argv) h =
    parse_from-IsTimely (parse_option o a) argv (try_socket-IsTimely o a _ h)

-- Whatever the module's line says, the timeout lies between 1 and 60,000 ms.
pub parse_options-IsTimely : (argv : List Str) → IsTimely (parse_options argv)
unfolding parse_options
parse_options-IsTimely argv = parse_from-IsTimely default_opts argv (omega arith)
