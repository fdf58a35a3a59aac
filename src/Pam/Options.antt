-- ===== src/Pam/Options.antt =====
-- pam/pam_chowdy.c: the options of the module's line.
pub mod Bounds
pub mod Presence
use chowdy.Base.{
  ℕ, zero, suc, ◌+◌, ◌-◌, ◌*◌, Bool, true, false, ◌&&◌, ◌||◌, not, List, [], ◌∷◌, Option, none,
  some, Str, codes, ℤ, pos, negsuc, ltb, leb, nat_eq, is_empty, ◌==◌, Str-Eq, ℕ-Eq, if◌then◌else◌,
}
use chowdy.Base.Atoi.{atoi}
use chowdy.Pam.Prefix.{strip_prefix}

pub record Opts : Type 0 where
  pub socket_path : Str
  pub timeout_ms : ℕ
  pub debug : Bool
  pub require_enter : Bool
  pub allow_no_conv : Bool

-- The empty text counts as true.
unfoldable pub truthy : Str → Bool
truthy s = is_empty s || s == codes "yes" || s == codes "true" || s == codes "1" || s == codes "on"

abbrev pub default_opts : Opts
default_opts = record {
  socket_path = codes "/run/chowdy/auth.sock";
  timeout_ms = 2000;
  debug = false;
  require_enter = true;
  allow_no_conv = false;
}

-- `if (t > 0 && t <= 60000) o->timeout_ms = t`
set_timeout_ms : Opts → ℤ → Opts
set_timeout_ms o (pos n) = if ltb 0 n && leb n 60000 then record o { timeout_ms = n } else o
set_timeout_ms o (negsuc n) = o

set_confirm : Opts → Str → Opts
set_confirm o v = record o {
  require_enter = not (v == codes "none" || v == codes "off" || v == codes "no");
}

-- `(*v == '=') ? truthy(v + 1) : truthy(v)`
set_allow : Opts → Str → Opts
unfolding truthy
set_allow o [] = record o { allow_no_conv = truthy [] }
set_allow o (c ∷ v) = record o { allow_no_conv = if c == b'=' then truthy v else truthy (c ∷ v) }

-- The last of the tests.
try_allow : Opts → Option Str → Opts
unfolding set_allow
try_allow o none = o
try_allow o (some v) = set_allow o v

try_confirm : Opts → Str → Option Str → Opts
unfolding set_confirm try_allow
try_confirm o a (some v) = set_confirm o v
try_confirm o a none =
    if a == codes "noconfirm"
    then record o { require_enter = false }
    else try_allow o (strip_prefix (codes "allow_login_without_enter") a)

try_timeout : Opts → Str → Option Str → Opts
unfolding atoi set_timeout_ms try_confirm
try_timeout o a (some v) = set_timeout_ms o (atoi v)
try_timeout o a none =
    if a == codes "debug"
    then record o { debug = true }
    else try_confirm o a (strip_prefix (codes "confirm=") a)

try_socket : Opts → Str → Option Str → Opts
unfolding try_timeout
try_socket o a (some v) = record o { socket_path = v }
try_socket o a none = try_timeout o a (strip_prefix (codes "timeout=") a)

-- The body of the loop on one argument.
unfoldable pub parse_option : Opts → Str → Opts
unfolding strip_prefix try_socket
parse_option o a = try_socket o a (strip_prefix (codes "socket=") a)

parse_from : Opts → List Str → Opts
unfolding parse_option
parse_from o [] = o
parse_from o (a ∷ argv) = parse_from (parse_option o a) argv

unfoldable pub parse_options : List Str → Opts
unfolding parse_from
parse_options argv = parse_from default_opts argv
