-- ===== src/Cli.antt =====
-- cli/main.cpp: the command line client, from its arguments to the requests it sends and its exit code.
-- What it prints is not modelled.
pub mod Commands
use chowdy.Base.{
  ℕ, zero, suc, ◌+◌, Bool, true, false, not, ◌&&◌, ◌||◌, List, [], ◌∷◌, Option, none, some, Str,
  codes, ℤ, pos, ltb_ℤ, is_empty, ◌==◌, Str-Eq, if◌then◌else◌,
}
use chowdy.Base.Atoi.{atoi}

pub record Sockets : Type 0 where
  pub mgmt : Str
  pub auth : Str

-- What `main` does once it has read its arguments.
pub data Command : Type 0 where
  exits : ℕ → Command
  runs_test : Sockets → Command
  runs_auth_test : Sockets → Command
  runs_list : Sockets → Command
  runs_enroll : Sockets → Str → ℤ → Command
  runs_remove : Sockets → Str → Bool → Command

-- `std::max` of two `int`s
abbrev pub max_ℤ : ℤ → ℤ → ℤ
max_ℤ a b = if ltb_ℤ a b then b else a

enroll_known : Str → Bool
enroll_known a = a == codes "--label" || a == codes "-n"

-- The arguments behind `enroll`: both flags take a value.
unfoldable pub enroll_args : Sockets → Str → ℤ → List Str → Command
unfolding enroll_known
enroll_args s label n [] = if is_empty label then exits 2 else runs_enroll s label n
enroll_args s label n (a ∷ []) = exits 2
enroll_args s label n (a ∷ v ∷ args) =
    let rest =
      enroll_args s (if a == codes "--label" then v else label)
        (if a == codes "--label" then n else max_ℤ (pos 3) (atoi v)) args in
    if enroll_known a then rest else exits 2

-- The arguments behind `remove`, between two of them; `waiting` after `--label`.
pub record Removal : Type 0 where
  pub label : Str
  pub all : Bool
  pub waiting : Bool
  pub is_bad : Bool

remove_step : Removal → Str → Removal
remove_step r a =
    if r.is_bad
    then r
    else if r.waiting
    then record r { label = a; waiting = false }
    else if a == codes "--label"
    then record r { waiting = true }
    else if a == codes "--all"
    then record r { all = true }
    else record r { is_bad = true }

-- A `--label` with nothing behind it is an unknown argument.
unfoldable pub remove_args : Sockets → Removal → List Str → Command
unfolding remove_step
remove_args s r [] =
    if r.is_bad || r.waiting
    then exits 2
    else if not r.all && is_empty r.label
    then exits 2
    else runs_remove s r.label r.all
remove_args s r (a ∷ args) = remove_args s (remove_step r a) args

unfoldable pub command : Sockets → Str → List Str → Command
unfolding enroll_args remove_args
command s cmd args =
    if cmd == codes "test"
    then runs_test s
    else if cmd == codes "auth-test"
    then runs_auth_test s
    else if cmd == codes "list"
    then runs_list s
    else if cmd == codes "enroll"
    then enroll_args s [] (pos 8) args
    else if cmd == codes "remove"
    then remove_args s (record { label = []; all = false; waiting = false; is_bad = false }) args
    else exits 2

abbrev is_help : Str → Bool
is_help a = a == codes "-h" || a == codes "--help"

abbrev is_socket : Str → Bool
is_socket a = a == codes "--mgmt-socket" || a == codes "--auth-socket"

abbrev set_socket : Str → Str → Sockets → Sockets
set_socket a v s =
    if a == codes "--mgmt-socket" then record s { mgmt = v } else record s { auth = v }

-- The arguments before the command.
global_args : Sockets → List Str → Command
unfolding command
global_args s [] = exits 2
global_args s (a ∷ []) = if is_help a then exits 0 else command s a []
global_args s (a ∷ v ∷ args) =
    let rest = global_args (set_socket a v s) args in
    if is_socket a then rest else if is_help a then exits 0 else command s a (v ∷ args)

unfoldable pub read_args : List Str → Command
unfolding global_args
read_args args =
    global_args
      (record { mgmt = codes "/run/chowdy/mgmt.sock"; auth = codes "/run/chowdy/auth.sock" }) args
