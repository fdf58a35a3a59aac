-- ===== src/Pam/Login.antt =====
-- pam/pam_chowdy.c: `do_auth`, `prompt_enter` and the two entry points of the module.
pub mod Exchange
pub mod Grant
pub mod Serve
pub mod Delivery
use chowdy.Base.{
  ℕ, zero, suc, ◌+◌, ◌-◌, Bool, true, false, ◌&&◌, ◌||◌, not, List, [], ◌∷◌, Option, none, some,
  Str, codes, ℤ, pos, negsuc, length, ltb, leb, nat_eq, if◌then◌else◌,
}
use chowdy.Ipc.Stream.{Answer}
use chowdy.Ipc.Frame.{be_bytes, be_value}
use chowdy.Pam.Options.{Opts, parse_options}
use chowdy.Pam.Scan.{c_string, json_bool, json_string}
use chowdy.Pam.Wire.{Io, gives, minus_one, waits, ◌>>=◌, Conn, read_all, write_all}
use chowdy.Pam.Connect.{Kernel, Timeouts, set_io_timeout, connect_socket}
use chowdy.Pam.Request.{make_request_id, request_text}

abbrev pub recv_buf_size : ℕ
recv_buf_size = 8192

-- What `do_auth` finds outside: the clock at its two readings, the random device, the kernel, and a
-- daemon, which a connection with these timeouts meets.
pub record Outside : Type 0 where
  pub kernel : Kernel
  pub now_before : ℕ
  pub now_after : ℕ
  pub urandom : Option Str
  pub pid : ℕ
  pub time : ℕ
  pub daemon : Timeouts → List Answer × List ℕ

-- The rest of the deadline, 50 ms at least.
abbrev pub remaining : ℕ → ℕ → ℕ → ℕ
remaining timeout_ms before after =
    let left = before + timeout_ms - after in if ltb left 50 then 50 else left

-- The answer's length is known: its bytes.
unfoldable pub read_answer : Conn → ℕ → Io (Str × Conn)
read_answer c rlen = if nat_eq rlen 0 || ltb recv_buf_size rlen then minus_one else read_all c rlen

-- The request is sent and the answer read.
unfoldable pub exchange : Conn → Str → Io (Str × Conn)
unfolding read_answer
exchange c payload = if nat_eq (length payload) 0 || leb 256 (length payload) then minus_one else do
  c1 ← write_all c (be_bytes (length payload))
  c2 ← write_all c1 payload
  (rlen_be, c3) ← read_all c2 4
  read_answer c3 (be_value rlen_be)

-- The result -1, 0 or 1, and the reason that is written for the caller.
pub record Verdict : Type 0 where
  pub success : ℤ
  pub reason : Str

unfoldable pub judge : Str → Verdict
judge answer = record {
  success = json_bool (c_string answer) (codes "success");
  reason = json_string (c_string answer) (codes "reason") 64;
}

-- The connection is there.
unfoldable pub talk : Outside → ℕ → Opts → Timeouts → Io Verdict
unfolding exchange judge
talk out uid o timeouts =
    let met =
      out.daemon (
        set_io_timeout out.kernel (remaining o.timeout_ms out.now_before out.now_after) timeouts) in
    let reqid = make_request_id out.urandom out.pid out.time 17 in
    do
      (answer, c) ←
          exchange (record { script = met.0; stream = met.1; sent = [] })
            (request_text uid o.timeout_ms reqid)
      gives (judge answer)

unfoldable pub connected : Outside → ℕ → Opts → Option Timeouts → Io Verdict
unfolding talk
connected out uid o none = minus_one
connected out uid o (some timeouts) = talk out uid o timeouts

-- `minus_one` leaves the caller's buffer for the reason empty.
unfoldable pub do_auth : Outside → ℕ → Opts → Io Verdict
unfolding connected
do_auth out uid o = connected out uid o (connect_socket out.kernel o.socket_path o.timeout_ms)

-- The conversation of the application that asks: what `pam_get_item` finds, and how `pam_prompt`
-- ends.
pub data Conversation : Type 0 where
  no_item : Conversation
  no_function : Conversation
  prompts_success : Conversation
  prompts_conv_err : Conversation
  prompts_conv_again : Conversation
  prompts_other : Conversation

unfoldable pub prompt_enter : Conversation → ℤ
prompt_enter no_item = pos 0
prompt_enter no_function = pos 0
prompt_enter prompts_success = pos 1
prompt_enter prompts_conv_err = pos 0
prompt_enter prompts_conv_again = pos 0
prompt_enter prompts_other = negsuc 0

pub data PamResult : Type 0 where
  pam_success : PamResult
  pam_user_unknown : PamResult
  pam_auth_err : PamResult
  pam_authinfo_unavail : PamResult

-- `user` is what `pam_get_user` gives, `uid_of` what `getpwnam` does.
pub record Stack : Type 0 where
  pub user : Option Str
  pub uid_of : Str → Option ℕ
  pub conversation : Conversation
  pub outside : Outside

-- What the acknowledgement decides, once the face has matched.
unfoldable pub gate : Opts → ℤ → PamResult
gate o (pos zero) = if not o.allow_no_conv then pam_authinfo_unavail else pam_success
gate o (pos (suc n)) = pam_success
gate o (negsuc n) = pam_authinfo_unavail

-- By the result of `do_auth`.
unfoldable pub decide : Opts → Conversation → ℤ → PamResult
unfolding gate prompt_enter
decide o conversation (pos zero) = pam_auth_err
decide o conversation (pos (suc zero)) =
    if o.require_enter then gate o (prompt_enter conversation) else pam_success
decide o conversation (pos (suc (suc n))) = pam_authinfo_unavail
decide o conversation (negsuc n) = pam_authinfo_unavail

-- `none` while a transfer still waits.
unfoldable pub conclude : Opts → Conversation → Io Verdict → Option PamResult
unfolding decide
conclude o conversation (gives v) = some (decide o conversation v.success)
conclude o conversation minus_one = some (decide o conversation (negsuc 0))
conclude o conversation waits = none

unfoldable pub with_uid : Stack → Opts → Option ℕ → Option PamResult
unfolding conclude do_auth
with_uid s o none = some pam_user_unknown
with_uid s o (some uid) = conclude o s.conversation (do_auth s.outside uid o)

unfoldable pub with_user : Stack → Opts → Option Str → Option PamResult
unfolding with_uid
with_user s o none = some pam_user_unknown
with_user s o (some name) = with_uid s o (s.uid_of name)

unfoldable pub pam_sm_authenticate : Stack → List Str → Option PamResult
unfolding parse_options with_user
pam_sm_authenticate s argv = with_user s (parse_options argv) s.user

unfoldable pub pam_sm_setcred : Stack → List Str → PamResult
pam_sm_setcred s argv = pam_success
