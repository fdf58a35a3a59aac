-- ===== src/Pam/Login/Serve.antt =====
-- pam/pam_chowdy.c: a login with a daemon that answers.
use chowdy.Base.{
  ℕ, ◌+◌, ◌≤◌, ◌<◌, ◌≡◌, ◌^◌, refl, ap, arith, ◌⊎◌, inl, inr, true, List, ◌++◌, some, Str, codes,
  pos, length, Bool-cases,
}
use chowdy.Ipc.Stream.{Answer}
use chowdy.Ipc.Stream.Laws.{IsHealthy, move_count}
use chowdy.Ipc.Frame.{be_bytes}
use chowdy.Pam.Options.{Opts, parse_options}
use chowdy.Pam.Options.Bounds.{IsTimely, parse_options-IsTimely}
use chowdy.Pam.Scan.{c_string}
use chowdy.Pam.Scan.Laws.{SaysTrue, SaysTrue-json_bool}
use chowdy.Pam.Wire.{gives}
use chowdy.Pam.Connect.{Timeouts, set_io_timeout, connect_socket}
use chowdy.Pam.Request.{make_request_id, request_text}
use chowdy.Pam.Request.Bounds.{request_text-fits}
use chowdy.Pam.Login.{
  Outside, recv_buf_size, judge, talk, connected, do_auth, remaining, Conversation, prompts_success,
  prompt_enter, pam_success, Stack, gate, decide, conclude, with_uid, with_user,
  pam_sm_authenticate,
}
use chowdy.Pam.Login.Exchange.{exchange-frame}
use chowdy.Pam.Login.Grant.{CannotAsk, IsConfirmed}

-- The socket is there, and whatever timeouts are set a daemon's framed answer of 1 to 8192 bytes
-- comes over it, with answers of the kernel enough for the transfers and no error among them.
pub record Answers (out : Outside) (o : Opts) (answer : Str) : Type 0 where
  pub timeouts : Timeouts
  pub connects : connect_socket out.kernel o.socket_path o.timeout_ms ≡ some timeouts
  pub script : List Answer
  pub rest : List ℕ
  pub sends : (t : Timeouts) → out.daemon t ≡ (script, be_bytes (length answer) ++ (answer ++ rest))
  pub healthy : IsHealthy script
  pub enough : 264 + length answer ≤ move_count script
  pub not_empty : 0 < length answer
  pub bounded : length answer ≤ recv_buf_size

talk-judge :
    (out : Outside) (uid : ℕ) (o : Opts) (answer : Str) (a : Answers out o answer)
    → uid < 2 ^ 32
    → IsTimely o
    → talk out uid o a.timeouts ≡ gives (judge answer)
unfolding talk
talk-judge out uid o answer a h k =
    let reqid = make_request_id out.urandom out.pid out.time 17 in
    let (lo, hi) = request_text-fits uid o.timeout_ms out.pid out.time out.urandom h (k.1) in
    let (after, e, _) =
      exchange-frame a.script (request_text uid o.timeout_ms reqid) answer a.rest a.healthy lo hi
        a.not_empty a.bounded (omega (arith, a.enough, hi)) in
    rw
      (a.sends (
        set_io_timeout out.kernel (remaining o.timeout_ms out.now_before out.now_after) a.timeouts))
      (rw e refl)

do_auth-judge :
    (out : Outside) (uid : ℕ) (o : Opts) (answer : Str) (a : Answers out o answer)
    → uid < 2 ^ 32
    → IsTimely o
    → do_auth out uid o ≡ gives (judge answer)
unfolding do_auth connected
do_auth-judge out uid o answer a h k = rw (a.connects) (talk-judge out uid o answer a h k)

gate-success :
    (o : Opts) (c : Conversation)
    → (c ≡ prompts_success) ⊎ (CannotAsk c × (o.allow_no_conv ≡ true))
    → gate o (prompt_enter c) ≡ pam_success
unfolding gate prompt_enter
gate-success o c (inl answered) = rw answered refl
gate-success o c (inr (inl absent, allowed)) = rw (absent, allowed) refl
gate-success o c (inr (inr (inl absent), allowed)) = rw (absent, allowed) refl
gate-success o c (inr (inr (inr (inl failed)), allowed)) = rw (failed, allowed) refl
gate-success o c (inr (inr (inr (inr again)), allowed)) = rw (again, allowed) refl

decide-success : (o : Opts) (c : Conversation) → IsConfirmed o c → decide o c (pos 1) ≡ pam_success
unfolding decide
decide-success o c (inl silent) = rw silent refl
decide-success o c (inr asked) = elim (Bool-cases o.require_enter) [
  | inl asks ↦ rw asks (gate-success o c asked)
  | inr silent ↦ rw silent refl
]

-- The login of a user whom the daemon affirms comes to its end and is granted, however the kernel
-- splits the transfers: if the user has an account, the socket is there, the daemon's answer of 1 to
-- 8192 bytes comes whole, the first quoted `success` in it is followed, behind spaces, tabs and colons,
-- by `true`, and the options ask for no confirmation, or the prompt is answered, or the user cannot be
-- asked and the options let that pass.
pub pam_sm_authenticate-grants :
    (s : Stack) (argv : List Str) (name : Str) (uid : ℕ) (answer : Str)
    → s.user ≡ some name
    → s.uid_of name ≡ some uid
    → uid < 2 ^ 32
    → Answers s.outside (parse_options argv) answer
    → SaysTrue (c_string answer) (codes "success")
    → IsConfirmed (parse_options argv) s.conversation
    → pam_sm_authenticate s argv ≡ some pam_success
unfolding pam_sm_authenticate with_user with_uid conclude judge
pam_sm_authenticate-grants s argv name uid answer user known h a says confirmed =
    let o = parse_options argv in
    rw
      (
        user,
        known,
        do_auth-judge s.outside uid o answer a h (parse_options-IsTimely argv),
        SaysTrue-json_bool (c_string answer) (codes "success") says,
      )
      (ap some (decide-success o s.conversation confirmed))
