-- ===== src/Pam/Login/Grant.antt =====
-- pam/pam_chowdy.c: when `pam_sm_authenticate` grants the login.
use chowdy.Base.{
  ℕ, zero, suc, ◌≤◌, ◌≡◌, refl, ap, ◌∙◌, ◌⊎◌, inl, inr, true, false, List, [], ◌++◌, some, Str,
  codes, ℤ, pos, negsuc, length, All, Bool-cases, Option-cases,
}
use chowdy.Ipc.Frame.{be_value}
use chowdy.Pam.Options.{Opts, parse_options}
use chowdy.Pam.Scan.{c_string, json_bool, needle, is_separator}
use chowdy.Pam.Scan.Laws.{json_bool-true}
use chowdy.Pam.Wire.{Io, gives, minus_one, waits, Conn}
use chowdy.Pam.Connect.{Timeouts, set_io_timeout, connect_socket}
use chowdy.Pam.Connect.Reached.{Reaches, connect_socket-Reaches}
use chowdy.Pam.Request.{make_request_id, request_text}
use chowdy.Pam.Login.{
  Outside, Verdict, recv_buf_size, exchange, judge, talk, connected, do_auth, remaining,
  Conversation, no_item, no_function, prompts_success, prompts_conv_err, prompts_conv_again,
  prompts_other, prompt_enter, PamResult, pam_success, Stack, gate, decide, conclude, with_uid,
  with_user, pam_sm_authenticate,
}
use chowdy.Pam.Login.Exchange.{bind-gives, exchange-stream}

-- The user could not be asked: there is no conversation, or it failed or wants to be called again.
abbrev pub CannotAsk : Conversation → Type 0
CannotAsk c = (c ≡ no_item) ⊎ (c ≡ no_function) ⊎ (c ≡ prompts_conv_err) ⊎ (c ≡ prompts_conv_again)

-- The options ask for no confirmation, or the prompt was answered, or the user could not be asked and
-- the options let that pass.
abbrev pub IsConfirmed : Opts → Conversation → Type 0
IsConfirmed o conversation =
    (o.require_enter ≡ false)
    ⊎ (conversation ≡ prompts_success)
    ⊎ (CannotAsk conversation × (o.allow_no_conv ≡ true))

-- A daemon sent these bytes to the module: a length of four bytes and as many bytes of answer, 8192
-- at most, in which the quoted word `success` is followed by `true`.
pub record Affirms (stream : List ℕ) : Type 0 where
  pub header : List ℕ
  pub answer : Str
  pub rest : List ℕ
  pub framed : stream ≡ header ++ (answer ++ rest)
  pub header_size : length header ≡ 4
  pub announced : length answer ≡ be_value header
  pub bounded : length answer ≤ recv_buf_size
  pub before : Str
  pub gap : Str
  pub after : Str
  pub says :
      c_string answer ≡ before ++ needle (codes "success") ++ (gap ++ (codes "true" ++ after))
  pub apart : All (λ c. is_separator c ≡ true) gap

verdict_of : Verdict → Io Verdict → Verdict
verdict_of v (gives w) = w
verdict_of v minus_one = v
verdict_of v waits = v

gives-injective : {v w : Verdict} → gives v ≡ gives w → v ≡ w
unfolding verdict_of
gives-injective {v} {w} e = ap (verdict_of v) e

judge-true :
    (answer : Str) (v : Verdict)
    → gives (judge answer) ≡ gives v
    → v.success ≡ pos 1
    → json_bool (c_string answer) (codes "success") ≡ pos 1
unfolding judge
judge-true answer v j s = ap (λ w. w.success) (gives-injective j) ∙ s

talk-Affirms :
    (out : Outside) (uid : ℕ) (o : Opts) (t : Timeouts) (v : Verdict)
    → talk out uid o t ≡ gives v
    → v.success ≡ pos 1
    → (met : Timeouts) × Affirms ((out.daemon met).1)
unfolding talk judge
talk-Affirms out uid o t v h s =
    let met = set_io_timeout out.kernel (remaining o.timeout_ms out.now_before out.now_after) t in
    let request = request_text uid o.timeout_ms (make_request_id out.urandom out.pid out.time 17) in
    let c : Conn = record { script = (out.daemon met).0; stream = (out.daemon met).1; sent = [] } in
    let (got, e, j) = bind-gives (exchange c request) (λ q. gives (judge q.0)) h in
    let (header, framed, four, long, least, most) = exchange-stream c request e in
    let (before, gap, after, says, apart) =
      json_bool-true (c_string got.0) (codes "success") (judge-true got.0 v j s) in
    (
      met,
      record {
        header = header;
        answer = got.0;
        rest = (got.1).stream;
        framed = framed;
        header_size = four;
        announced = long;
        bounded = most;
        before = before;
        gap = gap;
        after = after;
        says = says;
        apart = apart;
      },
    )

-- The module connected to the socket of its options, and over it came such an answer.
abbrev pub IsAffirmed : Outside → Opts → Type 0
IsAffirmed out o =
    Reaches out.kernel o.socket_path o.timeout_ms
    × ((met : Timeouts) × Affirms ((out.daemon met).1))

do_auth-IsAffirmed :
    (out : Outside) (uid : ℕ) (o : Opts) (v : Verdict)
    → do_auth out uid o ≡ gives v
    → v.success ≡ pos 1
    → IsAffirmed out o
unfolding do_auth connected
do_auth-IsAffirmed out uid o v h s =
    elim (Option-cases (connect_socket out.kernel o.socket_path o.timeout_ms)) [
      | inl failed ↦ absurd (cc (rw failed at h))
      | inr (t, made) ↦ (
        connect_socket-Reaches out.kernel o.socket_path o.timeout_ms t made,
        talk-Affirms out uid o t v (rw made at h) s,
      )
    ]

gate-zero : (o : Opts) → gate o (pos 0) ≡ pam_success → o.allow_no_conv ≡ true
unfolding gate
gate-zero o h = elim (Bool-cases o.allow_no_conv) [
  | inl allowed ↦ allowed
  | inr refused ↦ absurd (cc (rw refused at h))
]

gate-IsConfirmed :
    (o : Opts) (c : Conversation) → gate o (prompt_enter c) ≡ pam_success → IsConfirmed o c
unfolding gate prompt_enter
gate-IsConfirmed o no_item h = inr (inr (inl refl, gate-zero o h))
gate-IsConfirmed o no_function h = inr (inr (inr (inl refl), gate-zero o h))
gate-IsConfirmed o prompts_success h = inr (inl refl)
gate-IsConfirmed o prompts_conv_err h = inr (inr (inr (inr (inl refl)), gate-zero o h))
gate-IsConfirmed o prompts_conv_again h = inr (inr (inr (inr (inr refl)), gate-zero o h))
gate-IsConfirmed o prompts_other h = absurd (cc)

decide-IsConfirmed :
    (o : Opts) (c : Conversation) (n : ℤ)
    → decide o c n ≡ pam_success
    → (n ≡ pos 1) × IsConfirmed o c
unfolding decide
decide-IsConfirmed o c (pos zero) h = absurd (cc)
decide-IsConfirmed o c (pos (suc zero)) h = elim (Bool-cases o.require_enter) [
  | inl asks ↦ (refl, gate-IsConfirmed o c (rw asks at h))
  | inr silent ↦ (refl, inl silent)
]
decide-IsConfirmed o c (pos (suc (suc n))) h = absurd (cc)
decide-IsConfirmed o c (negsuc n) h = absurd (cc)

some-injective : {a b : PamResult} → some a ≡ some b → a ≡ b
some-injective {a} {b} e = cc

conclude-Grant :
    (o : Opts) (c : Conversation) (r : Io Verdict)
    → conclude o c r ≡ some pam_success
    → (v : Verdict) × (r ≡ gives v) × (v.success ≡ pos 1) × IsConfirmed o c
unfolding conclude
conclude-Grant o c (gives v) h =
    let (one, confirmed) = decide-IsConfirmed o c v.success (some-injective h) in
    (v, refl, one, confirmed)
conclude-Grant o c minus_one h =
    let (one, _) = decide-IsConfirmed o c (negsuc 0) (some-injective h) in absurd (cc one)
conclude-Grant o c waits h = absurd (cc)

-- A login is granted only if the user has an account; the module got a socket and its connection to
-- the path of its options, which fits an address, was accepted; a daemon sent over it a whole framed
-- answer of at most 8192 bytes in which the quoted word `success` is followed by `true`; and the user
-- answered the prompt, or the options ask for none, or the user could not be asked and they let that
-- pass. Whatever fails on the way, no other course of events grants it.
pub pam_sm_authenticate-granted :
    (s : Stack) (argv : List Str)
    → pam_sm_authenticate s argv ≡ some pam_success
    → (name : Str) × (uid : ℕ) × (s.user ≡ some name)
      × (s.uid_of name ≡ some uid)
      × IsAffirmed s.outside (parse_options argv)
      × IsConfirmed (parse_options argv) s.conversation
unfolding pam_sm_authenticate with_user with_uid
pam_sm_authenticate-granted s argv h = elim (Option-cases s.user) [
  | inl nobody ↦ absurd (cc (rw nobody at h))
  | inr (name, user) ↦ elim (Option-cases (s.uid_of name)) [
    | inl unknown ↦ absurd (cc (rw (user, unknown) at h))
    | inr (uid, known) ↦
        let (v, gave, one, confirmed) =
          conclude-Grant (parse_options argv) s.conversation
            (do_auth s.outside uid (parse_options argv)) (rw (user, known) at h) in
        (
          name,
          uid,
          user,
          known,
          do_auth-IsAffirmed s.outside uid (parse_options argv) v gave one,
          confirmed,
        )
  ]
]
