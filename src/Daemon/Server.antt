-- ===== src/Daemon/Server.antt =====
-- daemon/server.cpp: `handle_connection`, from the accepted connection to the written answer. How the
-- host answers is an argument: the peer's credentials, the stream that the peer has sent, the answers
-- to reads and writes, the clock, the devices and the disk.
pub mod Accept
pub mod Access
pub mod Start
use chowdy.Base.{
  ℕ, zero, suc, Bool, true, false, List, [], ◌∷◌, ◌++◌, Option, none, some, Str, codes, Result, ok,
  err, if◌then◌else◌,
}
use chowdy.Files.{FilePath}
use chowdy.Floats.{FloatOps}
use chowdy.Json.{JsonLib}
use chowdy.Json.Fields.{field_or}
use chowdy.Encoding.Disk.{DiskIo}
use chowdy.Ipc.Stream.{Answer, Run, done, throws, blocked}
use chowdy.Ipc.Frame.{read_message, write_message, max_payload}
use chowdy.Proto.Reason
use chowdy.Proto.Requests.{
  AnyRequest, auth, test, enroll_start, enroll_frame, enroll_finish, list, remove, parse_request,
}
use chowdy.Proto.Responses.{
  AnyResponse, auth_result, test_result, error, AuthResponse, TestResponse, ErrorResponse,
  serialize_response, error_response_to_json,
}
use chowdy.Daemon.Pipeline.{Shot}
use chowdy.Daemon.Handlers.World.{World}
use chowdy.Daemon.Handlers.Auth.{AuthScript, handle_auth}
use chowdy.Daemon.Handlers.Test.{TestScript, handle_test}
use chowdy.Daemon.Handlers.Enroll.{handle_start, handle_frame, handle_finish}
use chowdy.Daemon.Handlers.ListRemove.{handle_list, handle_remove}

-- What the host answers while one request is handled.
pub record Host : Type 0 where
  pub auth_script : AuthScript
  pub test_script : TestScript
  pub session_at : ℕ
  pub fetched_at : ℕ
  pub shot : Shot
  pub disk : DiskIo
  -- where the path of a label that is no file name leads
  pub leads_to : Str → Str → FilePath

authed : Option AuthResponse → Option AnyResponse
authed none = none
authed (some r) = some (auth_result r)

tested : Option TestResponse → Option AnyResponse
tested none = none
tested (some r) = some (test_result r)

module _ (fl : FloatOps) (ms_of : ℕ → ℕ) where
  -- The visitor on the parsed request; `none` when a capture loop is not over within its script.
  unfoldable pub dispatch : Host → ℕ → AnyRequest → World → Option AnyResponse × World
  unfolding authed tested
  dispatch h peer_uid (auth r) w =
      let (resp, st, p) = handle_auth fl ms_of peer_uid r h.auth_script w.fs w.store w.pipeline in
      (authed resp, record w { store = st; pipeline = p })
  dispatch h peer_uid (test r) w =
      let (resp, w') = handle_test fl ms_of peer_uid r h.test_script w in (tested resp, w')
  dispatch h peer_uid (enroll_start r) w =
      let (resp, w') = handle_start peer_uid h.session_at h.fetched_at r w in (some resp, w')
  dispatch h peer_uid (enroll_frame r) w =
      let (resp, w') = handle_frame fl peer_uid h.session_at h.shot r w in (some resp, w')
  dispatch h peer_uid (enroll_finish r) w =
      let (resp, w') = handle_finish fl peer_uid h.session_at h.disk r w in (some resp, w')
  dispatch h peer_uid (list r) w = let (resp, w') = handle_list fl peer_uid r w in (some resp, w')
  dispatch h peer_uid (remove r) w =
      let (resp, w') = handle_remove h.leads_to peer_uid r w in (some resp, w')

-- The connection's other end.
pub record Peer : Type 0 where
  pub cred : Result ℕ
  pub stream : List ℕ
  pub reads : List Answer
  pub writes : List Answer

-- What the peer gets before the connection is closed.
pub data Handled : Type 0 where
  wrote : Run (Unit {0}) → Handled
  nothing : Handled
  waiting : Handled

module _ (fl : FloatOps) (ms_of : ℕ → ℕ) (L : JsonLib) (dump : L.J → Str)
    (parse : List ℕ → Result L.J) where
  open L use {J, contains, get_str}

  abbrev pub reply : Peer → J → Handled
  reply peer j = wrote (write_message dump peer.writes [] j)

  abbrev pub internal : Str → Str → ErrorResponse
  internal id what = record { request_id = id; reason = Reason.internal_error; detail = what }

  -- The `request_id` of a request that does not parse; a value that is no string makes the handler throw.
  reply_unparsed : Peer → Str → Result Str → Handled
  reply_unparsed peer what (ok id) = reply peer (error_response_to_json L (internal id what))
  reply_unparsed peer what (err _) = nothing

  reply_dispatched : Peer → Option AnyResponse × World → Handled × World
  reply_dispatched peer (none, w) = (waiting, w)
  reply_dispatched peer (some resp, w) = (reply peer (serialize_response L resp), w)

  on_request : Host → Peer → ℕ → World → J → Result AnyRequest → Handled × World
  unfolding reply_unparsed reply_dispatched
  on_request h peer uid w j (err what) = (
    reply_unparsed peer what (
        if contains (codes "request_id") j
        then field_or L get_str (codes "request_id") [] j
        else ok []),
    w,
  )
  on_request h peer uid w j (ok req) = reply_dispatched peer (dispatch fl ms_of h uid req w)

  on_message : Host → Peer → ℕ → World → Run J → Handled × World
  unfolding on_request
  on_message h peer uid w (throws what) = (nothing, w)
  on_message h peer uid w blocked = (waiting, w)
  on_message h peer uid w (done j rest s) = on_request h peer uid w j (parse_request L j)

  on_peer : Host → Peer → World → Result ℕ → Handled × World
  unfolding on_message
  on_peer h peer w (err what) =
      (reply peer (error_response_to_json L (internal [] (codes "peer_cred: " ++ what))), w)
  on_peer h peer w (ok uid) =
      on_message h peer uid w (read_message parse max_payload peer.reads peer.stream)

  unfoldable pub handle_connection : Host → Peer → World → Handled × World
  unfolding on_peer
  handle_connection h peer w = on_peer h peer w peer.cred
