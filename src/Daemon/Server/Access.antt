-- ===== src/Daemon/Server/Access.antt =====
-- What a peer that is not root can change.
use chowdy.Base.{
  ℕ, ◌≡◌, ◌≢◌, refl, false, List, Option, none, some, Str, Result, ok, err, ℕ-Eq, nat_eq, arith,
}
use chowdy.Floats.{FloatOps}
use chowdy.Json.{JsonLib}
use chowdy.Ipc.Stream.{Run, done, throws, blocked}
use chowdy.Ipc.Frame.{read_message, max_payload}
use chowdy.Proto.Requests.{
  AnyRequest, auth, test, enroll_start, enroll_frame, enroll_finish, list, remove, parse_request,
}
use chowdy.Proto.Responses.{AnyResponse}
use chowdy.Daemon.Handlers.World.{World, IsKept}
use chowdy.Daemon.Handlers.Enroll.{enroll_authorised, handle_start, handle_frame, handle_finish}
use chowdy.Daemon.Handlers.ListRemove.{handle_list, handle_remove}
use chowdy.Daemon.Handlers.Test.{handle_test}
use chowdy.Daemon.Handlers.Test.Reads.{answer_test-IsKept}
use chowdy.Daemon.Server.{
  Host, dispatch, Peer, handle_connection, on_peer, on_message, on_request, reply_dispatched,
}

denied : (uid : ℕ) → uid ≢ 0 → nat_eq uid 0 ≡ false
denied uid h = ground (arith, h)

module _ (fl : FloatOps) (ms_of : ℕ → ℕ) where
  dispatch-IsKept :
      (h : Host) (uid : ℕ) (req : AnyRequest) (w : World)
      → uid ≢ 0
      → IsKept w (dispatch fl ms_of h uid req w).1
  unfolding dispatch handle_start handle_frame handle_finish handle_list handle_remove handle_test
      enroll_authorised
  dispatch-IsKept h uid (auth r) w user = (refl, refl)
  dispatch-IsKept h uid (test r) w user = answer_test-IsKept fl ms_of uid r _ _ _
  dispatch-IsKept h uid (enroll_start r) w user = rw (denied uid user) (refl, refl)
  dispatch-IsKept h uid (enroll_frame r) w user = rw (denied uid user) (refl, refl)
  dispatch-IsKept h uid (enroll_finish r) w user = rw (denied uid user) (refl, refl)
  dispatch-IsKept h uid (list r) w user = (refl, refl)
  dispatch-IsKept h uid (remove r) w user = rw (denied uid user) (refl, refl)

module _ (fl : FloatOps) (ms_of : ℕ → ℕ) (L : JsonLib) (dump : L.J → Str)
    (parse : List ℕ → Result L.J) where
  reply_dispatched-IsKept :
      (peer : Peer) (w : World) (x : Option AnyResponse × World)
      → IsKept w x.1
      → IsKept w (reply_dispatched fl ms_of L dump parse peer x).1
  unfolding reply_dispatched
  reply_dispatched-IsKept peer w (none, w') h = h
  reply_dispatched-IsKept peer w (some resp, w') h = h

  on_request-IsKept :
      (h : Host) (peer : Peer) (uid : ℕ) (w : World) (j : L.J) (r : Result AnyRequest)
      → uid ≢ 0
      → IsKept w (on_request fl ms_of L dump parse h peer uid w j r).1
  unfolding on_request
  on_request-IsKept h peer uid w j (err what) user = (refl, refl)
  on_request-IsKept h peer uid w j (ok req) user =
      reply_dispatched-IsKept peer w (dispatch fl ms_of h uid req w)
        (dispatch-IsKept fl ms_of h uid req w user)

  on_message-IsKept :
      (h : Host) (peer : Peer) (uid : ℕ) (w : World) (m : Run L.J)
      → uid ≢ 0
      → IsKept w (on_message fl ms_of L dump parse h peer uid w m).1
  unfolding on_message
  on_message-IsKept h peer uid w (throws what) user = (refl, refl)
  on_message-IsKept h peer uid w blocked user = (refl, refl)
  on_message-IsKept h peer uid w (done j rest s) user =
      on_request-IsKept h peer uid w j (parse_request L j) user

  -- A connection whose peer is not root, whatever bytes it sends and however the host answers, leaves
  -- every file and every enrollment session as it was.
  pub handle_connection-IsKept :
      (h : Host) (peer : Peer) (uid : ℕ) (w : World)
      → peer.cred ≡ ok uid
      → uid ≢ 0
      → IsKept w (handle_connection fl ms_of L dump parse h peer w).1
  unfolding handle_connection on_peer
  handle_connection-IsKept h peer uid w known user =
      rw known (
        on_message-IsKept h peer uid w (read_message parse max_payload peer.reads peer.stream) user)
