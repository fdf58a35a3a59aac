-- ===== src/Pam/Login/Delivery.antt =====
-- pam/pam_chowdy.c and common/ipc.cpp: the module and the daemon at the two ends of one socket.
use chowdy.Base.{ℕ, ◌+◌, ◌≤◌, ◌<◌, ◌≡◌, arith, List, [], Str, Result, length, append-nil}
use chowdy.Ipc.Stream.{Answer, done}
use chowdy.Ipc.Stream.Laws.{IsHealthy, move_count}
use chowdy.Ipc.Frame.{lift, read_message, write_message, max_payload}
use chowdy.Ipc.Frame.Laws.{frame, read_message-frame, write_message-frame}
use chowdy.Pam.Wire.{Conn, gives}
use chowdy.Pam.Login.{recv_buf_size, exchange}
use chowdy.Pam.Login.Exchange.{exchange-frame}

-- Both directions of one exchange: `reply` is what the daemon has written for the document `j`, and
-- the module's request is what the daemon reads.
pub record Delivers {J : Type 0} (dump : J → Str) (parse : List ℕ → Result J)
    (ps rs ws : List Answer) (payload : Str) (j : J) : Type 0 where
  pub reply : List ℕ
  pub written : (ws' : List Answer) × (write_message dump ws [] j ≡ done tt reply ws')
  pub after : Conn
  pub answered :
      exchange (record { script = ps; stream = reply; sent = [] }) payload ≡ gives (dump j, after)
  pub received :
      (rs' : List Answer) × (read_message parse max_payload rs after.sent
        ≡ lift (parse payload) [] rs')

module _ {J : Type 0} (dump : J → Str) (parse : List ℕ → Result J) where
  -- The daemon's `read_message` parses just the request that the module sends, of 1 to 255 bytes, and
  -- the module's answer is just the text that the daemon's `write_message` sends, of 1 to 8192 bytes,
  -- however the kernel splits the transfers at both ends.
  pub exchange-Delivers :
      (ps rs ws : List Answer) (payload : Str) (j : J)
      → 0 < length payload
      → length payload < 256
      → 0 < length (dump j)
      → length (dump j) ≤ recv_buf_size
      → IsHealthy ps
      → 8 + length payload + length (dump j) ≤ move_count ps
      → IsHealthy rs
      → 4 + length payload ≤ move_count rs
      → IsHealthy ws
      → 4 + length (dump j) ≤ move_count ws
      → Delivers dump parse ps rs ws payload j
  exchange-Delivers ps rs ws payload j lo hi lo2 hi2 hp mp hr mr hw mw =
      let (ws', wrote) = write_message-frame dump parse ws [] j hw (omega arith) mw in
      let (after, e, sent) = exchange-frame ps payload (dump j) [] hp lo hi lo2 hi2 mp in
      let (rs', read) =
        read_message-frame dump parse max_payload rs payload [] hr lo (omega arith) (omega arith)
          mr in
      record {
        reply = frame (dump j);
        written = (ws', wrote);
        after = after;
        answered = rw (append-nil (dump j)) at e;
        received = (rs', rw sent (rw (append-nil (frame payload)) at read));
      }
