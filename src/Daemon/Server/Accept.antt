-- ===== src/Daemon/Server/Accept.antt =====
-- daemon/server.cpp: the threads that accept connections, and how they are stopped.
pub mod Prewarm
use chowdy.Base.{ℕ, zero, suc, ◌+◌, Bool, true, false, ◌&&◌, not, List, [], ◌∷◌, if◌then◌else◌}
use chowdy.Daemon.Pipeline.{Pipeline, prewarm_async}

pub data SockKind : Type 0 where
  auth_sock : SockKind
  mgmt_sock : SockKind

-- `poll`: an error, or the events of the two descriptors.
pub data Polled : Type 0 where
  interrupted : Polled
  poll_failed : Polled
  -- whether the listening socket is readable
  polled : Bool → Polled

pub data Accepted : Type 0 where
  no_connection : Accepted
  connection : Accepted

-- What one round of the loop meets: `stopping_` at its two readings, `poll` and `accept4`.
pub record Round : Type 0 where
  pub stopping : Bool
  pub poll : Polled
  pub stopping_after_poll : Bool
  pub accept : Accepted

-- The loop's state: the pipeline, the connections handed to a thread, and whether it is over.
pub record Loop : Type 0 where
  pub pipeline : Pipeline
  pub handed : ℕ
  pub is_over : Bool

-- A connection is accepted: the camera is warmed up on the auth socket only.
unfoldable pub hand_over : SockKind → Loop → Loop
unfolding prewarm_async
hand_over auth_sock l = record l { pipeline = prewarm_async l.pipeline; handed = suc l.handed }
hand_over mgmt_sock l = record l { handed = suc l.handed }

accept_one : SockKind → Accepted → Loop → Loop
unfolding hand_over
accept_one kind no_connection l = l
accept_one kind connection l = hand_over kind l

after_poll : SockKind → Round → Polled → Loop → Loop
unfolding accept_one
after_poll kind r interrupted l = l
after_poll kind r poll_failed l = record l { is_over = true }
after_poll kind r (polled readable) l =
    if r.stopping_after_poll
    then record l { is_over = true }
    else if not readable
    then l
    else accept_one kind r.accept l

round : SockKind → Round → Loop → Loop
unfolding after_poll
round kind r l = if r.stopping then record l { is_over = true } else after_poll kind r r.poll l

unfoldable pub accept_loop : SockKind → List Round → Loop → Loop
unfolding round
accept_loop kind [] l = l
accept_loop kind (r ∷ rounds) l = if l.is_over then l else accept_loop kind rounds (round kind r l)
