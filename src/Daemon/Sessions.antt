-- ===== src/Daemon/Sessions.antt =====
-- daemon/enroll_session.hpp and daemon/enroll_session.cpp: the enrollment sessions in memory. The
-- steady clock is an argument, in nanoseconds; a pointer that `get` returns is read and written
-- through `lookup` and `put_session`.
pub mod Ids
pub mod Laws
pub mod Issued
use chowdy.Base.{
  ℕ, ◌+◌, ◌-◌, ◌*◌, ◌%◌, ◌^◌, Bool, not, List, [], ◌∷◌, ◌++◌, Option, none, some, Str, ℤ, pos, ltb,
  keep_if, Str-Eq,
}
use chowdy.Base.Decimal.{decimal}
use chowdy.Base.Dict.{lookup, insert, emplace, erase}
use chowdy.Encoding.Embedding.{Embedding}

pub record EnrollSession : Type 0 where
  pub uid : ℕ
  pub label : Str
  pub min_frames : ℤ
  pub max_frames : ℤ
  pub embeddings : List Embedding
  pub attempts : ℕ
  pub last_touch : ℕ

pub record SessionManager : Type 0 where
  pub sessions : List (Str × EnrollSession)
  pub counter : ℕ

-- `kSessionTtl`, five minutes.
abbrev pub session_ttl : ℕ
session_ttl = 300 * 1000000000

-- `snprintf(id, sizeof(id), "%u-%llu", uid, counter)`; at most 31 characters, so none is cut off.
unfoldable pub session_id : ℕ → ℕ → Str
session_id uid counter = decimal uid ++ (b'-' ∷ decimal counter)

abbrev pub is_expired : ℕ → EnrollSession → Bool
is_expired now s = ltb session_ttl (now - s.last_touch)

unfoldable pub reap_expired : ℕ → SessionManager → SessionManager
reap_expired now m = record m { sessions = keep_if (λ (id, s). not (is_expired now s)) m.sessions }

-- `++counter_` on a uint64_t.
abbrev pub next_counter : ℕ → ℕ
next_counter c = (c + 1) % 2 ^ 64

abbrev pub new_session : ℕ → ℕ → Str → ℤ → ℤ → EnrollSession
new_session now uid label min_frames max_frames = record {
  uid = uid;
  label = label;
  min_frames = min_frames;
  max_frames = max_frames;
  embeddings = [];
  attempts = 0;
  last_touch = now;
}

-- `reserve` finds the room for the limit; where it throws, the counter is used up and no session made.
unfoldable pub create : ℕ → ℕ → Str → ℤ → ℤ → SessionManager → Str × SessionManager
unfolding reap_expired
create now uid label min_frames max_frames m =
    let m' = reap_expired now m in
    let counter = next_counter m'.counter in
    let id = session_id uid counter in
    (
      id,
      record {
        sessions = emplace id (new_session now uid label min_frames max_frames) m'.sessions;
        counter = counter;
      },
    )

-- The session touched and put back.
touch : ℕ → Str → SessionManager → Option EnrollSession → Option EnrollSession × SessionManager
touch now id m none = (none, m)
touch now id m (some s) =
    let s' = record s { last_touch = now } in
    (some s', record m { sessions = insert id s' m.sessions })

unfoldable pub get : ℕ → Str → SessionManager → Option EnrollSession × SessionManager
unfolding reap_expired touch
get now id m = let m' = reap_expired now m in touch now id m' (lookup id m'.sessions)

-- A write through the pointer that `get` returned.
unfoldable pub put_session : Str → EnrollSession → SessionManager → SessionManager
put_session id s m = record m { sessions = insert id s m.sessions }

unfoldable pub drop_session : Str → SessionManager → SessionManager
drop_session id m = record m { sessions = erase id m.sessions }

unfoldable pub no_sessions : SessionManager
no_sessions = record { sessions = []; counter = 0 }
