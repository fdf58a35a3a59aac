-- ===== src/Daemon/Sessions/Issued.antt =====
-- daemon/enroll_session.cpp: the ids that are handed out over any sequence of operations.
use chowdy.Base.{
  ℕ, ◌+◌, ◌≤◌, ◌<◌, ◌^◌, ◌≡◌, ◌≢◌, refl, List, [], ◌∷◌, length, arith, Str, Option, none, some, ℤ,
  Str-Eq,
}
use chowdy.Base.Dict.{lookup}
use chowdy.Daemon.Sessions.{
  EnrollSession, SessionManager, reap_expired, next_counter, create, touch, get, drop_session,
}
use chowdy.Daemon.Sessions.Ids.{session_id-injective}
use chowdy.Daemon.Sessions.Laws.{IsValid, All-erase, fresh_id, create-IsValid, get-IsValid}

-- The operations of the manager.
pub data Op : Type 0 where
  creates : ℕ → ℕ → Str → ℤ → ℤ → Op
  gets : ℕ → Str → Op
  drops : Str → Op

pub run_op : Op → SessionManager → SessionManager
run_op (creates now uid label min_frames max_frames) m =
    (create now uid label min_frames max_frames m).1
run_op (gets now id) m = (get now id m).1
run_op (drops id) m = drop_session id m

next_counter_lem : (c : ℕ) → c + 1 < 2 ^ 64 → next_counter c ≡ c + 1
next_counter_lem c l = omega arith

touch-counter :
    (now : ℕ) (id : Str) (m : SessionManager) (o : Option EnrollSession)
    → (touch now id m o).1.counter ≡ m.counter
unfolding touch
touch-counter now id m none = refl
touch-counter now id m (some s) = refl

get-counter : (now : ℕ) (id : Str) (m : SessionManager) → (get now id m).1.counter ≡ m.counter
unfolding get reap_expired
get-counter now id m =
    touch-counter now id (reap_expired now m) (lookup id (reap_expired now m).sessions)

run_op-counter :
    (op : Op) (m : SessionManager)
    → m.counter + 1 < 2 ^ 64
    → (m.counter ≤ (run_op op m).counter) × ((run_op op m).counter ≤ m.counter + 1)
unfolding run_op create drop_session
run_op-counter (creates now uid label lo hi) m l =
    let next = next_counter_lem m.counter l in (omega (arith, next), omega (arith, next))
run_op-counter (gets now id) m l =
    let same = get-counter now id m in (omega (arith, same), omega (arith, same))
run_op-counter (drops id) m l = (omega arith, omega arith)

-- Every operation keeps the ids of the sessions ones that `create` has issued, as long as the 64-bit
-- counter does not run round.
run_op-IsValid :
    (op : Op) (m : SessionManager) → IsValid m → m.counter + 1 < 2 ^ 64 → IsValid (run_op op m)
unfolding run_op drop_session
run_op-IsValid (creates now uid label lo hi) m v l = create-IsValid now uid label lo hi m v l
run_op-IsValid (gets now id) m v l = get-IsValid now id m v
run_op-IsValid (drops id) m v l = All-erase m.counter id m.sessions v

pub run_ops : List Op → SessionManager → SessionManager
run_ops [] m = m
run_ops (op ∷ ops) m = run_ops ops (run_op op m)

run_ops-IsValid :
    (ops : List Op) (m : SessionManager)
    → IsValid m
    → m.counter + length ops < 2 ^ 64
    → IsValid (run_ops ops m)
      × (m.counter ≤ (run_ops ops m).counter)
      × ((run_ops ops m).counter ≤ m.counter + length ops)
unfolding run_ops
run_ops-IsValid [] m v l = (v, omega arith, omega arith)
run_ops-IsValid (op ∷ ops) m v l =
    let (least, most) = run_op-counter op m (omega arith) in
    let (valid, lo, hi) =
      run_ops-IsValid ops (run_op op m) (run_op-IsValid op m v (omega arith)) (omega arith) in
    (valid, omega arith, omega arith)

-- The ids that are handed out never come again: whatever sessions are created, used and dropped in
-- between, a later `create` gives another id than an earlier one, and an id that no session has. The
-- earlier one starts from a manager whose ids were all issued before; the 64-bit counter does not run
-- round.
pub create-distinct :
    (ops : List Op) (now now' uid uid' : ℕ) (label label' : Str) (lo lo' hi hi' : ℤ)
    (m : SessionManager)
    → IsValid m
    → m.counter + (length ops + 2) < 2 ^ 64
    → let (id, m') = create now uid label lo hi m in
      let later = run_ops ops m' in
      let (id', _) = create now' uid' label' lo' hi' later in
      (id ≢ id') × (lookup id' later.sessions ≡ none)
unfolding create
create-distinct ops now now' uid uid' label label' lo lo' hi hi' m v l =
    let m' = (create now uid label lo hi m).1 in
    let later = run_ops ops m' in
    let issued : m'.counter ≡ m.counter + 1 = next_counter_lem m.counter (omega arith) in
    let (valid, least, most) =
      run_ops-IsValid ops m' (create-IsValid now uid label lo hi m v (omega arith))
        (omega (arith, issued)) in
    let next : next_counter later.counter ≡ later.counter + 1 =
      next_counter_lem later.counter (omega (arith, issued)) in
    (
      λ same. omega (
        arith,
        next,
        session_id-injective uid uid' (next_counter m.counter) (next_counter later.counter) same,
      ),
      fresh_id later.counter uid' (next_counter later.counter) later.sessions valid
          (omega (arith, next)),
    )
