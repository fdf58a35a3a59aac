-- ===== src/Cli/Commands.antt =====
-- cli/main.cpp: the commands. The daemon's answers are a list, of which every round trip takes one; an
-- exception of the transport is an answer too. `ids` are the ids that the random generator gives.
pub mod Protocol
use chowdy.Base.{
  ℕ, zero, suc, ◌+◌, ◌%◌, ◌^◌, Bool, true, false, not, ◌&&◌, ◌||◌, List, [], ◌∷◌, ◌++◌, Option,
  none, some, Str, codes, Result, ok, err, ◌>>=◌, ℤ, pos, negsuc, is_empty, ◌==◌, Str-Eq, ℕ-Eq,
  if◌then◌else◌, ◌/◌,
}
use chowdy.Json.{JsonLib}
use chowdy.Json.Fields.{field_or}
use chowdy.Proto.Requests.{
  AnyRequest, auth, test, enroll_start, enroll_frame, enroll_finish, list, remove,
  EnrollStartRequest,
}
use chowdy.Proto.Responses.{
  EnrollProgressResponse, enroll_progress_response_from_json, enroll_done_response_from_json,
  list_response_from_json,
}
use chowdy.Cli.{
  max_ℤ, Sockets, Command, exits, runs_test, runs_auth_test, runs_list, runs_enroll, runs_remove,
}

-- `strtoul` gives a value and what it leaves of the text; the value is cut to `uid_t`.
target_of : (Str → ℕ × Str) → Option Str → ℕ
target_of strtoul none = 0
target_of strtoul (some s) = let (v, rest) = strtoul s in if is_empty rest then v % 2 ^ 32 else 0

-- `uid` is `getuid()`, `sudo_uid` the environment's SUDO_UID.
unfoldable pub target_uid : (Str → ℕ × Str) → ℕ → Option Str → ℕ
unfolding target_of
target_uid strtoul uid sudo_uid = if uid == 0 then target_of strtoul sudo_uid else uid

-- C++ division of an `int` by 2.
half : ℤ → ℤ
half (pos n) = pos (n / 2)
half (negsuc zero) = pos 0
half (negsuc (suc n)) = negsuc (n / 2)

unfoldable pub start_request : ℕ → Str → ℤ → Str → EnrollStartRequest
unfolding half
start_request uid label n id = record {
  uid = uid;
  label = label;
  min_frames = max_ℤ (pos 3) (half n);
  max_frames = n;
  request_id = id;
}

-- The requests that were sent, and the exit code unless an answer is still awaited.
pub record Outcome : Type 0 where
  pub sent : List AnyRequest
  pub code : Option ℕ

abbrev pub sends : AnyRequest → Outcome → Outcome
sends r o = record { sent = r ∷ o.sent; code = o.code }

abbrev pub ends : ℕ → Outcome
ends code = record { sent = []; code = some code }

abbrev waits : Outcome
waits = record { sent = []; code = none }

module _ (L : JsonLib) where
  open L use {J, get_str, is_object}

  -- `resp.value(k, "")`, which throws on what is no object.
  abbrev pub value_str : Str → J → Result Str
  value_str k j =
      if is_object j then field_or L get_str k [] j else err (codes "cannot use value()")

  unfoldable pub explain_if_denied : J → Result Bool
  explain_if_denied j = do
    type ← value_str (codes "type") j
    if type == codes "error"
        then (do
          reason ← value_str (codes "reason") j
          if reason == codes "peer_denied"
              then (value_str (codes "detail") j >>= λ _. ok true)
              else ok false)
        else ok false

  -- The answer has this type, and reads as `from_json` wants it; 1 is an exit code.
  unfoldable pub expect : {A : Type 0} → Str → (J → Result A) → Result J → Result A
  expect type from_json answer = do
    j ← answer
    t ← value_str (codes "type") j
    if t == type then from_json j else err (codes "unexpected answer")

  finished : {A : Type 0} → Result A → Outcome
  finished (ok a) = ends 0
  finished (err what) = ends 1

  after_finish : List (Result J) → Outcome
  unfolding expect finished
  after_finish [] = waits
  after_finish (a ∷ answers) =
      finished (expect (codes "enroll_done") (enroll_done_response_from_json L) a)

  -- The loop `while (!progress.done)`, by what the last answer was; `k` counts the round trips.
  unfoldable pub enroll_loop :
      (ℕ → Str) → Str → ℕ → Result EnrollProgressResponse → List (Result J) → Outcome
  unfolding after_finish expect
  enroll_loop ids session k (err what) answers = ends 1
  enroll_loop ids session k (ok p) [] =
      if p.done
      then sends (enroll_finish (record { session = session; request_id = ids k })) waits
      else sends (enroll_frame (record { session = session; request_id = ids k })) waits
  enroll_loop ids session k (ok p) (a ∷ answers) =
      let next =
        enroll_loop ids session (suc k)
          (expect (codes "enroll_progress") (enroll_progress_response_from_json L) a) answers in
      if p.done
      then sends (enroll_finish (record { session = session; request_id = ids k }))
          (after_finish (a ∷ answers))
      else sends (enroll_frame (record { session = session; request_id = ids k })) next

  begin_loop : (ℕ → Str) → Result EnrollProgressResponse → List (Result J) → Outcome
  unfolding enroll_loop
  begin_loop ids (err what) answers = ends 1
  begin_loop ids (ok p) answers = enroll_loop ids p.session 1 (ok p) answers

  unless_denied : Result Bool → Outcome → Outcome
  unless_denied (err what) o = ends 1
  unless_denied (ok true) o = ends 1
  unless_denied (ok false) o = o

  after_start : (ℕ → Str) → List (Result J) → Outcome
  unfolding unless_denied begin_loop explain_if_denied
  after_start ids [] = waits
  after_start ids (a ∷ answers) = unless_denied (a >>= explain_if_denied) (
      begin_loop ids (expect (codes "enroll_progress") (enroll_progress_response_from_json L) a)
        answers)

  unfoldable pub cmd_enroll : (ℕ → Str) → ℕ → Str → ℤ → List (Result J) → Outcome
  unfolding start_request after_start
  cmd_enroll ids uid label n answers =
      sends (enroll_start (start_request uid label n (ids 0))) (after_start ids answers)

  after_remove : List (Result J) → Outcome
  unfolding unless_denied explain_if_denied
  after_remove [] = waits
  after_remove (a ∷ answers) = unless_denied (a >>= explain_if_denied) (ends 0)

  unfoldable pub cmd_remove : Str → ℕ → Str → Bool → List (Result J) → Outcome
  unfolding after_remove
  cmd_remove id uid label all answers =
      sends (remove (record { uid = uid; label = if all then [] else label; request_id = id }))
        (after_remove answers)

  -- An answer of another type is printed as it is.
  listed : J → Result Str → Outcome
  listed j (err what) = ends 1
  listed j (ok type) =
      if type == codes "list_result" then finished (list_response_from_json L j) else ends 0

  after_list : List (Result J) → Outcome
  unfolding listed finished
  after_list [] = waits
  after_list (err what ∷ answers) = ends 1
  after_list (ok j ∷ answers) = listed j (value_str (codes "type") j)

  unfoldable pub cmd_list : Str → ℕ → List (Result J) → Outcome
  unfolding after_list
  cmd_list id uid answers =
      sends (list (record { uid = uid; request_id = id })) (after_list answers)

  after_print : List (Result J) → Outcome
  after_print [] = waits
  after_print (err what ∷ answers) = ends 1
  after_print (ok j ∷ answers) = ends 0

  unfoldable pub cmd_test : Str → List (Result J) → Outcome
  unfolding after_print
  cmd_test id answers =
      sends (test (record { timeout_ms = pos 3000; request_id = id })) (after_print answers)

  unfoldable pub cmd_auth_test : Str → ℕ → List (Result J) → Outcome
  unfolding after_print
  cmd_auth_test id uid answers =
      sends (auth (record { uid = uid % 2 ^ 32; timeout_ms = pos 2000; request_id = id }))
        (after_print answers)

  -- `uid` is `getuid()`, `target` the value of `target_uid()`.
  unfoldable pub run_command : (ℕ → Str) → ℕ → ℕ → Command → List (Result J) → Outcome
  unfolding cmd_test cmd_auth_test cmd_list cmd_enroll cmd_remove
  run_command ids uid target (exits code) answers = ends code
  run_command ids uid target (runs_test s) answers = cmd_test (ids 0) answers
  run_command ids uid target (runs_auth_test s) answers = cmd_auth_test (ids 0) uid answers
  run_command ids uid target (runs_list s) answers = cmd_list (ids 0) target answers
  run_command ids uid target (runs_enroll s label n) answers = cmd_enroll ids target label n answers
  run_command ids uid target (runs_remove s label all) answers =
      cmd_remove (ids 0) target label all answers
