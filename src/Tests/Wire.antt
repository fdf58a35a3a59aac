-- ===== src/Tests/Wire.antt =====
-- Frames and requests on the wire.
use chowdy.Base.{
  none, some, ℕ, ◌+◌, ◌≡◌, refl, inr, true, List, [], ◌∷◌, ◌++◌, length, arith, Str, codes, Result,
  ok, pos,
}
use chowdy.Ipc.Stream.{Answer, done, throws, moves, interrupted, times_out, read_exact, write_exact}
use chowdy.Ipc.Stream.Laws.{Ends, read_exact-exact, write_exact-Ends}
use chowdy.Ipc.Listen.{Process, Calls, connect_unix, listen_unix}
use chowdy.Ipc.Listen.Cleanup.{IsTidy, listen_unix-IsTidy}
use chowdy.Ipc.Frame.{read_message, write_message, max_payload, be_bytes}
use chowdy.Ipc.Frame.Laws.{read_message-write_message, read_message-refused}
use chowdy.Proto.Requests.{auth, AuthRequest, parse_request, request_to_json}
use chowdy.Proto.Requests.Laws.{parse_request-request_to_json}
use chowdy.Proto.Responses.{AuthResponse, auth_result}
use chowdy.Proto.Responses.Laws.{ReadsBack, serialize_response-ReadsBack}
use chowdy.Tests.Samples.{json, json-IsLawful}

abbrev same : List ℕ → List ℕ
same bs = bs

abbrev parsed : List ℕ → Result (List ℕ)
parsed bs = ok bs

-- The transfer is split, and interrupted once.
abbrev split : List Answer
split = moves 0 ∷ interrupted ∷ moves 2 ∷ moves 9 ∷ moves 9 ∷ moves 9 ∷ moves 9 ∷ []

abbrev hello : List ℕ
hello = codes "{}"

abbrev trailing : List ℕ
trailing = codes "abc"

read_message-write_message_example :
    (sent : List ℕ) × (ws' : List Answer) × (rs' : List Answer) × (write_message same split [] hello
      ≡ done tt sent ws')
    × (read_message parsed max_payload split (sent ++ trailing) ≡ done hello trailing rs')
read_message-write_message_example =
    read_message-write_message same parsed max_payload split split trailing hello refl (omega arith)
      (omega arith) (omega arith) tt (omega arith) tt (omega arith)

read_message-refused_example :
    (what : Str) × (read_message parsed max_payload split (be_bytes 2000000 ++ trailing)
      ≡ throws what)
read_message-refused_example =
    read_message-refused same parsed max_payload 2000000 split trailing tt (omega arith)
      (omega arith) (inr (omega arith))

read_exact-exact_example :
    (codes "ab" ++ codes "c" ≡ [] ++ trailing) × (length (codes "ab") ≡ 0 + 2)
read_exact-exact_example =
    read_exact-exact (moves 0 ∷ interrupted ∷ moves 9 ∷ times_out ∷ []) trailing 2 []
      {v = codes "ab"} {rest = codes "c"} {s' = times_out ∷ []} (unfold read_exact in refl)

write_exact-Ends_example :
    Ends (write_exact split hello trailing) tt (trailing ++ hello) (length hello) split
write_exact-Ends_example = write_exact-Ends split hello trailing tt (omega arith)

abbrev login : AuthRequest
login = record { uid = 1000; timeout_ms = pos 1500; request_id = codes "r1" }

parse_request-request_to_json_example :
    parse_request json (request_to_json json (auth login)) ≡ ok (auth login)
parse_request-request_to_json_example =
    parse_request-request_to_json json json-IsLawful (auth login) (omega arith, omega arith)

abbrev welcome : AuthResponse
welcome = record {
  request_id = codes "r1";
  success = true;
  reason = codes "matched";
  matched_label = codes "desk";
  confidence = 7;
  elapsed_ms = 3;
}

serialize_response-ReadsBack_example : ReadsBack json json-IsLawful (auth_result welcome)
serialize_response-ReadsBack_example =
    serialize_response-ReadsBack json json-IsLawful (auth_result welcome) tt

-- The file of the socket cannot be given its mode.
abbrev calls : Calls
calls = record {
  socket = ok 9;
  connect = none;
  bind = none;
  chmod = some (codes "Operation not permitted");
  listen = none;
}

abbrev process : Process
process = record { open_fds = 3 ∷ 4 ∷ []; umask = 22 }

listen_unix-IsTidy_example :
    IsTidy process (connect_unix calls (codes "/run/chowdy.sock") process)
    × IsTidy process (listen_unix calls (codes "/run/chowdy.sock") process)
listen_unix-IsTidy_example =
    listen_unix-IsTidy calls (codes "/run/chowdy.sock") process (refl, (refl, tt))
