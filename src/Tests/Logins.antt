-- ===== src/Tests/Logins.antt =====
-- Runs of the PAM module's theorems at concrete inputs.
use chowdy.Base.{
  ℕ, zero, suc, ◌≡◌, refl, arith, Bool, true, false, List, [], ◌∷◌, ◌++◌, Option, none, some, Str,
  codes, Result, ok, ℤ, pos, negsuc, length, Any, inl, inr, ◌⊎◌, replicate,
}
use chowdy.Ipc.Stream.{Answer, moves, interrupted}
use chowdy.Ipc.Stream.Laws.{IsHealthy}
use chowdy.Ipc.Frame.{be_bytes}
use chowdy.Ipc.Socket.{fill_timeval}
use chowdy.Pam.Options.{parse_options}
use chowdy.Pam.Options.Presence.{SwitchesOff, parse_options-require_enter}
use chowdy.Pam.Prefix.{strip_prefix}
use chowdy.Pam.Scan.{c_string, json_bool, needle}
use chowdy.Pam.Scan.Laws.{Reads, SaysTrue, json_bool-first}
use chowdy.Pam.Connect.{Kernel, connect_socket, in_progress}
use chowdy.Pam.Login.{Outside, Stack, prompts_success, pam_success, pam_sm_authenticate}
use chowdy.Pam.Login.Grant.{IsConfirmed, IsAffirmed, pam_sm_authenticate-granted}
use chowdy.Pam.Login.Delivery.{Delivers, exchange-Delivers}
use chowdy.Pam.Login.Serve.{Answers, pam_sm_authenticate-grants}

parse_options-require_enter_example : Any SwitchesOff (codes "debug" ∷ codes "confirm=off" ∷ [])
unfolding parse_options chowdy.Base.str_eq
parse_options-require_enter_example =
    parse_options-require_enter (codes "debug" ∷ codes "confirm=off" ∷ []) refl

-- The answer about a face enrolled under the label `success`.
json_bool-first_example : Reads (codes ",\"success\":true}") (
    json_bool
      (codes "{\"matched_label\":"
        ++ (needle (codes "success") ++ ([] ++ codes ",\"success\":true}")))
      (codes "success"))
unfolding strip_prefix needle
json_bool-first_example =
    json_bool-first (codes "{\"matched_label\":") (codes "success") [] (codes ",\"success\":true}")
      (
        refl,
        (
          refl,
          (
            refl,
            (
              refl,
              (
                refl,
                (
                  refl,
                  (
                    refl,
                    (
                      refl,
                      (refl, (refl, (refl, (refl, (refl, (refl, (refl, (refl, (refl, tt))))))))),
                    ),
                  ),
                ),
              ),
            ),
          ),
        ),
      )
      tt (λ gap. ground (arith, gap))

abbrev kernel : Kernel
kernel = record {
  makes_socket = true;
  connects = λ addr. in_progress;
  polls = λ ms. true;
  has_no_error = true;
  sets_receive = true;
  sets_send = true;
}

abbrev answer : Str
answer = codes "{\"reason\":\"matched\",\"success\":true}"

abbrev outside : Outside
outside = record {
  kernel = kernel;
  now_before = 1000;
  now_after = 1010;
  urandom = none;
  pid = 77;
  time = 1000;
  daemon =
      λ t. (interrupted ∷ replicate 310 (moves 99), be_bytes (length answer) ++ (answer ++ []));
}

abbrev stack : Stack
stack = record {
  user = some (codes "ann");
  uid_of = λ name. some 1000;
  conversation = prompts_success;
  outside = outside;
}

abbrev options : List Str
options = codes "timeout=3000" ∷ codes "confirm=enter" ∷ []

replicated : (n : ℕ) → IsHealthy (replicate n (moves 99))
replicated zero = tt
replicated (suc n) = replicated n

answers : Answers outside (parse_options options) answer
unfolding parse_options connect_socket chowdy.Base.str_eq
answers = record {
  timeouts = record { receive = some (fill_timeval 3000); send = some (fill_timeval 3000) };
  connects = refl;
  script = interrupted ∷ replicate 310 (moves 99);
  rest = [];
  sends = λ t. refl;
  healthy = replicated 310;
  enough = omega arith;
  not_empty = omega arith;
  bounded = omega arith;
}

affirmed : SaysTrue (c_string answer) (codes "success")
unfolding c_string needle strip_prefix
affirmed = record {
  before = codes "{\"reason\":\"matched\",";
  gap = codes ":";
  after = codes "}";
  shape = refl;
  first = (
    refl,
    (
      refl,
      (
        refl,
        (
          refl,
          (
            refl,
            (
              refl,
              (
                refl,
                (
                  refl,
                  (
                    refl,
                    (
                      refl,
                      (
                        refl,
                        (refl, (refl, (refl, (refl, (refl, (refl, (refl, (refl, (refl, tt))))))))),
                      ),
                    ),
                  ),
                ),
              ),
            ),
          ),
        ),
      ),
    ),
  );
  separators = (inr (inl refl), tt);
}

pam_sm_authenticate-grants_example : pam_sm_authenticate stack options ≡ some pam_success
unfolding c_string json_bool parse_options chowdy.Base.str_eq chowdy.Pam.Login.prompt_enter
pam_sm_authenticate-grants_example =
    pam_sm_authenticate-grants stack options (codes "ann") 1000 answer refl refl (omega arith)
      answers affirmed (inr (inl refl))

pam_sm_authenticate-granted_example :
    (name : Str) × (uid : ℕ) × (some (codes "ann") ≡ some name)
    × (some 1000 ≡ some uid)
    × IsAffirmed outside (parse_options options)
    × IsConfirmed (parse_options options) prompts_success
pam_sm_authenticate-granted_example =
    pam_sm_authenticate-granted stack options pam_sm_authenticate-grants_example

abbrev as_sent : List ℕ → Str
as_sent text = text

abbrev parsed : List ℕ → Result (List ℕ)
parsed bytes = ok bytes

abbrev many : List Answer
many = interrupted ∷ replicate 100 (moves 2)

exchange-Delivers_example : Delivers as_sent parsed many many many (1 ∷ 2 ∷ 3 ∷ []) (7 ∷ 8 ∷ [])
exchange-Delivers_example =
    exchange-Delivers as_sent parsed many many many (1 ∷ 2 ∷ 3 ∷ []) (7 ∷ 8 ∷ []) (omega arith)
      (omega arith) (omega arith) (omega arith) (replicated 100) (omega arith) (replicated 100)
      (omega arith) (replicated 100) (omega arith)
