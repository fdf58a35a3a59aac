-- ===== src/Logging.antt =====
-- common/logging.hpp and common/logging.cpp: what one log line gives, for the journal and for stderr.
use chowdy.Base.{
  ℕ, ◌+◌, ◌-◌, ◌/◌, ◌%◌, Bool, ◌&&◌, ◌||◌, List, [], ◌∷◌, ◌++◌, map, Option, none, some, Str, codes,
  ltb, leb, if◌then◌else◌,
}
use chowdy.Base.Decimal.{decimal}

pub data Level : Type 0 where
  debug : Level
  info : Level
  notice : Level
  warn : Level
  error : Level

-- The order of the enumeration.
abbrev rank : Level → ℕ
rank debug = 0
rank info = 1
rank notice = 2
rank warn = 3
rank error = 4

unfoldable pub journal_priority : Level → ℕ
journal_priority debug = 7
journal_priority info = 6
journal_priority notice = 5
journal_priority warn = 4
journal_priority error = 3

unfoldable pub level_name : Level → Str
level_name debug = codes "DEBUG"
level_name info = codes "INFO"
level_name notice = codes "NOTICE"
level_name warn = codes "WARN"
level_name error = codes "ERROR"

unfoldable pub upper : ℕ → ℕ
upper c = if leb b'a' c && leb c b'z' then c - 32 else c

journal_field : Str × Str → Str
unfolding upper
journal_field (k, v) = map upper k ++ codes "=" ++ v

unfoldable pub journal_entry : Level → Str → List (Str × Str) → List Str
unfolding journal_priority journal_field
journal_entry level msg fields =
    (codes "MESSAGE=" ++ msg)
    ∷ (codes "PRIORITY=" ++ decimal (journal_priority level))
    ∷ codes "SERVICE=chowdyd"
    ∷ map journal_field fields

stderr_fields : List (Str × Str) → Str
stderr_fields [] = codes "\n"
stderr_fields ((k, v) ∷ fields) = codes "  " ++ k ++ codes "=" ++ v ++ stderr_fields fields

-- `%03ld` of a number below 1000
abbrev three_digits : ℕ → Str
three_digits n = (48 + n / 100 % 10) ∷ (48 + n / 10 % 10) ∷ (48 + n % 10) ∷ []

-- The time is in seconds and milliseconds.
unfoldable pub stderr_line : ℕ → ℕ → Level → Str → List (Str × Str) → Str
unfolding level_name stderr_fields
stderr_line sec ms level msg fields =
    codes "["
    ++ decimal sec
    ++ codes "."
    ++ three_digits ms
    ++ codes "] "
    ++ level_name level
    ++ codes " "
    ++ msg
    ++ stderr_fields fields

pub record Logged : Type 0 where
  pub journal : Option (List Str)
  pub stderr : Option Str

-- `journal_fails` is whether the journal is not available, `is_terminal` whether stderr is one.
unfoldable pub log_line : Level → Bool → Bool → ℕ → ℕ → Level → Str → List (Str × Str) → Logged
unfolding journal_entry stderr_line
log_line min_level journal_fails is_terminal sec ms level msg fields =
    if ltb (rank level) (rank min_level) then record { journal = none; stderr = none } else record {
      journal = some (journal_entry level msg fields);
      stderr =
          if journal_fails || is_terminal then some (stderr_line sec ms level msg fields) else none;
    }
