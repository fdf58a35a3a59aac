-- ===== src/Pam/Scan.antt =====
-- pam/pam_chowdy.c: the search in the daemon's answer, `json_bool` and `json_string`.
pub mod Laws
use chowdy.Base.{
  ℕ, zero, suc, ◌+◌, ◌-◌, Bool, true, false, ◌&&◌, ◌||◌, List, [], ◌∷◌, ◌++◌, Option, none, some,
  Str, codes, ℤ, pos, negsuc, take, drop, nat_eq, is_empty, ◌==◌, ℕ-Eq, if◌then◌else◌,
}
use chowdy.Pam.Prefix.{strip_prefix}

-- What a C string read from these bytes holds: they end before the first zero, or before the zero
-- that the caller has put behind them.
unfoldable pub c_string : List ℕ → Str
c_string [] = []
c_string (b ∷ bytes) = let rest = c_string bytes in if nat_eq b 0 then [] else b ∷ rest

-- `snprintf(needle, sizeof(needle), "\"%s\"", key)`, with room for 63 bytes and the zero.
unfoldable pub needle : Str → Str
needle key = take 63 (codes "\"" ++ key ++ codes "\"")

abbrev pub or_else : Option Str → Option Str → Option Str
or_else none later = later
or_else (some s) later = some s

-- `strstr`, and the step over what it has found.
unfoldable pub after_first : Str → Str → Option Str
after_first what [] = strip_prefix what []
after_first what (c ∷ s) = or_else (strip_prefix what (c ∷ s)) (after_first what s)

abbrev pub is_separator : ℕ → Bool
is_separator c = c == b' ' || (c == b':' || c == b'\t')

unfoldable pub skip_separators : Str → Str
skip_separators [] = []
skip_separators (c ∷ s) = let rest = skip_separators s in if is_separator c then rest else c ∷ s

abbrev is_some : Option Str → Bool
is_some none = false
is_some (some s) = true

abbrev pub starts_with : Str → Str → Bool
starts_with prefix s = is_some (strip_prefix prefix s)

-- 1 for true, 0 for false and -1 for neither.
unfoldable pub bool_value : Str → ℤ
bool_value s =
    if starts_with (codes "true") s
    then pos 1
    else if starts_with (codes "false") s
    then pos 0
    else negsuc 0

found_bool : Option Str → ℤ
unfolding bool_value skip_separators
found_bool none = negsuc 0
found_bool (some s) = bool_value (skip_separators s)

unfoldable pub json_bool : Str → Str → ℤ
unfolding found_bool after_first needle
json_bool json key = found_bool (after_first (needle key) json)

-- `if (*p == '\\' && p[1]) ++p`
unfoldable pub skip_escape : Str → Str
skip_escape [] = []
skip_escape (c ∷ []) = c ∷ []
skip_escape (c ∷ d ∷ s) = if c == b'\\' then d ∷ s else c ∷ d ∷ s

at_end : Str → Bool
at_end [] = true
at_end (c ∷ s) = c == b'"'

-- The copying loop; `room` is `out_len - 1 - i`.
unfoldable pub copy_string : ℕ → Str → Str
unfolding skip_escape at_end
copy_string zero s = []
copy_string (suc room) s =
    let rest = copy_string room (drop 1 (skip_escape s)) in
    if at_end s then [] else take 1 (skip_escape s) ++ rest

quoted_string : ℕ → Str → Str
unfolding copy_string
quoted_string out_len [] = []
quoted_string out_len (c ∷ s) = if c == b'"' then copy_string (out_len - 1) s else []

found_string : ℕ → Option Str → Str
unfolding quoted_string skip_separators
found_string out_len none = []
found_string out_len (some s) = quoted_string out_len (skip_separators s)

-- What `out` holds afterwards, if it was empty before; nothing is written into no room.
unfoldable pub json_string : Str → Str → ℕ → Str
unfolding found_string after_first needle
json_string json key zero = []
json_string json key (suc n) = found_string (suc n) (after_first (needle key) json)
