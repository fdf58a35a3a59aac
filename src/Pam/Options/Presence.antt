-- ===== src/Pam/Options/Presence.antt =====
-- pam/pam_chowdy.c: which arguments of the module's line switch the confirmation off.
use chowdy.Base.{
  ◌≡◌, refl, ap, arith, false, List, [], ◌∷◌, Option, none, some, Str, codes, ℤ, pos, negsuc,
  Bool-cases, inl, inr, ◌⊎◌, Any, sym, ◌∙◌, ◌++◌, str_eq_iff, ◌==◌, Str-Eq,
}
use chowdy.Base.Atoi.{atoi}
use chowdy.Pam.Options.{
  Opts, default_opts, set_timeout_ms, set_confirm, set_allow, try_allow, try_confirm, try_timeout,
  try_socket, parse_option, parse_from, parse_options,
}
use chowdy.Pam.Prefix.{strip_prefix, strip_prefix-append}

-- The four arguments that the module's documentation names.
abbrev pub SwitchesOff : Str → Type 0
SwitchesOff a =
    (a ≡ codes "noconfirm")
    ⊎ (a ≡ codes "confirm=none")
    ⊎ (a ≡ codes "confirm=off")
    ⊎ (a ≡ codes "confirm=no")

set_timeout_ms-require_enter :
    (o : Opts) (t : ℤ) → (set_timeout_ms o t).require_enter ≡ o.require_enter
unfolding set_timeout_ms
set_timeout_ms-require_enter o (pos n) = ground arith
set_timeout_ms-require_enter o (negsuc n) = refl

try_allow-require_enter :
    (o : Opts) (v : Option Str) → (try_allow o v).require_enter ≡ o.require_enter
unfolding try_allow set_allow
try_allow-require_enter o none = refl
try_allow-require_enter o (some []) = refl
try_allow-require_enter o (some (c ∷ v)) = refl

-- The three values of `confirm`.
set_confirm-off :
    (o : Opts) (v : Str)
    → (set_confirm o v).require_enter ≡ false
    → SwitchesOff (codes "confirm=" ++ v)
unfolding set_confirm
set_confirm-off o v h = elim (Bool-cases (v == codes "none")) [
  | inl e ↦ inr (inl (ap (λ t. codes "confirm=" ++ t) ((str_eq_iff v _).0 e)))
  | inr n1 ↦ elim (Bool-cases (v == codes "off")) [
    | inl e ↦ inr (inr (inl (ap (λ t. codes "confirm=" ++ t) ((str_eq_iff v _).0 e))))
    | inr n2 ↦ elim (Bool-cases (v == codes "no")) [
      | inl e ↦ inr (inr (inr (ap (λ t. codes "confirm=" ++ t) ((str_eq_iff v _).0 e))))
      | inr n3 ↦ absurd (cc (rw (n1, n2, n3) at h))
    ]
  ]
]

try_allow-off :
    (o : Opts) (v : Option Str) → (try_allow o v).require_enter ≡ false → o.require_enter ≡ false
try_allow-off o v h = sym (try_allow-require_enter o v) ∙ h

-- Options of the same confirmation as `o`, or an argument that switches it off.
abbrev Explains : Opts → Str → Opts → Type 0
Explains o a after = after.require_enter ≡ false → (o.require_enter ≡ false) ⊎ SwitchesOff a

try_confirm-Explains :
    (o : Opts) (a : Str) (v : Option Str)
    → ((w : Str) → v ≡ some w → a ≡ codes "confirm=" ++ w)
    → Explains o a (try_confirm o a v)
unfolding try_confirm
try_confirm-Explains o a (some v) follows h = inr (rw (follows v refl) (set_confirm-off o v h))
try_confirm-Explains o a none follows h = elim (Bool-cases (a == codes "noconfirm")) [
  | inl is ↦ inr (inl ((str_eq_iff a _).0 is))
  | inr not_is ↦ inl (try_allow-off o _ (rw not_is at h))
]

try_timeout-Explains : (o : Opts) (a : Str) (v : Option Str) → Explains o a (try_timeout o a v)
unfolding try_timeout
try_timeout-Explains o a (some v) h = inl (sym (set_timeout_ms-require_enter o (atoi v)) ∙ h)
try_timeout-Explains o a none h = elim (Bool-cases (a == codes "debug")) [
  | inl is ↦ inl (rw is at h)
  | inr not_is ↦
      try_confirm-Explains o a _ (strip_prefix-append (codes "confirm=") a) (rw not_is at h)
]

parse_option-Explains : (o : Opts) (a : Str) (v : Option Str) → Explains o a (try_socket o a v)
unfolding try_socket
parse_option-Explains o a (some v) h = inl h
parse_option-Explains o a none h = try_timeout-Explains o a (strip_prefix (codes "timeout=") a) h

parse_from-Explains :
    (o : Opts) (argv : List Str)
    → (parse_from o argv).require_enter ≡ false
    → (o.require_enter ≡ false) ⊎ Any SwitchesOff argv
unfolding parse_from parse_option
parse_from-Explains o [] h = inl h
parse_from-Explains o (a ∷ argv) h = elim (parse_from-Explains (parse_option o a) argv h) [
  | inl off ↦ elim (parse_option-Explains o a (strip_prefix (codes "socket=") a) off) [
    | inl before ↦ inl before
    | inr switches ↦ inr (inl switches)
  ]
  | inr later ↦ inr (inr later)
]

-- The confirmation is switched off only by one of the four arguments that do so by name: no other
-- argument, malformed or not, removes it.
pub parse_options-require_enter :
    (argv : List Str) → (parse_options argv).require_enter ≡ false → Any SwitchesOff argv
unfolding parse_options
parse_options-require_enter argv h = elim (parse_from-Explains default_opts argv h) [
  | inl off ↦ absurd (cc)
  | inr given ↦ given
]
