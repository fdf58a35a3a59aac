-- ===== src/Pam/Prefix.antt =====
-- pam/pam_chowdy.c: `strncmp` with the length of a literal.
use chowdy.Base.{
  ◌≡◌, refl, arith, true, [], ◌∷◌, ◌++◌, Option, none, some, Str, Bool-cases, inl, inr, nat_eq,
  nat_eq_iff, if◌then◌else◌,
}

-- `strncmp(s, prefix, strlen(prefix)) == 0`, with what follows the prefix.
unfoldable pub strip_prefix : Str → Str → Option Str
strip_prefix [] s = some s
strip_prefix (c ∷ prefix) [] = none
strip_prefix (c ∷ prefix) (d ∷ s) = if nat_eq c d then strip_prefix prefix s else none

-- What is left follows the prefix.
pub strip_prefix-append : (p s v : Str) → strip_prefix p s ≡ some v → s ≡ p ++ v
unfolding strip_prefix
strip_prefix-append [] s v h = cc
strip_prefix-append (c ∷ p) [] v h = absurd (cc)
strip_prefix-append (c ∷ p) (d ∷ s) v h = elim (Bool-cases (nat_eq c d)) [
  | inl same ↦
      let e = (nat_eq_iff c d).0 same in
      let t = strip_prefix-append p s v (rw same at h) in rw (e, t)
  | inr other ↦ absurd (cc (rw other at h))
]

pub strip_prefix_self : (p v : Str) → strip_prefix p (p ++ v) ≡ some v
unfolding strip_prefix
strip_prefix_self [] v = refl
strip_prefix_self (c ∷ p) v =
    let same : nat_eq c c ≡ true = ground arith in rw same (strip_prefix_self p v)
