-- ===== src/Pam/Scan/Laws.antt =====
-- pam/pam_chowdy.c: what the search finds, and what it copies.
use chowdy.Base.{
  ℕ, ℤ, negsuc, ◌⊎◌, false, zero, suc, ◌≤◌, ◌<◌, ◌≡◌, refl, ap, ◌∙◌, arith, inl, inr, true, [], ◌∷◌,
  ◌++◌, Option, none, some, Str, codes, pos, take, drop, length, All, Bool-cases, Option-cases,
  length-append, ℕ-Eq,
}
use chowdy.Pam.Prefix.{strip_prefix, strip_prefix-append, strip_prefix_self}
use chowdy.Pam.Scan.{
  needle, after_first, is_separator, skip_separators, starts_with, bool_value, found_bool,
  json_bool, copy_string, skip_escape, at_end, quoted_string, found_string, json_string,
}

-- No occurrence of `what` in the text begins within `before`.
abbrev pub IsUnseen : Str → Str → Str → Type 0
IsUnseen what [] after = Unit
IsUnseen what (c ∷ before) after =
    (strip_prefix what (c ∷ before ++ after) ≡ none) × IsUnseen what before after

after_first-here : (what s v : Str) → strip_prefix what s ≡ some v → after_first what s ≡ some v
unfolding after_first
after_first-here what [] v h = h
after_first-here what (c ∷ s) v h = rw h refl

after_first-unseen :
    (what before after : Str)
    → IsUnseen what before (what ++ after)
    → after_first what (before ++ (what ++ after)) ≡ some after
unfolding after_first
after_first-unseen what [] after h =
    after_first-here what (what ++ after) after (strip_prefix_self what after)
after_first-unseen what (c ∷ before) after h = rw (h.0) (after_first-unseen what before after h.1)

-- Where the search stops stands the text.
pub after_first-append :
    (what s v : Str) → after_first what s ≡ some v → (before : Str) × (s ≡ before ++ what ++ v)
unfolding after_first
after_first-append what [] v h = ([], strip_prefix-append what [] v h)
after_first-append what (c ∷ s) v h = elim (Option-cases (strip_prefix what (c ∷ s))) [
  | inl absent ↦
      let (before, e) = after_first-append what s v (rw absent at h) in (c ∷ before, ap (◌∷◌ c) e)
  | inr (w, found) ↦ ([], strip_prefix-append what (c ∷ s) v (found ∙ (rw found at h)))
]

pub skip_separators-append :
    (s : Str) → (gap : Str) × (s ≡ gap ++ skip_separators s) × All (λ c. is_separator c ≡ true) gap
unfolding skip_separators
skip_separators-append [] = ([], refl, tt)
skip_separators-append (c ∷ s) = elim (Bool-cases (is_separator c)) [
  | inl sep ↦
      let (gap, e, all) = skip_separators-append s in (c ∷ gap, rw sep (ap (◌∷◌ c) e), (sep, all))
  | inr other ↦ ([], rw other refl, tt)
]

starts_with-append : (p s : Str) → starts_with p s ≡ true → (rest : Str) × (s ≡ p ++ rest)
starts_with-append p s h = elim (Option-cases (strip_prefix p s)) [
  | inl absent ↦ absurd (cc (rw absent at h))
  | inr (rest, found) ↦ (rest, strip_prefix-append p s rest found)
]

bool_value-true : (s : Str) → bool_value s ≡ pos 1 → starts_with (codes "true") s ≡ true
unfolding bool_value
bool_value-true s h = ground arith

-- An answer that counts as `true` under a key holds the quoted key and, after nothing but spaces,
-- tabs and colons, the word `true`.
pub json_bool-true :
    (json key : Str)
    → json_bool json key ≡ pos 1
    → (before : Str) × (gap : Str) × (after : Str) × (json
        ≡ before ++ needle key ++ (gap ++ (codes "true" ++ after)))
      × All (λ c. is_separator c ≡ true) gap
unfolding json_bool found_bool
json_bool-true json key h = elim (Option-cases (after_first (needle key) json)) [
  | inl absent ↦ absurd (cc (rw absent at h))
  | inr (s, found) ↦
      let (before, e) = after_first-append (needle key) json s found in
      let (gap, f, separators) = skip_separators-append s in
      let (after, g) =
        starts_with-append (codes "true") (skip_separators s)
          (bool_value-true (skip_separators s) (rw found at h)) in
      (
        before,
        gap,
        after,
        e ∙ ap (λ t. before ++ needle key ++ t) (f ∙ ap (λ t. gap ++ t) g),
        separators,
      )
]

-- A space, a colon or a tab.
abbrev pub IsGap : ℕ → Type 0
IsGap c = (c ≡ b' ') ⊎ (c ≡ b':') ⊎ (c ≡ b'\t')

abbrev pub StandsApart : Str → Type 0
StandsApart [] = Unit
StandsApart (c ∷ s) = ¬ IsGap c

-- The text begins with `true` and the value is 1, or with `false` and it is 0, or with neither of them
-- and it is -1.
abbrev pub Reads : Str → ℤ → Type 0
Reads rest z =
    ((after : Str) × (rest ≡ codes "true" ++ after) × (z ≡ pos 1))
    ⊎ ((after : Str) × (rest ≡ codes "false" ++ after) × (z ≡ pos 0))
    ⊎ (((after : Str) → ¬ (rest ≡ codes "true" ++ after))
        × ((after : Str) → ¬ (rest ≡ codes "false" ++ after))
        × (z ≡ negsuc 0))

IsGap-is_separator : (c : ℕ) → IsGap c → is_separator c ≡ true
IsGap-is_separator c h = ground (arith, h)

apart-is_separator : (c : ℕ) → ¬ IsGap c → is_separator c ≡ false
apart-is_separator c h = ground (arith, h)

skip_separators-gap :
    (gap rest : Str) → All IsGap gap → StandsApart rest → skip_separators (gap ++ rest) ≡ rest
unfolding skip_separators
skip_separators-gap [] [] h apart = refl
skip_separators-gap [] (c ∷ rest) h apart = rw (apart-is_separator c apart) refl
skip_separators-gap (c ∷ gap) rest h apart =
    rw (IsGap-is_separator c h.0) (skip_separators-gap gap rest h.1 apart)

strip_prefix-none : (p s : Str) → strip_prefix p s ≡ none → (after : Str) → ¬ (s ≡ p ++ after)
strip_prefix-none p s absent after e = cc (strip_prefix_self p after, rw e at absent)

bool_value-Reads : (s : Str) → Reads s (bool_value s)
unfolding bool_value
bool_value-Reads s = elim (Option-cases (strip_prefix (codes "true") s)) [
  | inr (after, found) ↦
      inl (after, strip_prefix-append (codes "true") s after found, rw found refl)
  | inl untrue ↦ elim (Option-cases (strip_prefix (codes "false") s)) [
    | inr (after, found) ↦
        inr
          (inl (after, strip_prefix-append (codes "false") s after found, rw (untrue, found) refl))
    | inl unfalse ↦ inr (
        inr (
          strip_prefix-none (codes "true") s untrue,
          strip_prefix-none (codes "false") s unfalse,
          rw (untrue, unfalse) refl,
        ))
  ]
]

-- The first occurrence of the quoted key decides, whatever follows it: behind it and any spaces, tabs
-- and colons the text begins with `true` and the value is 1, or with `false` and the value is 0, or
-- with neither of them and the value is -1.
pub json_bool-first :
    (before key gap rest : Str)
    → IsUnseen (needle key) before (needle key ++ (gap ++ rest))
    → All IsGap gap
    → StandsApart rest
    → Reads rest (json_bool (before ++ (needle key ++ (gap ++ rest))) key)
unfolding json_bool found_bool
json_bool-first before key gap rest unseen separators apart =
    rw (after_first-unseen (needle key) before (gap ++ rest) unseen)
      (rw (skip_separators-gap gap rest separators apart) (bool_value-Reads rest))

-- The first occurrence of the quoted key in the text is followed, behind any spaces, tabs and colons,
-- by `true`.
pub record SaysTrue (text key : Str) : Type 0 where
  pub before : Str
  pub gap : Str
  pub after : Str
  pub shape : text ≡ before ++ (needle key ++ (gap ++ (codes "true" ++ after)))
  pub first : IsUnseen (needle key) before (needle key ++ (gap ++ (codes "true" ++ after)))
  pub separators : All IsGap gap

abbrev first_char : Str → ℕ
first_char [] = 0
first_char (c ∷ s) = c

Reads-true : (after : Str) (z : ℤ) → Reads (codes "true" ++ after) z → z ≡ pos 1
Reads-true after z (inl (a, e, one)) = one
Reads-true after z (inr (inl (a, e, zero_))) = absurd (omega (arith, ap first_char e))
Reads-true after z (inr (inr (untrue, unfalse, none_))) = absurd (untrue after refl)

pub SaysTrue-json_bool : (text key : Str) → SaysTrue text key → json_bool text key ≡ pos 1
SaysTrue-json_bool text key says =
    let rest = codes "true" ++ says.after in
    rw says.shape (
      Reads-true says.after _ (
        json_bool-first says.before key says.gap rest says.first says.separators
          (λ gap. ground (arith, gap))))

length-take_one : (s : Str) → length (take 1 s) ≤ 1
length-take_one [] = omega arith
length-take_one (c ∷ s) = omega arith

-- The copying loop writes no more than there is room for.
copy_string-le : (room : ℕ) (s : Str) → length (copy_string room s) ≤ room
unfolding copy_string
copy_string-le zero s = omega arith
copy_string-le (suc room) s = elim (Bool-cases (at_end s)) [
  | inl ends ↦ rw ends (omega arith)
  | inr more ↦
      let head = take 1 (skip_escape s) in
      let rest = copy_string room (drop 1 (skip_escape s)) in
      rw more (
        omega (
          arith,
          length-append head rest,
          length-take_one (skip_escape s),
          copy_string-le room (drop 1 (skip_escape s)),
        ))
]

quoted_string-lt : (n : ℕ) (s : Str) → length (quoted_string (suc n) s) < suc n
unfolding quoted_string
quoted_string-lt n [] = omega arith
quoted_string-lt n (c ∷ s) = ground (arith, copy_string-le n s)

found_string-lt : (n : ℕ) (o : Option Str) → length (found_string (suc n) o) < suc n
unfolding found_string
found_string-lt n none = omega arith
found_string-lt n (some s) = quoted_string-lt n (skip_separators s)

-- The text that is copied out leaves room for its terminating zero, whatever the answer holds.
json_string-lt :
    (json key : Str) (out_len : ℕ) → 0 < out_len → length (json_string json key out_len) < out_len
unfolding json_string
json_string-lt json key zero h = absurd (omega arith)
json_string-lt json key (suc n) h = found_string-lt n (after_first (needle key) json)
