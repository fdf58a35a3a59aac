-- ===== src/Daemon/Sessions/Laws.antt =====
-- What the session manager promises.
use chowdy.Base.{
  ℕ, ◌+◌, ◌-◌, ◌≤◌, ◌<◌, ◌^◌, ◌≡◌, ◌≢◌, refl, sym, ◌∙◌, List, [], ◌∷◌, arith, All, All-keep_if, Str,
  str_eq_iff, str_eq_refl, not, Bool-cases, Option-cases, inl, inr, ◌⊎◌, none, some, ℤ, keep_if,
  Str-Eq, if◌then◌else◌, ◌==◌,
}
use chowdy.Base.Dict.{lookup, insert, emplace, erase, lookup-insert, lookup-erase, lookup-emplace}
use chowdy.Daemon.Sessions.{
  EnrollSession, SessionManager, session_ttl, session_id, is_expired, reap_expired, next_counter,
  new_session, create, touch, get, drop_session,
}
use chowdy.Daemon.Sessions.Ids.{session_id-injective}

-- Every id was made by `create` from a counter that was used up.
abbrev WasIssued : ℕ → Str × EnrollSession → Type 0
WasIssued counter (id, s) = (u : ℕ) × (c : ℕ) × (id ≡ session_id u c) × (c ≤ counter)

abbrev pub IsValid : SessionManager → Type 0
IsValid m = All (WasIssued m.counter) m.sessions

All-insert :
    (n : ℕ) (id : Str) (s : EnrollSession) (m : List (Str × EnrollSession))
    → lookup id m ≢ none
    → All (WasIssued n) m
    → All (WasIssued n) (insert id s m)
unfolding insert lookup
All-insert n id s [] there h = absurd (there refl)
All-insert n id s ((j, w) ∷ m) there h = elim (Bool-cases (j == id)) [
  | inl same ↦ rw same h
  | inr other ↦ rw other (h.0, All-insert n id s m (λ e. there (rw other e)) h.1)
]

pub All-erase :
    (n : ℕ) (id : Str) (m : List (Str × EnrollSession))
    → All (WasIssued n) m
    → All (WasIssued n) (erase id m)
unfolding erase
All-erase n id [] h = tt
All-erase n id ((j, w) ∷ m) h = elim (Bool-cases (j == id)) [
  | inl same ↦ rw same (All-erase n id m h.1)
  | inr other ↦ rw other (h.0, All-erase n id m h.1)
]

-- No session has the id of a counter that is still to come.
pub fresh_id :
    (n u c : ℕ) (m : List (Str × EnrollSession))
    → All (WasIssued n) m
    → n < c
    → lookup (session_id u c) m ≡ none
unfolding lookup
fresh_id n u c [] h l = refl
fresh_id n u c ((j, w) ∷ m) h l = elim (Bool-cases (j == session_id u c)) [
  | inl same ↦ absurd (
      omega (
        arith,
        session_id-injective h.0.0 u h.0.1 c (sym h.0.2 ∙ (str_eq_iff j (session_id u c)).0 same),
        h.0.3,
      ))
  | inr other ↦ rw other (fresh_id n u c m h.1 l)
]

reap_expired-IsValid : (now : ℕ) (m : SessionManager) → IsValid m → IsValid (reap_expired now m)
unfolding reap_expired
reap_expired-IsValid now m v = All-keep_if (WasIssued m.counter) _ m.sessions v

lookup-reap :
    (now : ℕ) (id : Str) (m : List (Str × EnrollSession)) {s : EnrollSession}
    → lookup id (keep_if (λ (id, s). not (is_expired now s)) m) ≡ some s
    → now - s.last_touch ≤ session_ttl
unfolding lookup keep_if
lookup-reap now id [] e = cc
lookup-reap now id ((j, w) ∷ m) {s} e = elim (Bool-cases (is_expired now w)) [
  | inl old ↦ lookup-reap now id m {s = s} (rw (old, keep_if) at e)
  | inr live ↦ elim (Bool-cases (j == id)) [
    | inl same ↦ ground (arith, live, same, e)
    | inr other ↦ lookup-reap now id m {s = s} (rw other at (rw (live, keep_if) at e))
  ]
]

-- `create` hands out an id that no session has, expired ones included, and adds nothing but the
-- session asked for: every other id gives what it gave before, less what has expired. This needs
-- the 64-bit counter not to have run round.
pub create-fresh :
    (now uid : ℕ) (label : Str) (min_frames max_frames : ℤ) (m : SessionManager) (other : Str)
    → IsValid m
    → m.counter + 1 < 2 ^ 64
    → let (id, m') = create now uid label min_frames max_frames m in
      (lookup id m.sessions ≡ none)
      × (lookup other m'.sessions ≡ (
          if id == other
          then some (new_session now uid label min_frames max_frames)
          else lookup other (reap_expired now m).sessions))
unfolding create
create-fresh now uid label min_frames max_frames m other v l =
    let larger : m.counter < next_counter m.counter = omega arith in
    (
      fresh_id m.counter uid (next_counter m.counter) m.sessions v larger,
      lookup-emplace (session_id uid (next_counter m.counter)) other
          (new_session now uid label min_frames max_frames) (reap_expired now m).sessions
          (fresh_id m.counter uid (next_counter m.counter) (reap_expired now m).sessions
            (reap_expired-IsValid now m v) larger),
    )

All-WasIssued_mono :
    (n n' : ℕ) (m : List (Str × EnrollSession))
    → n ≤ n'
    → All (WasIssued n) m
    → All (WasIssued n') m
All-WasIssued_mono n n' [] l h = tt
All-WasIssued_mono n n' ((j, w) ∷ m) l h =
    ((h.0.0, h.0.1, h.0.2, omega arith), All-WasIssued_mono n n' m l h.1)

All-emplace :
    (n : ℕ) (id : Str) (s : EnrollSession) (m : List (Str × EnrollSession))
    → WasIssued n (id, s)
    → All (WasIssued n) m
    → All (WasIssued n) (emplace id s m)
unfolding emplace
All-emplace n id s [] issued h = (issued, tt)
All-emplace n id s ((j, w) ∷ m) issued h = elim (Bool-cases (j == id)) [
  | inl same ↦ rw same h
  | inr other ↦ rw other (h.0, All-emplace n id s m issued h.1)
]

pub create-IsValid :
    (now uid : ℕ) (label : Str) (min_frames max_frames : ℤ) (m : SessionManager)
    → IsValid m
    → m.counter + 1 < 2 ^ 64
    → IsValid (create now uid label min_frames max_frames m).1
unfolding create
create-IsValid now uid label min_frames max_frames m v l =
    let counter = next_counter m.counter in
    All-emplace counter (session_id uid counter) _ _ (uid, counter, refl, omega arith)
      (All-WasIssued_mono m.counter counter (reap_expired now m).sessions (omega arith)
        (reap_expired-IsValid now m v))

-- What `get` returns: a session of that id that has not expired, with the time of this access, and
-- stored so; or nothing, and then there is no such session.
pub get_cases :
    (now : ℕ) (id : Str) (m : SessionManager)
    → let (found, m') = get now id m in
      ((found ≡ none) × (lookup id m'.sessions ≡ none))
      ⊎ ((s : EnrollSession) × (lookup id (reap_expired now m).sessions ≡ some s)
          × (now - s.last_touch ≤ session_ttl)
          × (found ≡ some (record s { last_touch = now }))
          × (lookup id m'.sessions ≡ some (record s { last_touch = now })))
unfolding get touch
get_cases now id m = elim (Option-cases (lookup id (reap_expired now m).sessions)) [
  | inl missing ↦ rw missing (inl (refl, missing))
  | inr (s, there) ↦ rw there (
      inr (
        s,
        refl,
        unfold reap_expired in lookup-reap now id m.sessions there,
        refl,
        lookup-insert id id (record s { last_touch = now }) (reap_expired now m).sessions
            ∙ rw (str_eq_refl id),
      ))
]

pub get-IsValid : (now : ℕ) (id : Str) (m : SessionManager) → IsValid m → IsValid (get now id m).1
unfolding get touch
get-IsValid now id m v = elim (Option-cases (lookup id (reap_expired now m).sessions)) [
  | inl missing ↦ rw missing (reap_expired-IsValid now m v)
  | inr (s, there) ↦ rw there (
      All-insert m.counter id _ (reap_expired now m).sessions (λ e. cc (there, e))
        (reap_expired-IsValid now m v))
]

-- A dropped session is gone, and the others stay.
pub lookup-drop_session :
    (id other : Str) (m : SessionManager)
    → lookup other (drop_session id m).sessions
      ≡ (if id == other then none else lookup other m.sessions)
unfolding drop_session
lookup-drop_session id other m = lookup-erase id other m.sessions
