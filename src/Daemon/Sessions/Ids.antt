-- ===== src/Daemon/Sessions/Ids.antt =====
-- The ids of sessions and their counters.
use chowdy.Base.{ℕ, ◌≡◌, refl, ap, sym, ◌∙◌, [], ◌∷◌, ◌++◌, arith, All, Str, nat_eq, if◌then◌else◌}
use chowdy.Base.Decimal.{decimal, IsDigit, decimal-IsDigit, decimal-injective}
use chowdy.Daemon.Sessions.{session_id}

-- What stands behind the first '-'.
after_dash : Str → Str
after_dash [] = []
after_dash (c ∷ s) = let rest = after_dash s in if nat_eq c b'-' then s else rest

after_dash-append : (s t : Str) → All IsDigit s → after_dash (s ++ (b'-' ∷ t)) ≡ t
unfolding after_dash
after_dash-append [] t h = refl
after_dash-append (c ∷ s) t h = ground (arith, after_dash-append s t h.1)

-- Sessions with different counters have different ids, whoever they are for.
pub session_id-injective : (u u' c c' : ℕ) → session_id u c ≡ session_id u' c' → c ≡ c'
unfolding session_id
session_id-injective u u' c c' e = decimal-injective c c' (
    sym (after_dash-append (decimal u) (decimal c) (decimal-IsDigit u))
    ∙ ap after_dash e
    ∙ after_dash-append (decimal u') (decimal c') (decimal-IsDigit u'))
