-- ===== src/Daemon/Models/Nms/Separated.antt =====
-- daemon/models.cpp: how the boxes that `nms` keeps lie to one another and to those that it drops.
use chowdy.Base.{
  ℕ, ◌≡◌, refl, arith, Bool, true, false, ◌||◌, List, [], ◌∷◌, All, Any, inl, inr, ◌⊎◌, Bool-cases,
}
use chowdy.Floats.{FloatOps}
use chowdy.Daemon.Models.Nms.{Rect, Detection, overlaps, nms}
use chowdy.Daemon.Models.Nms.Greedy.{is_covered, greedy, nms-greedy}

All-map :
    {A : Type 0} (P Q : A → Type 0) → ((a : A) → P a → Q a) → (xs : List A) → All P xs → All Q xs
All-map P Q f [] h = tt
All-map P Q f (x ∷ xs) h = (f x h.0, All-map P Q f xs h.1)

or_false : (a b : Bool) → (a || b) ≡ false → (a ≡ false) × (b ≡ false)
or_false a b h = ground arith

or_true : (a b : Bool) → (a || b) ≡ true → (a ≡ true) ⊎ (b ≡ true)
or_true true b h = inl refl
or_true false b h = inr h

module _ (fl : FloatOps) (area : Rect → ℕ) (thr : ℕ) where
  -- No box of the list overlaps one behind it beyond the threshold.
  abbrev pub IsSeparated : List Detection → Type 0
  IsSeparated [] = Unit
  IsSeparated (d ∷ dets) = All (λ e. overlaps fl area thr d e ≡ false) dets × IsSeparated dets

  -- The detection is one of the list, or a box of the list overlaps it beyond the threshold.
  abbrev pub IsRepresented : List Detection → Detection → Type 0
  IsRepresented kept d = Any (λ k. (k ≡ d) ⊎ (overlaps fl area thr k d ≡ true)) kept

  greedy-uncovered :
      (kept dets : List Detection)
      → All (λ e. is_covered fl area thr kept e ≡ false) (greedy fl area thr kept dets)
  unfolding greedy
  greedy-uncovered kept [] = tt
  greedy-uncovered kept (d ∷ dets) = elim (Bool-cases (is_covered fl area thr kept d)) [
    | inl covered ↦ rw covered (greedy-uncovered kept dets)
    | inr free ↦ rw free (
      free,
      All-map _ _ (λ e h. (or_false (is_covered fl area thr kept e) (overlaps fl area thr d e) h).0)
          (greedy fl area thr (d ∷ kept) dets) (greedy-uncovered (d ∷ kept) dets),
    )
  ]

  greedy-IsSeparated : (kept dets : List Detection) → IsSeparated (greedy fl area thr kept dets)
  unfolding greedy
  greedy-IsSeparated kept [] = tt
  greedy-IsSeparated kept (d ∷ dets) = elim (Bool-cases (is_covered fl area thr kept d)) [
    | inl covered ↦ rw covered (greedy-IsSeparated kept dets)
    | inr free ↦ rw free (
      All-map _ _ (λ e h. (or_false (is_covered fl area thr kept e) (overlaps fl area thr d e) h).1)
          (greedy fl area thr (d ∷ kept) dets) (greedy-uncovered (d ∷ kept) dets),
      greedy-IsSeparated (d ∷ kept) dets,
    )
  ]

  abbrev Settled : List Detection → List Detection → Detection → Type 0
  Settled kept result d = (is_covered fl area thr kept d ≡ true) ⊎ IsRepresented result d

  settle_kept :
      (kept result : List Detection) (d e : Detection)
      → Settled (d ∷ kept) result e
      → Settled kept (d ∷ result) e
  settle_kept kept result d e (inl covered) =
      elim (or_true (is_covered fl area thr kept e) (overlaps fl area thr d e) covered) [
        | inl before ↦ inl before
        | inr now ↦ inr (inl (inr now))
      ]
  settle_kept kept result d e (inr later) = inr (inr later)

  greedy-covered :
      (kept : List Detection) (d : Detection) (dets : List Detection)
      → is_covered fl area thr kept d ≡ true
      → greedy fl area thr kept (d ∷ dets) ≡ greedy fl area thr kept dets
  unfolding greedy
  greedy-covered kept d dets covered = rw covered refl

  greedy-free :
      (kept : List Detection) (d : Detection) (dets : List Detection)
      → is_covered fl area thr kept d ≡ false
      → greedy fl area thr kept (d ∷ dets) ≡ d ∷ greedy fl area thr (d ∷ kept) dets
  unfolding greedy
  greedy-free kept d dets free = rw free refl

  transport_result :
      (kept result same : List Detection)
      → result ≡ same
      → (dets : List Detection) → All (Settled kept same) dets
      → All (Settled kept result) dets
  transport_result kept result same e dets h = rw e h

  greedy-Settled :
      (kept dets : List Detection) → All (Settled kept (greedy fl area thr kept dets)) dets
  greedy-Settled kept [] = tt
  greedy-Settled kept (d ∷ dets) = elim (Bool-cases (is_covered fl area thr kept d)) [
    | inl covered ↦
        transport_result kept _ _ (greedy-covered kept d dets covered) (d ∷ dets)
          (inl covered, greedy-Settled kept dets)
    | inr free ↦ transport_result kept _ _ (greedy-free kept d dets free) (d ∷ dets) (
      inr (inl (inl refl)),
      All-map _ _ (settle_kept kept (greedy fl area thr (d ∷ kept) dets) d) dets
          (greedy-Settled (d ∷ kept) dets),
    )
  ]

  start_from_none :
      (result : List Detection) (d : Detection) → Settled [] result d → IsRepresented result d
  start_from_none result d (inl covered) = absurd (cc)
  start_from_none result d (inr there) = there

  -- No box that `nms` keeps overlaps one kept after it beyond the threshold, and no detection is lost:
  -- each is kept, or a box that is kept overlaps it.
  pub nms-IsSeparated :
      (sort : List Detection → List Detection) (dets : List Detection)
      → IsSeparated (nms fl area sort dets thr)
        × All (IsRepresented (nms fl area sort dets thr)) (sort dets)
  nms-IsSeparated sort dets = rw (nms-greedy fl area thr sort dets) (
    greedy-IsSeparated [] (sort dets),
    All-map _ _ (start_from_none (greedy fl area thr [] (sort dets))) (sort dets)
        (greedy-Settled [] (sort dets)),
  )
