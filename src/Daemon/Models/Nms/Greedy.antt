-- ===== src/Daemon/Models/Nms/Greedy.antt =====
-- daemon/models.cpp: which boxes `nms` keeps.
use chowdy.Base.{ℕ, ◌≡◌, refl, ap, ◌∙◌, Bool, true, false, ◌||◌, List, [], ◌∷◌, map, if◌then◌else◌}
use chowdy.Floats.{FloatOps}
use chowdy.Daemon.Models.Nms.{
  Rect, Detection, overlaps, drop_overlapping, keep_from, none_dropped, nms,
}

module _ (fl : FloatOps) (area : Rect → ℕ) (thr : ℕ) where
  -- One of the boxes overlaps `e` beyond the threshold.
  abbrev pub is_covered : List Detection → Detection → Bool
  is_covered [] e = false
  is_covered (k ∷ kept) e = is_covered kept e || overlaps fl area thr k e

  -- The reference: a detection is kept if no box that was kept before it covers it.
  unfoldable pub greedy : List Detection → List Detection → List Detection
  greedy kept [] = []
  greedy kept (d ∷ dets) =
      let kept_with = greedy (d ∷ kept) dets in
      let kept_without = greedy kept dets in
      if is_covered kept d then kept_without else d ∷ kept_with

  drop_overlapping-is_covered :
      (kept : List Detection) (d : Detection) (dets : List Detection)
      → drop_overlapping fl area thr d (map (is_covered kept) dets) dets
        ≡ map (is_covered (d ∷ kept)) dets
  unfolding drop_overlapping
  drop_overlapping-is_covered kept d [] = refl
  drop_overlapping-is_covered kept d (e ∷ dets) =
      ap (◌∷◌ (is_covered (d ∷ kept) e)) (drop_overlapping-is_covered kept d dets)

  keep_flagged :
      (kept : List Detection) (d : Detection) (dets : List Detection) (b : Bool)
      → is_covered kept d ≡ b
      → ((k : List Detection)
          → keep_from fl area thr (map (is_covered k) dets) dets ≡ greedy k dets)
      → keep_from fl area thr (b ∷ map (is_covered kept) dets) (d ∷ dets) ≡ greedy kept (d ∷ dets)
  unfolding keep_from greedy
  keep_flagged kept d dets true e ih = rw e (ih kept)
  keep_flagged kept d dets false e ih =
      rw e (rw (drop_overlapping-is_covered kept d dets) (ap (◌∷◌ d) (ih (d ∷ kept))))

  keep_from-greedy :
      (dets kept : List Detection)
      → keep_from fl area thr (map (is_covered kept) dets) dets ≡ greedy kept dets
  unfolding keep_from greedy
  keep_from-greedy [] kept = refl
  keep_from-greedy (d ∷ dets) kept =
      keep_flagged kept d dets (is_covered kept d) refl (keep_from-greedy dets)

  none_dropped-is_covered :
      (dets : List Detection) → none_dropped fl area dets ≡ map (is_covered []) dets
  none_dropped-is_covered [] = refl
  none_dropped-is_covered (d ∷ dets) = ap (◌∷◌ false) (none_dropped-is_covered dets)

  -- The flags of the loops drop just the boxes that one kept before them covers: `nms` is the greedy
  -- selection over the order that the sorting leaves.
  pub nms-greedy :
      (sort : List Detection → List Detection) (dets : List Detection)
      → nms fl area sort dets thr ≡ greedy [] (sort dets)
  unfolding nms
  nms-greedy sort dets =
      ap (λ flags. keep_from fl area thr flags (sort dets)) (none_dropped-is_covered (sort dets))
      ∙ keep_from-greedy (sort dets) []
