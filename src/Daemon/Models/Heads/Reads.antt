-- ===== src/Daemon/Models/Heads/Reads.antt =====
-- daemon/models.cpp: the indices at which `decode` reads the detector's outputs.
use chowdy.Base.{
  ℕ, zero, suc, ◌+◌, ◌*◌, ◌≡◌, ◌≤◌, ◌<◌, refl, arith, Bool, true, false, List, [], ◌∷◌, ◌++◌,
  Option, some, ok, length, All, if◌then◌else◌,
}
use chowdy.Floats.{FloatOps}
use chowdy.Daemon.Models.Nms.{Point, Rect, Detection}
use chowdy.Daemon.Models.Heads.{
  Tensor, PerStride, Stride, stride8, stride16, stride32, side_of, anchors_per_cell, Head,
  categorize_outputs, value_at, after_read, join, for_each, Letterbox, decode_kps, decode_box,
  decode_detection, decode_anchor, decode_stride, decode,
}
use chowdy.Daemon.Models.Heads.Sized.{IsWhole, cells, IsSized, categorize_outputs-IsSized}

value_at-some :
    (values : List ℕ) (i : ℕ) → i < length values → (v : ℕ) × (value_at values i ≡ some v)
unfolding value_at
value_at-some [] i h = absurd (omega arith)
value_at-some (v ∷ values) zero h = (v, refl)
value_at-some (v ∷ values) (suc i) h = value_at-some values i (omega arith)

module _ {A : Type 0} where
  join-some :
      (a b : Option (List A))
      → ((x : List A) × (a ≡ some x))
      → ((y : List A) × (b ≡ some y))
      → (z : List A) × (join a b ≡ some z)
  join-some a b (x, e) (y, f) = (x ++ y, rw (e, f) refl)

  for_each-some :
      (n from : ℕ) (body : ℕ → Option (List A))
      → ((i : ℕ) → from ≤ i → i < from + n → (xs : List A) × (body i ≡ some xs))
      → (xs : List A) × (for_each n from body ≡ some xs)
  unfolding for_each
  for_each-some zero from body each = ([], refl)
  for_each-some (suc n) from body each =
      join-some (body from) (for_each n (suc from) body) (each from (omega arith) (omega arith))
        (for_each-some n (suc from) body (λ i lo hi. each i (omega arith) (omega arith)))

index-lt :
    (s : Stride) (y x a : ℕ)
    → y < side_of s
    → x < side_of s
    → a < 2
    → (y * side_of s + x) * anchors_per_cell + a < cells s
index-lt stride8 y x a h k l = omega arith
index-lt stride16 y x a h k l = omega arith
index-lt stride32 y x a h k l = omega arith

module _ (fl : FloatOps) (rect_through : Point → Point → Rect) (conf_thr : ℕ) (p : Letterbox) where
  open fl use {lt32}

  after_read-some :
      {A B : Type 0} (o : Option A) (f : A → Option B)
      → ((a : A) × (o ≡ some a))
      → ((a : A) → (b : B) × (f a ≡ some b))
      → (b : B) × (after_read o f ≡ some b)
  unfolding after_read
  after_read-some o f (a, e) each = let (b, g) = each a in (b, rw e g)

  decode_box-some :
      (s : Stride) (h : Head)
      → IsSized s h
      → (idx cx cy : ℕ) → idx < cells s
      → (r : Rect) × (decode_box fl rect_through p s h idx cx cy ≡ some r)
  unfolding decode_box
  decode_box-some s h sized idx cx cy below =
      after_read-some _ _ (value_at-some h.bboxes (idx * 4) (omega (arith, sized.bboxes, below)))
        (λ l.
          after_read-some _ _
            (value_at-some h.bboxes (idx * 4 + 1) (omega (arith, sized.bboxes, below)))
            (λ t.
              after_read-some _ _
                (value_at-some h.bboxes (idx * 4 + 2) (omega (arith, sized.bboxes, below)))
                (λ r.
                  after_read-some _ _
                    (value_at-some h.bboxes (idx * 4 + 3) (omega (arith, sized.bboxes, below)))
                    (λ b. (_, refl)))))

  decode_kps-some :
      (s : Stride) (h : Head)
      → IsSized s h
      → (idx cx cy k : ℕ) → idx < cells s
      → k < 5
      → (ks : List Point) × (decode_kps fl rect_through p s h idx cx cy k ≡ some ks)
  unfolding decode_kps
  decode_kps-some s h sized idx cx cy k below few =
      after_read-some _ _
        (value_at-some h.kpss (idx * 10 + k * 2) (omega (arith, sized.kpss, below)))
        (λ kx.
          after_read-some _ _
            (value_at-some h.kpss (idx * 10 + k * 2 + 1) (omega (arith, sized.kpss, below)))
            (λ ky. (_, refl)))

  decode_detection-some :
      (s : Stride) (h : Head)
      → IsSized s h
      → (x y idx : ℕ) → idx < cells s
      → (score : ℕ)
      → (dets : List Detection) × (decode_detection fl rect_through p s h idx x y score ≡ some dets)
  unfolding decode_detection
  decode_detection-some s h sized x y idx below score =
      after_read-some _ _ (decode_box-some s h sized idx _ _ below) (λ box.
        after_read-some _ _
          (for_each-some 5 0 _
            (λ k _ few. decode_kps-some s h sized idx _ _ k below (omega (arith, few))))
          (λ kps. (_, refl)))

  skipped_or :
      (b : Bool) (o : Option (List Detection))
      → ((dets : List Detection) × (o ≡ some dets))
      → (dets : List Detection) × ((if b then some [] else o) ≡ some dets)
  skipped_or true o h = ([], refl)
  skipped_or false o h = h

  decode_anchor-some :
      (s : Stride) (h : Head)
      → IsSized s h
      → (y x a : ℕ) → y < side_of s
      → x < side_of s
      → a < 2
      → (dets : List Detection) × (decode_anchor fl rect_through conf_thr p s h y x a ≡ some dets)
  unfolding decode_anchor
  decode_anchor-some s h sized y x a hy hx ha =
      let idx = (y * side_of s + x) * anchors_per_cell + a in
      let below = index-lt s y x a hy hx ha in
      after_read-some _ _ (value_at-some h.scores idx (omega (arith, sized.scores, below)))
        (λ score.
          skipped_or (lt32 score conf_thr) (decode_detection fl rect_through p s h idx x y score)
            (decode_detection-some s h sized x y idx below score))

  decode_stride-some :
      (s : Stride) (h : Head)
      → IsSized s h
      → (dets : List Detection) × (decode_stride fl rect_through conf_thr p s h ≡ some dets)
  unfolding decode_stride
  decode_stride-some s h sized = for_each-some (side_of s) 0 _ (λ y _ hy.
      for_each-some (side_of s) 0 _ (λ x _ hx. for_each-some anchors_per_cell 0 _ (λ a _ ha.
        decode_anchor-some s h sized y x a (omega (arith, hy)) (omega (arith, hx))
          (omega (arith, ha)))))

  -- Every read of `decode` is within the outputs: on what `categorize_outputs` accepts of tensors
  -- that hold the values that their shapes announce, none is past an end.
  pub decode-some :
      (outs : List Tensor) (heads : PerStride Head)
      → All IsWhole outs
      → categorize_outputs outs ≡ ok heads
      → (dets : List Detection) × (decode fl rect_through heads conf_thr p ≡ some dets)
  unfolding decode
  decode-some outs heads w e =
      let (s8, s16, s32) = categorize_outputs-IsSized outs heads w e in
      join-some _ _ (decode_stride-some stride8 heads.at8 s8) (
        join-some _ _ (decode_stride-some stride16 heads.at16 s16)
          (decode_stride-some stride32 heads.at32 s32))
