-- ===== src/Daemon/Models/Runs/Sizes.antt =====
-- daemon/models.cpp: what the detector and the embedder give, on tensors that hold what their shapes
-- announce.
use chowdy.Base.{
  ℕ, ◌≡◌, ◌⊎◌, inl, inr, refl, ap, ◌∙◌, arith, List, [], ◌∷◌, Str, Result, ok, err, ◌>>=◌, length,
  All, Bool-cases, nat_eq, nat_eq_iff, length-take_le, take, sym,
}
use chowdy.Floats.{FloatOps}
use chowdy.Encoding.Embedding.{Embedding, emb_dim, l2_normalize}
use chowdy.Encoding.Embedding.Threshold.{length-l2_normalize}
use chowdy.Daemon.Models.Nms.{Detection}
use chowdy.Daemon.Models.Nms.Separated.{IsSeparated, nms-IsSeparated}
use chowdy.Daemon.Models.Heads.{
  Tensor, product, PerStride, Head, Letterbox, input_size, categorize_outputs,
}
use chowdy.Daemon.Models.Heads.Sized.{IsWhole, bind-ok}
use chowdy.Daemon.Models.Heads.Reads.{decode-some}
use chowdy.Daemon.Models.Runs.{
  OpenCv, DetectorSession, EmbedderSession, embed_size, Detected, detected, failed, selected,
  decoded, detect, preprocess_scrfd, take_embedding, preprocess_embed_aligned, embed_aligned,
}

-- Every output of a run is whole.
abbrev pub AllWhole : Result (List Tensor) → Type 0
AllWhole (ok outs) = All IsWhole outs
AllWhole (err what) = Unit

abbrev value_or : Embedding → Result Embedding → Embedding
value_or e (ok v) = v
value_or e (err what) = e

module _ (fl : FloatOps) {Image : Type 0} (cv : OpenCv Image) where
  -- An exception, or boxes of which none overlaps one behind it beyond the threshold.
  abbrev pub IsClean : ℕ → Detected fl cv → Type 0
  IsClean nms_iou r =
      ((what : Str) × (r ≡ failed what))
      ⊎ ((dets : List Detection) × (r ≡ detected dets) × IsSeparated fl cv.area nms_iou dets)

  decoded-IsClean :
      (sort : List Detection → List Detection) (conf nms_iou : ℕ) (l : Letterbox)
      (r : Result (List Tensor))
      → AllWhole r
      → (h : Result (PerStride Head)) → (r >>= categorize_outputs) ≡ h
      → IsClean nms_iou (decoded fl cv sort conf nms_iou l h)
  unfolding decoded selected
  decoded-IsClean sort conf nms_iou l r w (err what) e = inl (what, refl)
  decoded-IsClean sort conf nms_iou l (err what) w (ok heads) e = absurd (cc)
  decoded-IsClean sort conf nms_iou l (ok outs) w (ok heads) e =
      let (dets, read) = decode-some fl cv.rect_through conf l outs heads w e in
      rw read (inr (_, refl, (nms-IsSeparated fl cv.area nms_iou sort dets).0))

  -- On outputs that are whole, `detect` throws or gives detections that it read within the outputs and
  -- of which none overlaps one after it beyond the threshold.
  pub detect-IsClean :
      (session : DetectorSession) (sort : List Detection → List Detection) (grey : Image)
      (conf nms_iou : ℕ)
      → AllWhole (session (1 ∷ 3 ∷ input_size ∷ input_size ∷ []) (preprocess_scrfd fl cv grey).0)
      → IsClean nms_iou (detect fl cv session sort grey conf nms_iou)
  unfolding detect
  detect-IsClean session sort grey conf nms_iou w =
      decoded-IsClean sort conf nms_iou (preprocess_scrfd fl cv grey).1 _ w _ refl

  take_embedding-512 :
      (t : Tensor) (e : Embedding) → IsWhole t → take_embedding fl cv t ≡ ok e → length e ≡ 512
  unfolding take_embedding emb_dim
  take_embedding-512 t e w h = elim (Bool-cases (nat_eq (product t.shape) emb_dim)) [
    | inl full ↦
        let dim : product t.shape ≡ emb_dim = (nat_eq_iff _ _).0 full in
        let same : l2_normalize fl (take (product t.shape) t.values) ≡ e =
          ap (value_or e) (rw full at h) in
        ap length (sym same)
        ∙ length-l2_normalize fl (take (product t.shape) t.values)
        ∙ length-take_le (product t.shape) t.values (omega (arith, w))
        ∙ dim
    | inr other ↦ absurd (cc (rw other at h))
  ]

  -- An embedding that `embed_aligned` gives has 512 numbers, as the enrollment files expect, whatever
  -- the size of the model's output; any other size throws.
  embed_aligned-512 :
      (session : EmbedderSession) (grey : Image) (det : Detection) (e : Embedding)
      → ((input : List ℕ) (t : Tensor)
          → session (1 ∷ 3 ∷ embed_size ∷ embed_size ∷ []) input ≡ ok t
          → IsWhole t)
      → embed_aligned fl cv session grey det ≡ ok e
      → length e ≡ 512
  unfolding embed_aligned
  embed_aligned-512 session grey det e whole h =
      let (t, ran, took) =
        bind-ok
          (session (1 ∷ 3 ∷ embed_size ∷ embed_size ∷ [])
            (preprocess_embed_aligned fl cv grey det.kps))
          _ h in
      take_embedding-512 t e (whole _ t ran) took
