-- ===== src/Daemon/Models/Runs.antt =====
-- daemon/models.cpp: `preprocess_scrfd`, `detect`, `preprocess_embed_aligned` and `embed_aligned`. The
-- sessions of ONNX Runtime and OpenCV's resizing and warping are parameters; an image is a value of
-- some type, of which the code reads the size.
pub mod Sizes
use chowdy.Base.{
  ℕ, zero, suc, ltb, take, ◌+◌, ◌*◌, ◌-◌, ◌/◌, ◌≡◌, Bool, true, false, List, [], ◌∷◌, ◌++◌, map,
  Option, none, some, Str, codes, Result, ok, err, ◌>>=◌, ℤ, pos, negsuc, ◌+ℤ◌, sub_ℕ, nat_eq,
  pos_part, neg_part, if◌then◌else◌, length,
}
use chowdy.Floats.{FloatOps, f32_one, f32_mid_grey, f32_128}
use chowdy.Encoding.Embedding.{Embedding, emb_dim, l2_normalize}
use chowdy.Daemon.Models.Nms.{Point, Rect, Detection, nms, min32}
use chowdy.Daemon.Models.Heads.{
  Tensor, product, input_size, PerStride, Head, categorize_outputs, Letterbox, decode,
}

abbrev pub embed_size : ℕ
embed_size = 112

-- C++ division of an `int` by 2, towards zero.
half : ℤ → ℤ
half (pos n) = pos (n / 2)
half (negsuc n) = sub_ℕ 0 (suc n / 2)

-- `kInputSize - n`
margin : ℤ → ℤ
margin n = sub_ℕ (input_size + neg_part n) (pos_part n)

-- OpenCV, on images of this type.
pub record OpenCv (Image : Type 0) : Type 0 where
  pub cols : Image → ℕ
  pub rows : Image → ℕ
  -- a black canvas of 640 by 640 with the image, resized to the first two numbers, at the last two:
  -- its bytes, row after row
  pub letterboxed : Image → ℤ → ℤ → ℤ → ℤ → List ℕ
  -- the image warped to 112 by 112 so that the landmarks fall on the reference's: its bytes
  pub aligned : Image → List Point → List ℕ
  pub area : Rect → ℕ
  pub rect_through : Point → Point → Rect

-- `session_.Run` on a tensor of this shape and these values. The embedder reads the first output.
abbrev pub DetectorSession : Type 0
DetectorSession = List ℕ → List ℕ → Result (List Tensor)

abbrev pub EmbedderSession : Type 0
EmbedderSession = List ℕ → List ℕ → Result Tensor

module _ (fl : FloatOps) {Image : Type 0} (cv : OpenCv Image) where
  open fl use {sub32, mul32, div32, of_int, trunc32}

  -- The pixels of one channel, and the same for all three.
  unfoldable pub fill_tensor : ℕ → List ℕ → List ℕ
  fill_tensor norm pixels =
      let channel = map (λ b. mul32 (sub32 (of_int (pos b)) f32_mid_grey) norm) pixels in
      channel ++ (channel ++ channel)

  unfoldable pub preprocess_scrfd : Image → List ℕ × Letterbox
  unfolding fill_tensor half margin
  preprocess_scrfd grey =
      let fcols = of_int (pos (cv.cols grey)) in
      let frows = of_int (pos (cv.rows grey)) in
      let size = of_int (pos input_size) in
      let scale = min32 fl cv.area (div32 size fcols) (div32 size frows) in
      let new_w = trunc32 (mul32 fcols scale) in
      let new_h = trunc32 (mul32 frows scale) in
      let pad_x = half (margin new_w) in
      let pad_y = half (margin new_h) in
      (
        fill_tensor (div32 f32_one f32_128) (cv.letterboxed grey new_w new_h pad_x pad_y),
        record { scale = scale; pad_x = pad_x; pad_y = pad_y },
      )

  -- What `decode` reads past an end is not decided by the language; it is kept as an outcome.
  pub data Detected : Type 0 where
    detected : List Detection → Detected
    failed : Str → Detected
    out_of_range : Detected

  unfoldable pub selected :
      (List Detection → List Detection) → ℕ → Option (List Detection) → Detected
  selected sort nms_iou none = out_of_range
  selected sort nms_iou (some dets) = detected (nms fl cv.area sort dets nms_iou)

  unfoldable pub decoded :
      (List Detection → List Detection) → ℕ → ℕ → Letterbox → Result (PerStride Head) → Detected
  unfolding selected
  decoded sort conf_thr nms_iou l (err what) = failed what
  decoded sort conf_thr nms_iou l (ok heads) =
      selected sort nms_iou (decode fl cv.rect_through heads conf_thr l)

  unfoldable pub detect :
      DetectorSession → (List Detection → List Detection) → Image → ℕ → ℕ → Detected
  unfolding preprocess_scrfd decoded
  detect session sort grey conf_threshold nms_iou =
      let (input, l) = preprocess_scrfd grey in
      decoded sort conf_threshold nms_iou l
        (session (1 ∷ 3 ∷ input_size ∷ input_size ∷ []) input >>= categorize_outputs)

  unfoldable pub preprocess_embed_aligned : Image → List Point → List ℕ
  unfolding fill_tensor
  preprocess_embed_aligned grey kps = fill_tensor (div32 f32_one f32_mid_grey) (cv.aligned grey kps)

  unfoldable pub take_embedding : Tensor → Result Embedding
  take_embedding t =
      let dim = product t.shape in
      if nat_eq dim emb_dim
      then ok (l2_normalize fl (take dim t.values))
      else err (codes "embedder output dim != 512")

  unfoldable pub embed_aligned : EmbedderSession → Image → Detection → Result Embedding
  unfolding preprocess_embed_aligned take_embedding
  embed_aligned session grey det =
      session (1 ∷ 3 ∷ embed_size ∷ embed_size ∷ []) (preprocess_embed_aligned grey det.kps)
      >>= take_embedding
