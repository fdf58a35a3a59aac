-- ===== src/Daemon/Models/Nms.antt =====
-- daemon/models.cpp: `iou` and `nms`. OpenCV's area of a rectangle and the order that `std::sort`
-- leaves are parameters.
pub mod Greedy
pub mod Separated
use chowdy.Base.{ℕ, Bool, true, false, ◌||◌, List, [], ◌∷◌, if◌then◌else◌}
use chowdy.Floats.{FloatOps, f32_zero}

-- `cv::Point2f` and `cv::Rect2f`
pub record Point : Type 0 where
  pub x : ℕ
  pub y : ℕ

pub record Rect : Type 0 where
  pub x : ℕ
  pub y : ℕ
  pub width : ℕ
  pub height : ℕ

pub record Detection : Type 0 where
  pub box : Rect
  pub score : ℕ
  pub kps : List Point

module _ (fl : FloatOps) (area : Rect → ℕ) where
  open fl use {add32, sub32, mul32, div32, lt32}

  -- `std::max` and `std::min`
  abbrev pub max32 : ℕ → ℕ → ℕ
  max32 a b = if lt32 a b then b else a

  abbrev pub min32 : ℕ → ℕ → ℕ
  min32 a b = if lt32 b a then b else a

  unfoldable pub iou : Rect → Rect → ℕ
  iou a b =
      let ix1 = max32 a.x b.x in
      let iy1 = max32 a.y b.y in
      let ix2 = min32 (add32 a.x a.width) (add32 b.x b.width) in
      let iy2 = min32 (add32 a.y a.height) (add32 b.y b.height) in
      let inter = mul32 (max32 f32_zero (sub32 ix2 ix1)) (max32 f32_zero (sub32 iy2 iy1)) in
      let uni = sub32 (add32 (area a) (area b)) inter in
      if lt32 f32_zero uni then div32 inter uni else f32_zero

  -- `iou(...) > iou_thr`
  abbrev pub overlaps : ℕ → Detection → Detection → Bool
  overlaps iou_thr d e = lt32 iou_thr (iou d.box e.box)

  -- The inner loop, over the detections behind `d` and their flags of `dropped`.
  unfoldable pub drop_overlapping : ℕ → Detection → List Bool → List Detection → List Bool
  drop_overlapping iou_thr d [] dets = []
  drop_overlapping iou_thr d (b ∷ dropped) [] = b ∷ dropped
  drop_overlapping iou_thr d (b ∷ dropped) (e ∷ dets) =
      (b || overlaps iou_thr d e) ∷ drop_overlapping iou_thr d dropped dets

  -- The outer loop, from `i` on.
  unfoldable pub keep_from : ℕ → List Bool → List Detection → List Detection
  unfolding drop_overlapping
  keep_from iou_thr dropped [] = []
  keep_from iou_thr [] (d ∷ dets) = []
  keep_from iou_thr (true ∷ dropped) (d ∷ dets) = keep_from iou_thr dropped dets
  keep_from iou_thr (false ∷ dropped) (d ∷ dets) =
      d ∷ keep_from iou_thr (drop_overlapping iou_thr d dropped dets) dets

  -- `std::vector<char> dropped(dets.size(), 0)`
  abbrev pub none_dropped : List Detection → List Bool
  none_dropped [] = []
  none_dropped (d ∷ dets) = false ∷ none_dropped dets

  -- `sort` orders by falling score.
  unfoldable pub nms : (List Detection → List Detection) → List Detection → ℕ → List Detection
  unfolding keep_from
  nms sort dets iou_thr = keep_from iou_thr (none_dropped (sort dets)) (sort dets)
