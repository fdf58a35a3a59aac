-- ===== src/Daemon/Models/Heads.antt =====
-- daemon/models.cpp: the detector's outputs, `categorize_outputs` and `decode`. A tensor of ONNX
-- Runtime is its shape and its values; OpenCV's rectangle through two points is a parameter.
pub mod Sized
pub mod Reads
use chowdy.Base.{
  ℕ, zero, suc, ◌+◌, ◌*◌, ◌/◌, ◌≡◌, Bool, true, false, List, [], ◌∷◌, ◌++◌, Option, none, some, Str,
  codes, Result, ok, err, ◌>>=◌, ℤ, pos, nat_eq, if◌then◌else◌, length,
}
use chowdy.Floats.{FloatOps, f32_half}
use chowdy.Daemon.Models.Nms.{Point, Rect, Detection}

pub record Tensor : Type 0 where
  pub shape : List ℕ
  pub values : List ℕ

-- `std::accumulate` with `std::multiplies`
abbrev pub product : List ℕ → ℕ
product [] = 1
product (n ∷ shape) = n * product shape

-- One of each stride: 8, 16 and 32.
pub record PerStride (A : Type 0) : Type 0 where
  pub at8 : A
  pub at16 : A
  pub at32 : A

pub data Stride : Type 0 where
  stride8 : Stride
  stride16 : Stride
  stride32 : Stride

abbrev pub stride_of : Stride → ℕ
stride_of stride8 = 8
stride_of stride16 = 16
stride_of stride32 = 32

abbrev pub input_size : ℕ
input_size = 640

abbrev pub anchors_per_cell : ℕ
anchors_per_cell = 2

-- `kInputSize / kStrides[si]`
abbrev pub side_of : Stride → ℕ
side_of s = input_size / stride_of s

abbrev pub set_at : {A : Type 0} → Stride → A → PerStride A → PerStride A
set_at stride8 a p = record p { at8 = a }
set_at stride16 a p = record p { at16 = a }
set_at stride32 a p = record p { at32 = a }

-- `n` and `last` of a shape; `none` is `continue`.
unfoldable pub read_shape : List ℕ → Option (ℕ × ℕ)
read_shape (n ∷ last ∷ []) = some (n, last)
read_shape (b ∷ n ∷ last ∷ []) = if nat_eq b 1 then some (n, last) else none
read_shape _ = none

unfoldable pub stride_for : ℕ → Option Stride
stride_for n =
    if nat_eq n (80 * 80 * anchors_per_cell)
    then some stride8
    else if nat_eq n (40 * 40 * anchors_per_cell)
    then some stride16
    else if nat_eq n (20 * 20 * anchors_per_cell)
    then some stride32
    else none

-- `score_idx`, `bbox_idx` and `kps_idx`, with the output in place of its index.
pub record Found : Type 0 where
  pub score : PerStride (Option Tensor)
  pub bbox : PerStride (Option Tensor)
  pub kps : PerStride (Option Tensor)

put_by_last : Tensor → ℕ → Stride → Found → Found
put_by_last t last s f =
    if nat_eq last 1
    then record f { score = set_at s (some t) f.score }
    else if nat_eq last 4
    then record f { bbox = set_at s (some t) f.bbox }
    else if nat_eq last 10
    then record f { kps = set_at s (some t) f.kps }
    else f

put_at : Tensor → ℕ → Option Stride → Found → Found
unfolding put_by_last
put_at t last none f = f
put_at t last (some s) f = put_by_last t last s f

put_shaped : Tensor → Option (ℕ × ℕ) → Found → Found
unfolding put_at stride_for
put_shaped t none f = f
put_shaped t (some shape) f = put_at t shape.1 (stride_for shape.0) f

-- The loop over the outputs: a later one takes the place of an earlier one.
unfoldable pub categorize_from : Found → List Tensor → Found
unfolding put_shaped read_shape
categorize_from f [] = f
categorize_from f (t ∷ outs) = categorize_from (put_shaped t (read_shape t.shape) f) outs

abbrev pub nothing : PerStride (Option Tensor)
nothing = record { at8 = none; at16 = none; at32 = none }

-- What `decode` reads of one stride.
pub record Head : Type 0 where
  pub scores : List ℕ
  pub bboxes : List ℕ
  pub kpss : List ℕ

unfoldable pub take_head : Option Tensor → Option Tensor → Option Tensor → Result Head
take_head (some s) (some b) (some k) =
    ok (record { scores = s.values; bboxes = b.values; kpss = k.values })
take_head _ _ _ = err (codes "SCRFD output layout not understood")

unfoldable pub categorize_outputs : List Tensor → Result (PerStride Head)
unfolding categorize_from take_head
categorize_outputs outs =
    let f = categorize_from (record { score = nothing; bbox = nothing; kps = nothing }) outs in
    do
      h8 ← take_head f.score.at8 f.bbox.at8 f.kps.at8
      h16 ← take_head f.score.at16 f.bbox.at16 f.kps.at16
      h32 ← take_head f.score.at32 f.bbox.at32 f.kps.at32
      ok (record { at8 = h8; at16 = h16; at32 = h32 })

-- `p[i]`, with nothing past the end of the values.
unfoldable pub value_at : List ℕ → ℕ → Option ℕ
value_at [] i = none
value_at (v ∷ values) zero = some v
value_at (v ∷ values) (suc i) = value_at values i

module _ {A : Type 0} {B : Type 0} where
  unfoldable pub after_read : Option A → (A → Option B) → Option B
  after_read none f = none
  after_read (some a) f = f a

abbrev pub join : {A : Type 0} → Option (List A) → Option (List A) → Option (List A)
join none later = none
join (some xs) none = none
join (some xs) (some ys) = some (xs ++ ys)

-- `for (i = from; ...; ++i)`, `n` rounds, each of which pushes what `body` gives.
unfoldable pub for_each : {A : Type 0} → ℕ → ℕ → (ℕ → Option (List A)) → Option (List A)
for_each zero from body = some []
for_each (suc n) from body = join (body from) (for_each n (suc from) body)

-- The image's place in the detector's input.
pub record Letterbox : Type 0 where
  pub scale : ℕ
  pub pad_x : ℤ
  pub pad_y : ℤ

module _ (fl : FloatOps) (rect_through : Point → Point → Rect) where
  open fl use {add32, sub32, mul32, div32, lt32, of_int}

  abbrev remap : Letterbox → ℕ → ℕ → Point
  remap l u v = record {
    x = div32 (sub32 u (of_int l.pad_x)) l.scale;
    y = div32 (sub32 v (of_int l.pad_y)) l.scale;
  }

  -- `(static_cast<float>(x) + 0.5f) * fstride`
  abbrev centre : Stride → ℕ → ℕ
  centre s x = mul32 (add32 (of_int (pos x)) f32_half) (of_int (pos (stride_of s)))

  -- The landmark `k`.
  unfoldable pub decode_kps : Letterbox → Stride → Head → ℕ → ℕ → ℕ → ℕ → Option (List Point)
  decode_kps l s h idx cx cy k =
      let fstride = of_int (pos (stride_of s)) in
      after_read (value_at h.kpss (idx * 10 + k * 2)) (λ kx.
        after_read (value_at h.kpss (idx * 10 + k * 2 + 1))
          (λ ky. some (remap l (add32 (mul32 kx fstride) cx) (add32 (mul32 ky fstride) cy) ∷ [])))

  unfoldable pub decode_box : Letterbox → Stride → Head → ℕ → ℕ → ℕ → Option Rect
  decode_box p s h idx cx cy =
      let fstride = of_int (pos (stride_of s)) in
      after_read (value_at h.bboxes (idx * 4)) (λ l.
        after_read (value_at h.bboxes (idx * 4 + 1)) (λ t.
          after_read (value_at h.bboxes (idx * 4 + 2)) (λ r.
            after_read (value_at h.bboxes (idx * 4 + 3)) (λ b. some (
              rect_through (remap p (sub32 cx (mul32 l fstride)) (sub32 cy (mul32 t fstride)))
                (remap p (add32 cx (mul32 r fstride)) (add32 cy (mul32 b fstride))))))))

  -- An anchor whose score is not below the threshold.
  unfoldable pub decode_detection :
      Letterbox → Stride → Head → ℕ → ℕ → ℕ → ℕ → Option (List Detection)
  unfolding decode_box decode_kps
  decode_detection p s h idx x y score =
      after_read (decode_box p s h idx (centre s x) (centre s y)) (λ box.
        after_read (for_each 5 0 (decode_kps p s h idx (centre s x) (centre s y)))
          (λ kps. some (record { box = box; score = score; kps = kps } ∷ [])))

  -- The body of the loops; nothing is read further of an anchor below the threshold.
  unfoldable pub decode_anchor : ℕ → Letterbox → Stride → Head → ℕ → ℕ → ℕ → Option (List Detection)
  unfolding decode_detection
  decode_anchor conf_thr p s h y x a =
      let idx = (y * side_of s + x) * anchors_per_cell + a in
      after_read (value_at h.scores idx)
        (λ score. if lt32 score conf_thr then some [] else decode_detection p s h idx x y score)

  unfoldable pub decode_stride : ℕ → Letterbox → Stride → Head → Option (List Detection)
  unfolding decode_anchor
  decode_stride conf_thr p s h = for_each (side_of s) 0 (λ y.
      for_each (side_of s) 0
        (λ x. for_each anchors_per_cell 0 (λ a. decode_anchor conf_thr p s h y x a)))

  -- `none` is a read past the end of an output.
  unfoldable pub decode : PerStride Head → ℕ → Letterbox → Option (List Detection)
  unfolding decode_stride
  decode heads conf_thr p = join (decode_stride conf_thr p stride8 heads.at8) (
      join (decode_stride conf_thr p stride16 heads.at16)
        (decode_stride conf_thr p stride32 heads.at32))
