-- ===== src/Daemon/Models/Heads/Sized.antt =====
-- daemon/models.cpp: the sizes of the outputs that `categorize_outputs` accepts.
use native.Mathlib.Nat.{mul-one, one-mul}
use chowdy.Base.{
  ℕ, ◌*◌, ◌≡◌, refl, ap, ◌∙◌, sym, arith, List, [], ◌∷◌, Option, none, some, Result, ok, err, ◌>>=◌,
  nat_eq, nat_eq_iff, length, All, Bool-cases, inl, inr,
}
use chowdy.Daemon.Models.Heads.{
  Tensor, product, PerStride, Stride, stride8, stride16, stride32, side_of, anchors_per_cell,
  set_at, read_shape, stride_for, Found, put_by_last, put_at, put_shaped, categorize_from, nothing,
  Head, take_head, categorize_outputs,
}

-- The values are as many as the shape says: what the runtime promises of a tensor.
abbrev pub IsWhole : Tensor → Type 0
IsWhole t = length t.values ≡ product t.shape

-- The anchors of a stride.
abbrev pub cells : Stride → ℕ
cells s = side_of s * side_of s * anchors_per_cell

abbrev Holds : ℕ → Option Tensor → Type 0
Holds n none = Unit
Holds n (some t) = length t.values ≡ n

abbrev AllHold : ℕ → PerStride (Option Tensor) → Type 0
AllHold last p =
    Holds (cells stride8 * last) p.at8
    × Holds (cells stride16 * last) p.at16
    × Holds (cells stride32 * last) p.at32

record IsSound (f : Found) : Type 0 where
  score : AllHold 1 f.score
  bbox : AllHold 4 f.bbox
  kps : AllHold 10 f.kps

read_shape-product :
    (shape : List ℕ) (n last : ℕ) → read_shape shape ≡ some (n, last) → product shape ≡ n * last
unfolding read_shape
read_shape-product [] n last h = absurd (cc)
read_shape-product (a ∷ []) n last h = absurd (cc)
read_shape-product (a ∷ b ∷ []) n last h = rw (mul-one b) (cc)
read_shape-product (a ∷ b ∷ c ∷ []) n last h = elim (Bool-cases (nat_eq a 1)) [
  | inl one ↦ rw (mul-one c, (nat_eq_iff a 1).0 one, one-mul (b * c)) (cc (rw one at h))
  | inr other ↦ absurd (cc (rw other at h))
]
read_shape-product (a ∷ b ∷ c ∷ d ∷ s) n last h = absurd (cc)

stride_for-cells : (n : ℕ) (s : Stride) → stride_for n ≡ some s → n ≡ cells s
unfolding stride_for
stride_for-cells n stride8 h = ground arith
stride_for-cells n stride16 h = ground arith
stride_for-cells n stride32 h = ground arith

set_at-AllHold :
    (s : Stride) (last : ℕ) (t : Tensor) (p : PerStride (Option Tensor))
    → length t.values ≡ cells s * last
    → AllHold last p
    → AllHold last (set_at s (some t) p)
set_at-AllHold stride8 last t p e h = (e, h.1, h.2)
set_at-AllHold stride16 last t p e h = (h.0, e, h.2)
set_at-AllHold stride32 last t p e h = (h.0, h.1, e)

put_by_last-IsSound :
    (t : Tensor) (last : ℕ) (s : Stride) (f : Found)
    → length t.values ≡ cells s * last
    → IsSound f
    → IsSound (put_by_last t last s f)
unfolding put_by_last
put_by_last-IsSound t last s f e h = elim (Bool-cases (nat_eq last 1)) [
  | inl one ↦ rw one (record {
    score = set_at-AllHold s 1 t f.score (rw ((nat_eq_iff last 1).0 one) at e) h.score;
    bbox = h.bbox;
    kps = h.kps;
  })
  | inr not_one ↦ elim (Bool-cases (nat_eq last 4)) [
    | inl four ↦
        rw (not_one, four)
          (record {
            score = h.score;
            bbox = set_at-AllHold s 4 t f.bbox (rw ((nat_eq_iff last 4).0 four) at e) h.bbox;
            kps = h.kps;
          })
    | inr not_four ↦ elim (Bool-cases (nat_eq last 10)) [
      | inl ten ↦
          rw (not_one, not_four, ten)
            (record {
              score = h.score;
              bbox = h.bbox;
              kps = set_at-AllHold s 10 t f.kps (rw ((nat_eq_iff last 10).0 ten) at e) h.kps;
            })
      | inr not_ten ↦ rw (not_one, not_four, not_ten) h
    ]
  ]
]

put_at-IsSound :
    (t : Tensor) (last n : ℕ) (o : Option Stride) (f : Found)
    → length t.values ≡ n * last
    → stride_for n ≡ o
    → IsSound f
    → IsSound (put_at t last o f)
unfolding put_at
put_at-IsSound t last n none f e k h = h
put_at-IsSound t last n (some s) f e k h =
    put_by_last-IsSound t last s f (rw (stride_for-cells n s k) at e) h

put_shaped-IsSound :
    (t : Tensor) (o : Option (ℕ × ℕ)) (f : Found)
    → IsWhole t
    → read_shape t.shape ≡ o
    → IsSound f
    → IsSound (put_shaped t o f)
unfolding put_shaped
put_shaped-IsSound t none f w k h = h
put_shaped-IsSound t (some (n, last)) f w k h =
    put_at-IsSound t last n (stride_for n) f (w ∙ read_shape-product t.shape n last k) refl h

categorize_from-IsSound :
    (f : Found) (outs : List Tensor)
    → All IsWhole outs
    → IsSound f
    → IsSound (categorize_from f outs)
unfolding categorize_from
categorize_from-IsSound f [] w h = h
categorize_from-IsSound f (t ∷ outs) w h =
    categorize_from-IsSound (put_shaped t (read_shape t.shape) f) outs w.1
      (put_shaped-IsSound t (read_shape t.shape) f w.0 refl h)

pub record IsSized (s : Stride) (h : Head) : Type 0 where
  pub scores : length h.scores ≡ cells s * 1
  pub bboxes : length h.bboxes ≡ cells s * 4
  pub kpss : length h.kpss ≡ cells s * 10

abbrev head_of : Head → Result Head → Head
head_of h (ok g) = g
head_of h (err what) = h

take_head-IsSized :
    (s : Stride) (a b k : Option Tensor) (h : Head)
    → Holds (cells s * 1) a
    → Holds (cells s * 4) b
    → Holds (cells s * 10) k
    → take_head a b k ≡ ok h
    → IsSized s h
unfolding take_head
take_head-IsSized s (some a) (some b) (some k) h x y z e =
    let same = ap (head_of h) e in
    record {
      scores = ap (λ g. length g.scores) (sym same) ∙ x;
      bboxes = ap (λ g. length g.bboxes) (sym same) ∙ y;
      kpss = ap (λ g. length g.kpss) (sym same) ∙ z;
    }
take_head-IsSized s (some a) (some b) none h x y z e = absurd (cc)
take_head-IsSized s (some a) none k h x y z e = absurd (cc)
take_head-IsSized s none b k h x y z e = absurd (cc)

-- A chain that ends well has a first step that did, and a rest that did on its value.
pub bind-ok :
    {From To : Type 0} (first : Result From) (next : From → Result To) {end : To}
    → (first >>= next) ≡ ok end
    → (value : From) × (first ≡ ok value) × (next value ≡ ok end)
bind-ok (err what) next h = absurd (cc)
bind-ok (ok value) next h = (value, refl, h)

abbrev heads_of : PerStride Head → Result (PerStride Head) → PerStride Head
heads_of p (ok q) = q
heads_of p (err what) = p

abbrev pub AllSized : PerStride Head → Type 0
AllSized heads =
    IsSized stride8 heads.at8 × IsSized stride16 heads.at16 × IsSized stride32 heads.at32

AllSized-eq : {a b : PerStride Head} → a ≡ b → AllSized a → AllSized b
AllSized-eq e h = rw e at h

-- The three strides' outputs are as long as their shapes announce.
pub categorize_outputs-IsSized :
    (outs : List Tensor) (heads : PerStride Head)
    → All IsWhole outs
    → categorize_outputs outs ≡ ok heads
    → AllSized heads
unfolding categorize_outputs
categorize_outputs-IsSized outs heads w e =
    let start : Found = record { score = nothing; bbox = nothing; kps = nothing } in
    let sound =
      categorize_from-IsSound start outs w
        (record { score = (tt, tt, tt); bbox = (tt, tt, tt); kps = (tt, tt, tt) }) in
    let f = categorize_from start outs in
    let (h8, e8, e') = bind-ok (take_head f.score.at8 f.bbox.at8 f.kps.at8) _ e in
    let (h16, e16, e'') = bind-ok (take_head f.score.at16 f.bbox.at16 f.kps.at16) _ e' in
    let (h32, e32, last) = bind-ok (take_head f.score.at32 f.bbox.at32 f.kps.at32) _ e'' in
    let same = ap (heads_of heads) last in
    let s8 = take_head-IsSized stride8 _ _ _ h8 sound.score.0 sound.bbox.0 sound.kps.0 e8 in
    let s16 = take_head-IsSized stride16 _ _ _ h16 sound.score.1 sound.bbox.1 sound.kps.1 e16 in
    let s32 = take_head-IsSized stride32 _ _ _ h32 sound.score.2 sound.bbox.2 sound.kps.2 e32 in
    AllSized-eq same (s8, s16, s32)
