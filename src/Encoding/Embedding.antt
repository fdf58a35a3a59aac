-- ===== src/Encoding/Embedding.antt =====
-- common/encoding.cpp: the model tag, normalisation, cosine similarity and the threshold.
pub mod Threshold
use chowdy.Base.{
  ℕ, zero, suc, ◌+◌, ◌*◌, ◌%◌, ◌^◌, Option, none, some, List, [], ◌∷◌, ◌++◌, map, length, take,
  replicate, ltb, if◌then◌else◌,
}
use chowdy.Floats.{FloatOps, f64_zero, f64_one, f64_epsilon, f32_zero}

-- `Embedding` is a vector of `float`, `kEmbDim` long.
abbrev pub Embedding : Type 0
Embedding = List ℕ

unfoldable pub emb_dim : ℕ
emb_dim = 512

-- uint32_t arithmetic wraps.
abbrev pub u32 : ℕ → ℕ
u32 n = n % 2 ^ 32

-- `for (auto b : head) h = h * 31u + b`
unfoldable pub hash_head : ℕ → List ℕ → ℕ
hash_head h [] = h
hash_head h (b ∷ bs) = hash_head (u32 (h * 31 + b)) bs

-- The 16 bytes of `head`, zero where the file is shorter.
abbrev pub model_head : List ℕ → List ℕ
model_head content = take 16 (content ++ replicate 16 0)

-- `none` is a file that cannot be opened.
unfoldable pub simple_model_id : Option (List ℕ) → ℕ
unfolding hash_head
simple_model_id none = 0
simple_model_id (some content) = hash_head (u32 (length content)) (model_head content)

module _ (fl : FloatOps) where
  open fl use {add64, mul64, div64, sqrt64, lt64, sub32, mul32, lt32, to_f64, to_f32}

  unfoldable pub sum_squares : ℕ → Embedding → ℕ
  sum_squares s [] = s
  sum_squares s (x ∷ xs) = sum_squares (add64 s (mul64 (to_f64 x) (to_f64 x))) xs

  unfoldable pub l2_normalize : Embedding → Embedding
  unfolding sum_squares
  l2_normalize v =
      let s = sum_squares f64_zero v in
      if lt64 s f64_epsilon
      then map (λ _. f32_zero) v
      else map (λ x. mul32 x (to_f32 (div64 f64_one (sqrt64 s)))) v

  -- The loop of `cosine_sim_normed` from the sum `s`. Every caller passes vectors of `n` floats;
  -- a shorter one would be read past its end.
  unfoldable pub dot_from : ℕ → ℕ → Embedding → Embedding → ℕ
  dot_from zero s a b = s
  dot_from (suc n) s (x ∷ a) (y ∷ b) = dot_from n (add64 s (mul64 (to_f64 x) (to_f64 y))) a b
  dot_from (suc n) s a b = s

  unfoldable pub cosine_sim_normed : Embedding → Embedding → ℕ → ℕ
  unfolding dot_from
  cosine_sim_normed a b n = dot_from n f64_zero a b

  -- The inner loop of `pick_threshold`: the least similarity of `v` to a later embedding.
  unfoldable pub min_sim_to : ℕ → Embedding → List Embedding → ℕ
  min_sim_to mn v [] = mn
  min_sim_to mn v (w ∷ ws) =
      let s = cosine_sim_normed v w emb_dim in min_sim_to (if lt64 s mn then s else mn) v ws

  -- The outer loop.
  unfoldable pub min_pairwise : ℕ → List Embedding → ℕ
  unfolding min_sim_to
  min_pairwise mn [] = mn
  min_pairwise mn (v ∷ vs) = min_pairwise (min_sim_to mn v vs) vs

  -- `std::max` on floats.
  unfoldable pub max32 : ℕ → ℕ → ℕ
  max32 a b = if lt32 a b then b else a

  unfoldable pub pick_threshold : List Embedding → ℕ → ℕ → ℕ
  unfolding min_pairwise max32
  pick_threshold embs global_floor margin =
      if ltb (length embs) 2
      then global_floor
      else max32 global_floor (sub32 (to_f32 (min_pairwise f64_one embs)) margin)
