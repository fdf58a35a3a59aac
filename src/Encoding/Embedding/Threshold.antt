-- ===== src/Encoding/Embedding/Threshold.antt =====
-- What the similarity threshold of a new enrollment promises, and the model tag.
use chowdy.Base.{
  ℕ, ◌+◌, ◌*◌, ◌^◌, ◌<◌, ◌≡◌, ◌≢◌, refl, ◌⊎◌, inl, inr, true, false, some, List, [], ◌∷◌, ◌++◌,
  arith, length, All, Bool-cases, ltb, if◌then◌else◌, length-map,
}
use chowdy.Floats.{FloatOps, IsOrdered, f64_zero, f64_one, f64_epsilon}
use chowdy.Encoding.Embedding.{
  Embedding, emb_dim, u32, hash_head, simple_model_id, model_head, sum_squares, l2_normalize,
  cosine_sim_normed, min_sim_to, min_pairwise, max32, pick_threshold,
}

-- `R` holds between every embedding and every later one.
abbrev pub EachPair : (Embedding → Embedding → Type 0) → List Embedding → Type 0
EachPair R [] = Unit
EachPair R (v ∷ vs) = All (R v) vs × EachPair R vs

module _ (fl : FloatOps) (ord : IsOrdered fl) where
  open fl use {lt64, lt32, sub32, to_f32}

  -- Nothing below `r` was passed over.
  abbrev NotBelow : ℕ → ℕ → Type 0
  NotBelow r s = lt64 s r ≡ false

  NotBelow-mono : (r r' s : ℕ) → (r' ≡ r) ⊎ (lt64 r' r ≡ true) → NotBelow r s → NotBelow r' s
  NotBelow-mono r r' s (inl e) h = ground (arith, e, h)
  NotBelow-mono r r' s (inr l) h = elim (Bool-cases (lt64 s r')) [
    | inl below ↦ cc (ord.lt64_trans s r' r below l, h)
    | inr above ↦ above
  ]

  Lower : ℕ → ℕ → Type 0
  Lower r' r = (r' ≡ r) ⊎ (lt64 r' r ≡ true)

  Lower-trans : (a b c : ℕ) → Lower a b → Lower b c → Lower a c
  unfolding Lower
  Lower-trans a b c h k = grind (arith, ord.lt64_trans)

  -- One round of the inner loop.
  abbrev lesser : ℕ → ℕ → ℕ
  lesser mn s = if lt64 s mn then s else mn

  lesser-Lower : (mn s : ℕ) → Lower (lesser mn s) mn
  unfolding Lower
  lesser-Lower mn s = ground arith

  lesser-NotBelow : (mn s : ℕ) → NotBelow (lesser mn s) s
  lesser-NotBelow mn s = ground (arith, ord.lt64_irrefl s)

  min_sim_to-Lower :
      (mn : ℕ) (v : Embedding) (ws : List Embedding) → Lower (min_sim_to fl mn v ws) mn
  unfolding min_sim_to Lower
  min_sim_to-Lower mn v [] = inl refl
  min_sim_to-Lower mn v (w ∷ ws) =
      let mn' = lesser mn (cosine_sim_normed fl v w emb_dim) in
      Lower-trans (min_sim_to fl mn' v ws) mn' mn (min_sim_to-Lower mn' v ws) (lesser-Lower mn _)

  min_sim_to-NotBelow :
      (mn r : ℕ) (v : Embedding) (ws : List Embedding)
      → Lower r (min_sim_to fl mn v ws)
      → All (λ w. NotBelow r (cosine_sim_normed fl v w emb_dim)) ws
  unfolding min_sim_to Lower
  min_sim_to-NotBelow mn r v [] h = tt
  min_sim_to-NotBelow mn r v (w ∷ ws) h =
      let s = cosine_sim_normed fl v w emb_dim in
      let mn' = lesser mn s in
      (
        NotBelow-mono mn' r s
            (Lower-trans r (min_sim_to fl mn' v ws) mn' h (min_sim_to-Lower mn' v ws))
            (lesser-NotBelow mn s),
        min_sim_to-NotBelow mn' r v ws h,
      )

  min_pairwise-Lower : (mn : ℕ) (vs : List Embedding) → Lower (min_pairwise fl mn vs) mn
  unfolding min_pairwise Lower
  min_pairwise-Lower mn [] = inl refl
  min_pairwise-Lower mn (v ∷ vs) =
      Lower-trans (min_pairwise fl (min_sim_to fl mn v vs) vs) (min_sim_to fl mn v vs) mn
        (min_pairwise-Lower (min_sim_to fl mn v vs) vs) (min_sim_to-Lower mn v vs)

  min_pairwise-EachPair :
      (mn r : ℕ) (vs : List Embedding)
      → Lower r (min_pairwise fl mn vs)
      → EachPair (λ v w. NotBelow r (cosine_sim_normed fl v w emb_dim)) vs
  unfolding min_pairwise
  min_pairwise-EachPair mn r [] h = tt
  min_pairwise-EachPair mn r (v ∷ vs) h =
      let mn' = min_sim_to fl mn v vs in
      (
        min_sim_to-NotBelow mn r v vs
            (Lower-trans r (min_pairwise fl mn' vs) mn' h (min_pairwise-Lower mn' vs)),
        min_pairwise-EachPair mn' r vs h,
      )

  not_below : (a b : ℕ) → lt32 a b ≡ true → lt32 b a ≡ false
  not_below a b above = elim (Bool-cases (lt32 b a)) [
    | inl below ↦ cc (ord.lt32_trans a b a above below, ord.lt32_irrefl a)
    | inr fine ↦ fine
  ]

  -- The threshold of an enrollment is never below the floor; and where it is not the floor itself,
  -- it lies above it and is some `r` less the margin, where no two embeddings of the enrollment are
  -- less similar than `r`.
  pub pick_threshold_bounds :
      (embs : List Embedding) (global_floor margin : ℕ)
      → let t = pick_threshold fl embs global_floor margin in
        (lt32 t global_floor ≡ false)
        × ((t ≡ global_floor)
            ⊎ ((r : ℕ) × (t ≡ sub32 (to_f32 r) margin)
                × (lt32 global_floor t ≡ true)
                × EachPair (λ v w. lt64 (cosine_sim_normed fl v w emb_dim) r ≡ false) embs))
  unfolding pick_threshold Lower
  pick_threshold_bounds embs global_floor margin =
      let r = min_pairwise fl f64_one embs in
      let c = sub32 (to_f32 r) margin in
      elim (Bool-cases (ltb (length embs) 2)) [
        | inl few ↦ rw few (ord.lt32_irrefl global_floor, inl refl)
        | inr many ↦ elim (Bool-cases (lt32 global_floor c)) [
          | inl above ↦
              rw (many, above, max32)
                (
                  not_below global_floor c above,
                  inr (r, refl, above, min_pairwise-EachPair f64_one r embs (inl refl)),
                )
          | inr below ↦ rw (many, below, max32) (ord.lt32_irrefl global_floor, inl refl)
        ]
      ]

module _ (fl : FloatOps) where
  open fl use {lt64}

  pub length-l2_normalize : (v : Embedding) → length (l2_normalize fl v) ≡ length v
  unfolding l2_normalize
  length-l2_normalize v = elim (Bool-cases (lt64 (sum_squares fl f64_zero v) f64_epsilon)) [
    | inl tiny ↦ rw tiny (length-map _ v)
    | inr normal ↦ rw normal (length-map _ v)
  ]

hash_head-injective :
    (h h' : ℕ) (bs : List ℕ) → h < 2 ^ 32 → h' < 2 ^ 32 → hash_head h bs ≡ hash_head h' bs → h ≡ h'
unfolding hash_head
hash_head-injective h h' [] k k' e = e
hash_head-injective h h' (b ∷ bs) k k' e =
    let same : u32 (h * 31 + b) ≡ u32 (h' * 31 + b) =
      hash_head-injective (u32 (h * 31 + b)) (u32 (h' * 31 + b)) bs (omega arith) (omega arith) e in
    omega arith

hash_head-differ :
    (h : ℕ) (pre post : List ℕ) (b b' : ℕ)
    → h < 2 ^ 32
    → b < 256
    → b' < 256
    → hash_head h (pre ++ b ∷ post) ≡ hash_head h (pre ++ b' ∷ post)
    → b ≡ b'
unfolding hash_head
hash_head-differ h [] post b b' k l l' e =
    let same : u32 (h * 31 + b) ≡ u32 (h * 31 + b') =
      hash_head-injective (u32 (h * 31 + b)) (u32 (h * 31 + b')) post (omega arith) (omega arith)
        e in
    omega arith
hash_head-differ h (x ∷ pre) post b b' k l l' e =
    hash_head-differ (u32 (h * 31 + x)) pre post b b' (omega arith) l l' e

-- Two model files of one size whose first 16 bytes differ in a single byte have different tags.
simple_model_id-differ :
    (c c' pre post : List ℕ) (b b' : ℕ)
    → length c ≡ length c'
    → model_head c ≡ pre ++ b ∷ post
    → model_head c' ≡ pre ++ b' ∷ post
    → b < 256
    → b' < 256
    → b ≢ b'
    → simple_model_id (some c) ≢ simple_model_id (some c')
unfolding simple_model_id
simple_model_id-differ c c' pre post b b' size head head' k k' differ same = differ (
    hash_head-differ (u32 (length c')) pre post b b' (omega arith) k k'
      (rw (← head, ← head') (rw size at same)))
