-- ===== src/Daemon/Handlers/Matching.antt =====
-- daemon/handlers/auth.cpp: the comparison of a captured embedding with the enrollments.
use chowdy.Base.{ℕ, List, [], ◌∷◌, Str, if◌then◌else◌, ◌==◌, ℕ-Eq, keep_if}
use chowdy.Floats.{FloatOps, f64_minus_one}
use chowdy.Encoding.Embedding.{Embedding, emb_dim, cosine_sim_normed}
use chowdy.Daemon.Store.{UserEnrollment}

-- `remove_if` on the enrollments of another embedder.
unfoldable pub of_embedder : ℕ → List UserEnrollment → List UserEnrollment
of_embedder my_id us = keep_if (λ (u : UserEnrollment). u.file.embedder_id == my_id) us

-- The end of the loop over the enrollments: a match, or the best so far.
pub data Match : Type 0 where
  matched : Str → ℕ → Match
  unmatched : ℕ → Str → Match

module _ (fl : FloatOps) where
  open fl use {lt64, le64, to_f64}

  -- The loop over the embeddings of one enrollment.
  unfoldable pub best_for_label : Embedding → ℕ → List Embedding → ℕ
  best_for_label face best [] = best
  best_for_label face best (e ∷ es) =
      let s = cosine_sim_normed fl face e emb_dim in
      best_for_label face (if lt64 best s then s else best) es

  unfoldable pub match_enrollments : Embedding → List UserEnrollment → ℕ → Str → Match
  unfolding best_for_label
  match_enrollments face [] best label = unmatched best label
  match_enrollments face (u ∷ us) best label =
      let s = best_for_label face f64_minus_one u.file.embeddings in
      let rest =
        match_enrollments face us (if lt64 best s then s else best)
          (if lt64 best s then u.label else label) in
      if le64 (to_f64 u.file.threshold) s then matched u.label s else rest
