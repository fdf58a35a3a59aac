-- ===== src/Daemon/Handlers/Auth/Sightings.antt =====
-- Matches in the capture loop of `handle_auth`, traced back to the frames of its rounds.
use mathlib.Core.Path.{subst}
use chowdy.Base.{
  ℕ, suc, ◌-◌, ◌/◌, ◌≡◌, refl, ◌∙◌, ◌⊎◌, inl, inr, true, false, List, [], ◌∷◌, some, Str, All, Any,
  Result, ok, err, Bool-cases, Option-cases, if◌then◌else◌, ltb, ◌==◌, ℕ-Eq,
}
use chowdy.Floats.{FloatOps, f64_minus_one}
use chowdy.Encoding.Embedding.{Embedding, emb_dim, cosine_sim_normed}
use chowdy.Daemon.Store.{UserEnrollment}
use chowdy.Daemon.Pipeline.{Pipeline, PipelineConfig, FrameOutcome, process_one_frame}
use chowdy.Daemon.Pipeline.Config.{process_one_frame-cfg}
use chowdy.Daemon.Handlers.Auth.{
  Round, Progress, LoopEnd, judge, with_embedding, compared, after_frame, found, verdict,
  round_body, next_round, auth_loop, ms, smaller,
}
use chowdy.Daemon.Handlers.Matching.{Match, matched, unmatched, best_for_label, match_enrollments}

module _ (fl : FloatOps) where
  open fl use {le64, to_f64}

  -- `face` has the similarity `s` to an embedding of `u`, which is at least the threshold of `u`.
  abbrev pub Accepts : Embedding → ℕ → UserEnrollment → Type 0
  Accepts face s u =
      (le64 (to_f64 u.file.threshold) s ≡ true)
      × Any (λ e. cosine_sim_normed fl face e emb_dim ≡ s) u.file.embeddings

  -- -1.0, the similarity that a label without embeddings is given, does not reach the threshold.
  abbrev pub IsStrict : UserEnrollment → Type 0
  IsStrict u = le64 (to_f64 u.file.threshold) f64_minus_one ≡ false

  best_for_label-cases :
      (face : Embedding) (best : ℕ) (es : List Embedding) (s : ℕ)
      → best_for_label fl face best es ≡ s
      → (best ≡ s) ⊎ Any (λ e. cosine_sim_normed fl face e emb_dim ≡ s) es
  unfolding best_for_label
  best_for_label-cases face best [] s h = inl h
  best_for_label-cases face best (e ∷ es) s h =
      let t = cosine_sim_normed fl face e emb_dim in
      elim (best_for_label-cases face (if fl.lt64 best t then t else best) es s h) [
        | inl picked ↦ elim (Bool-cases (fl.lt64 best t)) [
          | inl more ↦ inr (inl (rw more at picked))
          | inr less ↦ inl (rw less at picked)
        ]
        | inr there ↦ inr (inr there)
      ]

  best_for_label-Accepts :
      (face : Embedding) (u : UserEnrollment) (s : ℕ)
      → IsStrict u
      → best_for_label fl face f64_minus_one u.file.embeddings ≡ s
      → le64 (to_f64 u.file.threshold) s ≡ true
      → Accepts face s u
  best_for_label-Accepts face u s strict h enough =
      elim (best_for_label-cases face f64_minus_one u.file.embeddings s h) [
        | inl none_better ↦ absurd (cc (none_better, strict, enough))
        | inr there ↦ (enough, there)
      ]

  match_enrollments-Accepts :
      (face : Embedding) (us : List UserEnrollment) (best : ℕ) (label l : Str) (s : ℕ)
      → All IsStrict us
      → match_enrollments fl face us best label ≡ matched l s
      → Any (λ u. (u.label ≡ l) × Accepts face s u) us
  unfolding match_enrollments
  match_enrollments-Accepts face [] best label l s strict h = cc h
  match_enrollments-Accepts face (u ∷ us) best label l s strict h =
      let t = best_for_label fl face f64_minus_one u.file.embeddings in
      elim (Bool-cases (le64 (to_f64 u.file.threshold) t)) [
        | inl enough ↦
            let same : matched u.label t ≡ matched l s = rw enough at h in
            let sim : t ≡ s = cc same in
            inl (cc same, best_for_label-Accepts face u s strict.0 sim (cc (sim, enough)))
        | inr little ↦ inr (
            match_enrollments-Accepts face us (if fl.lt64 best t then t else best)
              (if fl.lt64 best t then u.label else label) l s strict.1 (rw little at h))
      ]

  -- What a frame must show before its embedding is compared.
  abbrev pub Shows : PipelineConfig → FrameOutcome → Embedding → Type 0
  Shows cfg out face =
      (out.captured ≡ true)
      × (fl.lt64 out.brightness cfg.dark_threshold ≡ false)
      × (out.has_face ≡ true)
      × (out.embedding ≡ some face)

  -- The round's frame shows a face that an enrollment under the label accepts.
  abbrev pub Sighting : PipelineConfig → List UserEnrollment → Str → ℕ → Round → Type 0
  Sighting cfg us label s r =
      (p : Pipeline) × (timeout : ℕ) × (out : FrameOutcome) × (face : Embedding)
      × ((process_one_frame fl r.shot timeout true p).1 ≡ ok out)
      × Shows cfg out face
      × Any (λ u. (u.label ≡ label) × Accepts face s u) us

  compared-found :
      (g : Progress) (m : Match) (label : Str) (s : ℕ)
      → compared fl g m ≡ inr (label, s)
      → m ≡ matched label s
  unfolding compared
  compared-found g (matched l t) label s h = cc h
  compared-found g (unmatched best l) label s h = cc h

  judge-found :
      (cfg : PipelineConfig) (us : List UserEnrollment) (out : FrameOutcome) (g : Progress)
      (label : Str) (s : ℕ)
      → All IsStrict us
      → judge fl cfg us out g ≡ inr (label, s)
      → (face : Embedding) × Shows cfg out face × Any (λ u. (u.label ≡ label) × Accepts face s u) us
  unfolding judge with_embedding compared
  judge-found cfg us out g label s strict h = elim (Bool-cases out.captured) [
    | inr missed ↦ absurd (cc (rw missed at h))
    | inl caught ↦ elim (Bool-cases (fl.lt64 out.brightness cfg.dark_threshold)) [
      | inl dark ↦ absurd (cc (rw (caught, dark) at h))
      | inr lit ↦ elim (Bool-cases out.has_face) [
        | inr blank ↦ absurd (cc (rw (caught, lit, blank) at h))
        | inl seen ↦ elim (Option-cases out.embedding) [
          | inl unread ↦ absurd (cc (rw (caught, lit, seen, unread) at h))
          | inr (face, read) ↦
              let m = match_enrollments fl face us g.best_sim g.best_label in
              let hit : m ≡ matched label s =
                compared-found
                  (record g {
                    attempts = suc g.attempts;
                    captures_seen = suc g.captures_seen;
                    faces_seen = suc g.faces_seen;
                  })
                  m label s (rw (caught, lit, seen, read) at h) in
              (
                face,
                (caught, lit, seen, read),
                match_enrollments-Accepts face us g.best_sim g.best_label label s strict hit,
              )
        ]
      ]
    ]
  ]

  verdict-found :
      (now : ℕ) (x : Progress ⊎ (Str × ℕ)) (label : Str) (s t : ℕ)
      → verdict fl now x ≡ inr (found label s t)
      → x ≡ inr (label, s)
  unfolding verdict
  verdict-found now (inl g) label s t h = absurd (cc h)
  verdict-found now (inr (l, u)) label s t h = cc h

  after_frame-found :
      (us : List UserEnrollment) (now : ℕ) (g : Progress) (x : Pipeline × Result FrameOutcome)
      (label : Str) (s t : ℕ)
      → All IsStrict us
      → (after_frame fl us now g x).1 ≡ inr (found label s t)
      → (out : FrameOutcome) × (face : Embedding) × (x.1 ≡ ok out)
        × Shows x.0.cfg out face
        × Any (λ u. (u.label ≡ label) × Accepts face s u) us
  unfolding after_frame
  after_frame-found us now g (p, err what) label s t strict h = absurd (cc h)
  after_frame-found us now g (p, ok out) label s t strict h =
      let (face, shows, accepted) =
        judge-found p.cfg us out g label s strict
          (verdict-found now (judge fl p.cfg us out g) label s t h) in
      (out, face, refl, shows, accepted)

  after_frame-cfg :
      (us : List UserEnrollment) (now : ℕ) (g : Progress) (x : Pipeline × Result FrameOutcome)
      → (after_frame fl us now g x).0.cfg ≡ x.0.cfg
  unfolding after_frame
  after_frame-cfg us now g (p, err what) = refl
  after_frame-cfg us now g (p, ok out) = refl

  pub round_body-cfg :
      (us : List UserEnrollment) (deadline : ℕ) (r : Round) (g : Progress) (p : Pipeline)
      → (round_body fl us deadline r g p).0.cfg ≡ p.cfg
  unfolding round_body
  round_body-cfg us deadline r g p =
      let remaining = (deadline - r.measured_at) / ms in
      let x = process_one_frame fl r.shot (smaller remaining 300) true p in
      elim (Bool-cases (remaining == 0)) [
        | inl late ↦ rw late
        | inr early ↦ rw early (
            after_frame-cfg us r.answered_at g x
            ∙ process_one_frame-cfg fl r.shot (smaller remaining 300) true p)
      ]

  round_body-found :
      (us : List UserEnrollment) (deadline : ℕ) (r : Round) (g : Progress) (p : Pipeline)
      (label : Str) (s t : ℕ)
      → All IsStrict us
      → (round_body fl us deadline r g p).1 ≡ inr (found label s t)
      → Sighting p.cfg us label s r
  unfolding round_body
  round_body-found us deadline r g p label s t strict h =
      let remaining = (deadline - r.measured_at) / ms in
      elim (Bool-cases (remaining == 0)) [
        | inl late ↦ absurd (cc (rw late at h))
        | inr early ↦
            let timeout = smaller remaining 300 in
            let (out, face, gives, shows, accepted) =
              after_frame-found us r.answered_at g (process_one_frame fl r.shot timeout true p)
                label s t strict (rw early at h) in
            (
              p,
              timeout,
              out,
              face,
              gives,
              subst (λ cfg. Shows cfg out face) (process_one_frame-cfg fl r.shot timeout true p)
                  shows,
              accepted,
            )
      ]

  next_round-found :
      (go_on : Progress → Pipeline → Pipeline × LoopEnd) (x : Pipeline × (Progress ⊎ LoopEnd))
      (label : Str) (s t : ℕ)
      → (next_round fl go_on x).1 ≡ found label s t
      → (x.1 ≡ inr (found label s t)) ⊎ ((g : Progress) × ((go_on g x.0).1 ≡ found label s t))
  unfolding next_round
  next_round-found go_on (p, inl g) label s t h = inr (g, h)
  next_round-found go_on (p, inr end) label s t h = inl (cc h)

  pub auth_loop-found :
      (us : List UserEnrollment) (deadline : ℕ) (rs : List Round) (g : Progress) (p : Pipeline)
      (label : Str) (s t : ℕ)
      → All IsStrict us
      → (auth_loop fl us deadline rs g p).1 ≡ found label s t
      → Any (Sighting p.cfg us label s) rs
  unfolding auth_loop
  auth_loop-found us deadline [] g p label s t strict h = absurd (cc h)
  auth_loop-found us deadline (r ∷ rs) g p label s t strict h =
      let x = round_body fl us deadline r g p in
      elim (Bool-cases (ltb r.tested_at deadline)) [
        | inr late ↦ absurd (cc (rw late at h))
        | inl early ↦
            elim (next_round-found (λ g' p'. auth_loop fl us deadline rs g' p') x label s t
              (rw early at h)) [
                | inl here ↦ inl (round_body-found us deadline r g p label s t strict here)
                | inr (g', there) ↦ inr (
                    subst (λ cfg. Any (Sighting cfg us label s) rs)
                      (round_body-cfg us deadline r g p)
                      (auth_loop-found us deadline rs g' x.0 label s t strict there))
              ]
      ]
