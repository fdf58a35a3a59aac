-- ===== src/Encoding/File/Laws.antt =====
-- What a saved FA01 file holds, and what a loaded one looks like.
use mathlib.Core.List.{flatten}
use native.Mathlib.Nat.{mod-eq_of_lt}
use chowdy.Base.{
  ℕ, zero, suc, ◌*◌, ◌^◌, ◌<◌, ◌≤◌, ◌≡◌, refl, ap, ◌⊎◌, true, false, none, some, List, [], ◌∷◌,
  ◌++◌, arith, append-nil, append_assoc, length, length-append, take-append, drop-append, All, map,
}
use chowdy.Base.Bytes.{le_bytes, length-le_bytes, le_value-le_bytes}
use chowdy.Encoding.Embedding.{Embedding, emb_dim, u32}
use chowdy.Encoding.File.{
  EnrollmentFile, Header, file_magic, file_version, max_embeddings, header_chunks, floats_to_bytes,
  bytes_to_floats, read_all, read_header, read_embeddings, parse_enrollment, created_or_now,
  header_ok,
}

-- The bytes that `save_enrollment` writes when every write succeeds.
unfoldable pub enrollment_bytes : ℕ → EnrollmentFile → List ℕ
enrollment_bytes now e = flatten (header_chunks now e) ++ flatten (map floats_to_bytes e.embeddings)

abbrev pub IsFloat : ℕ → Type 0
IsFloat x = x < 2 ^ 32

abbrev pub IsEmbedding : Embedding → Type 0
IsEmbedding v = (length v ≡ emb_dim) × All IsFloat v

-- The fields fit their C++ types, and every vector has `kEmbDim` floats.
pub record IsTyped (e : EnrollmentFile) : Type 0 where
  pub id_fits : e.embedder_id < 2 ^ 32
  pub created_fits : e.created < 2 ^ 64
  pub threshold_fits : e.threshold < 2 ^ 32
  pub vectors : All IsEmbedding e.embeddings

read_all-append : (n : ℕ) (bs t : List ℕ) → length bs ≡ n → read_all n (bs ++ t) ≡ some (bs, t)
unfolding read_all
read_all-append n bs t h =
    ground (arith, length-append bs t, take-append bs t n h, drop-append bs t n h)

pub length-floats_to_bytes : (v : Embedding) → length (floats_to_bytes v) ≡ 4 * length v
unfolding floats_to_bytes
length-floats_to_bytes [] = refl
length-floats_to_bytes (x ∷ v) = omega (
  arith,
  length-append (le_bytes 4 x) (floats_to_bytes v),
  length-le_bytes 4 x,
  length-floats_to_bytes v,
)

bytes_to_floats-floats_to_bytes :
    (n : ℕ) (v : Embedding)
    → length v ≡ n
    → All IsFloat v
    → bytes_to_floats n (floats_to_bytes v) ≡ v
unfolding bytes_to_floats floats_to_bytes
bytes_to_floats-floats_to_bytes zero [] e h = refl
bytes_to_floats-floats_to_bytes zero (x ∷ v) e h = absurd (omega arith)
bytes_to_floats-floats_to_bytes (suc n) [] e h = absurd (omega arith)
bytes_to_floats-floats_to_bytes (suc n) (x ∷ v) e h =
    rw (take-append (le_bytes 4 x) (floats_to_bytes v) 4 (length-le_bytes 4 x)) (
      rw (drop-append (le_bytes 4 x) (floats_to_bytes v) 4 (length-le_bytes 4 x)) (
        rw (le_value-le_bytes 4 x h.0)
          (ap (◌∷◌ x) (bytes_to_floats-floats_to_bytes n v (omega arith) h.1))))

read_embeddings-flatten :
    (vs : List Embedding) (t : List ℕ)
    → All IsEmbedding vs
    → read_embeddings (length vs) (flatten (map floats_to_bytes vs) ++ t) ≡ some (vs, t)
unfolding read_embeddings flatten
read_embeddings-flatten [] t h = refl
read_embeddings-flatten (v ∷ vs) t h =
    rw (append_assoc (floats_to_bytes v) (flatten (map floats_to_bytes vs)) t) (
      rw
        (read_all-append (4 * emb_dim) (floats_to_bytes v) _
          (omega (arith, length-floats_to_bytes v)))
        (rw (read_embeddings-flatten vs t h.1)
          (rw (bytes_to_floats-floats_to_bytes emb_dim v h.0.0 h.0.1))))

read_all-le_bytes : (n v : ℕ) (t : List ℕ) → read_all n (le_bytes n v ++ t) ≡ some (le_bytes n v, t)
read_all-le_bytes n v t = read_all-append n (le_bytes n v) t (length-le_bytes n v)

created_or_now-lt :
    (now : ℕ) (e : EnrollmentFile)
    → now < 2 ^ 64
    → e.created < 2 ^ 64
    → created_or_now now e < 2 ^ 64
unfolding created_or_now
created_or_now-lt now e h k = ground arith

header_of : ℕ → EnrollmentFile → Header
header_of now e = record {
  magic = file_magic;
  ver = file_version;
  created = created_or_now now e;
  embedder_id = e.embedder_id;
  threshold = e.threshold;
  n = length e.embeddings;
}

read_header-header_chunks :
    (now : ℕ) (e : EnrollmentFile) (t : List ℕ)
    → now < 2 ^ 64
    → IsTyped e
    → length e.embeddings < 2 ^ 32
    → read_header (flatten (header_chunks now e) ++ t) ≡ some (header_of now e, t)
unfolding read_header header_chunks header_of flatten
read_header-header_chunks now e t h k l =
    simp (append_assoc, read_all-le_bytes)
      (cc (
        le_value-le_bytes 4 file_magic (omega arith),
        le_value-le_bytes 2 file_version (omega arith),
        le_value-le_bytes 8 (created_or_now now e) (created_or_now-lt now e h k.created_fits),
        le_value-le_bytes 4 e.embedder_id k.id_fits,
        le_value-le_bytes 4 e.threshold k.threshold_fits,
        le_value-le_bytes 4 (u32 (length e.embeddings)) (omega arith),
        mod-eq_of_lt l,
      ))

-- Reading back what was written gives the enrollment, with the time of the write in place of a zero
-- `created`, if it has between 1 and 1000 embeddings.
pub parse-enrollment_bytes :
    (now : ℕ) (e : EnrollmentFile)
    → now < 2 ^ 64
    → IsTyped e
    → 0 < length e.embeddings
    → length e.embeddings ≤ max_embeddings
    → parse_enrollment (enrollment_bytes now e) ≡ some (record e { created = created_or_now now e })
unfolding parse_enrollment enrollment_bytes header_of
parse-enrollment_bytes now e h k lo hi =
    let in_range : header_ok file_magic file_version (length e.embeddings) ≡ true =
      unfold header_ok in ground arith in
    rw (read_header-header_chunks now e _ h k (omega arith)) (
      rw in_range (
        rw (← append-nil (flatten (map floats_to_bytes e.embeddings)))
          (rw (read_embeddings-flatten e.embeddings [] k.vectors))))

-- A file with no embedding, or with more than 1000, is written but never read back.
pub parse-enrollment_bytes_refused :
    (now : ℕ) (e : EnrollmentFile)
    → now < 2 ^ 64
    → IsTyped e
    → length e.embeddings < 2 ^ 32
    → (length e.embeddings ≡ 0) ⊎ (max_embeddings < length e.embeddings)
    → parse_enrollment (enrollment_bytes now e) ≡ none
unfolding parse_enrollment enrollment_bytes header_of
parse-enrollment_bytes_refused now e h k l out =
    let out_of_range : header_ok file_magic file_version (length e.embeddings) ≡ false =
      unfold header_ok in ground arith in
    rw (read_header-header_chunks now e _ h k l) (rw out_of_range)
