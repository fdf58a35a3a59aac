-- ===== src/Encoding/File/Truncation.antt =====
-- What `load_enrollment` reads of a file, and files that are cut off.
use mathlib.Core.Path.{subst}
use mathlib.Core.List.{flatten}
use chowdy.Base.Bytes.{length-le_bytes}
use chowdy.Encoding.File.{header_chunks, floats_to_bytes, created_or_now}
use chowdy.Encoding.File.Laws.{
  IsTyped, IsEmbedding, enrollment_bytes, length-floats_to_bytes, parse-enrollment_bytes,
}
use chowdy.Base.{
  map, ◌^◌, ◌<◌, sym, ◌∙◌, take-append-drop, length-take_le, Bool-cases, inl, inr, Option-cases,
  true, ℕ, zero, suc, ◌+◌, ◌*◌, ◌≤◌, ◌≡◌, refl, ap, Option, none, some, List, [], ◌∷◌, ◌++◌, arith,
  length, length-append, take, drop, length-drop, All,
}
use chowdy.Encoding.File.{
  Header, EnrollmentFile, max_embeddings, read_header, load_body, parse_enrollment, header_ok,
  finish_load,
}
use chowdy.Encoding.Embedding.{Embedding, emb_dim}
use chowdy.Encoding.File.{bytes_to_floats, read_all, read_embeddings, ◌>>=◌}

take-append_short {ℓ} :
    {A : Type ℓ} (n : ℕ) (xs ys : List A) → n ≤ length xs → take n (xs ++ ys) ≡ take n xs
take-append_short zero xs ys h = refl
take-append_short (suc n) [] ys h = absurd (omega arith)
take-append_short (suc n) (x ∷ xs) ys h = ap (◌∷◌ x) (take-append_short n xs ys (omega arith))

drop-append_short {ℓ} :
    {A : Type ℓ} (n : ℕ) (xs ys : List A) → n ≤ length xs → drop n (xs ++ ys) ≡ drop n xs ++ ys
drop-append_short zero xs ys h = refl
drop-append_short (suc n) [] ys h = absurd (omega arith)
drop-append_short (suc n) (x ∷ xs) ys h = drop-append_short n xs ys (omega arith)

read_all-extend :
    (n : ℕ) (p t : List ℕ) {a q : List ℕ}
    → read_all n p ≡ some (a, q)
    → read_all n (p ++ t) ≡ some (a, q ++ t)
unfolding read_all
read_all-extend n p t h =
    ground (arith, length-append p t, take-append_short n p t, drop-append_short n p t)

read_all-length :
    (n : ℕ) (p : List ℕ) {a q : List ℕ} → read_all n p ≡ some (a, q) → length p ≡ n + length q
unfolding read_all
read_all-length n p h = ground (arith, length-drop n p)

-- The parts of a read in sequence.
>>=-some {ℓ κ} :
    {A : Type ℓ} {B : Type κ} (m : Option A) (f : A → Option B) {b : B}
    → (m >>= f) ≡ some b
    → (a : A) × (m ≡ some a) × (f a ≡ some b)
>>=-some none f h = cc
>>=-some (some a) f h = (a, refl, h)

length-bytes_to_floats : (n : ℕ) (bs : List ℕ) → length (bytes_to_floats n bs) ≡ n
unfolding bytes_to_floats
length-bytes_to_floats zero bs = refl
length-bytes_to_floats (suc n) bs = ap suc (length-bytes_to_floats n (drop 4 bs))

-- The embeddings read, their number and length, and the bytes that they take.
record ReadsEmbeddings (n : ℕ) (p : List ℕ) (vs : List Embedding) (q : List ℕ) : Type 0 where
  count : length vs ≡ n
  vectors : All (λ v. length v ≡ emb_dim) vs
  bytes : length p ≡ 4 * emb_dim * n + length q
  extend : (t : List ℕ) → read_embeddings n (p ++ t) ≡ some (vs, q ++ t)

read_embeddings-ReadsEmbeddings :
    (n : ℕ) (p : List ℕ) (vs : List Embedding) (q : List ℕ)
    → read_embeddings n p ≡ some (vs, q)
    → ReadsEmbeddings n p vs q
unfolding read_embeddings
read_embeddings-ReadsEmbeddings zero p vs q h = record {
  count = ground arith;
  vectors = ground arith;
  bytes = ground arith;
  extend = λ t. ground arith;
}
read_embeddings-ReadsEmbeddings (suc n) p vs q h =
    let (a, first, more) = >>=-some (read_all (4 * emb_dim) p) _ h in
    let (b, rest, done) = >>=-some (read_embeddings n a.1) _ more in
    let ih : ReadsEmbeddings n a.1 b.0 b.1 = read_embeddings-ReadsEmbeddings n a.1 b.0 b.1 rest in
    record {
      count = ground (arith, ih.count);
      vectors = ground (arith, ih.vectors, length-bytes_to_floats emb_dim a.0);
      bytes = ground (arith, ih.bytes, read_all-length (4 * emb_dim) p first);
      extend = λ t. ground (arith, read_all-extend (4 * emb_dim) p t first, ih.extend t);
    }

abbrev pub header_size : ℕ
header_size = 26

read_header-length :
    (p : List ℕ) (h : Header) (q : List ℕ)
    → read_header p ≡ some (h, q)
    → length p ≡ header_size + length q
unfolding read_header
read_header-length p h q e =
    let (a, ra, e₁) = >>=-some (read_all 4 p) _ e in
    let (b, rb, e₂) = >>=-some (read_all 2 a.1) _ e₁ in
    let (c, rc, e₃) = >>=-some (read_all 8 b.1) _ e₂ in
    let (d, rd, e₄) = >>=-some (read_all 4 c.1) _ e₃ in
    let (f, rf, e₅) = >>=-some (read_all 4 d.1) _ e₄ in
    let (g, rg, e₆) = >>=-some (read_all 4 f.1) _ e₅ in
    ground (
      arith,
      read_all-length 4 p ra,
      read_all-length 2 a.1 rb,
      read_all-length 8 b.1 rc,
      read_all-length 4 c.1 rd,
      read_all-length 4 d.1 rf,
      read_all-length 4 f.1 rg,
    )

-- A read that goes on as it did when bytes are appended, after a `read_all`.
read_all->>=-extend {ℓ} :
    {A : Type ℓ} (n : ℕ) (p t : List ℕ) (f : List ℕ × List ℕ → Option (A × List ℕ)) (a : A)
    (r : List ℕ)
    → ((b q : List ℕ) → f (b, q) ≡ some (a, r) → f (b, q ++ t) ≡ some (a, r ++ t))
    → (read_all n p >>= f) ≡ some (a, r)
    → (read_all n (p ++ t) >>= f) ≡ some (a, r ++ t)
read_all->>=-extend n p t f a r step e =
    let (x, reads, goes) = >>=-some (read_all n p) f e in
    rw (read_all-extend n p t reads) (step x.0 x.1 goes)

read_header-extend :
    (p t : List ℕ) (h : Header) (q : List ℕ)
    → read_header p ≡ some (h, q)
    → read_header (p ++ t) ≡ some (h, q ++ t)
unfolding read_header
read_header-extend p t h q = read_all->>=-extend 4 p t _ h q λ a p₁.
    read_all->>=-extend 2 p₁ t _ h q λ b p₂. read_all->>=-extend 8 p₂ t _ h q λ c p₃.
      read_all->>=-extend 4 p₃ t _ h q λ d p₄.
        read_all->>=-extend 4 p₄ t _ h q
          λ f p₅. read_all->>=-extend 4 p₅ t _ h q λ g p₆ e. ground arith

-- What every enrollment that was loaded satisfies, and what its file holds.
pub record IsLoaded (e : EnrollmentFile) (p : List ℕ) : Type 0 where
  pub some_embedding : 0 < length e.embeddings
  pub few_embeddings : length e.embeddings ≤ max_embeddings
  pub vectors : All (λ v. length v ≡ emb_dim) e.embeddings
  pub complete : header_size + 4 * emb_dim * length e.embeddings ≤ length p
  pub extend : (t : List ℕ) → parse_enrollment (p ++ t) ≡ some e

header_ok-range : (magic ver n : ℕ) → header_ok magic ver n ≡ true → (0 < n) × (n ≤ max_embeddings)
unfolding header_ok
header_ok-range magic ver n h = ground arith

load_body-good :
    (h : Header) (q : List ℕ)
    → header_ok h.magic h.ver h.n ≡ true
    → load_body (h, q) ≡ (read_embeddings h.n q >>= finish_load h)
unfolding load_body
load_body-good h q good = rw good

finish_load-rest :
    (h : Header) (vs : List Embedding) (q r : List ℕ) {e : EnrollmentFile}
    → finish_load h (vs, q) ≡ some e
    → finish_load h (vs, r) ≡ some e
unfolding finish_load
finish_load-rest h vs q r k = k

load_body-parts :
    (h : Header) (q : List ℕ) (e : EnrollmentFile)
    → load_body (h, q) ≡ some e
    → (header_ok h.magic h.ver h.n ≡ true)
      × (r : List ℕ) × (read_embeddings h.n q ≡ some (e.embeddings, r))
      × (finish_load h (e.embeddings, r) ≡ some e)
unfolding load_body
load_body-parts h q e k = elim (Bool-cases (header_ok h.magic h.ver h.n)) [
  | inl good ↦
      let body = sym (load_body-good h q good) ∙ k in
      let (a, reads, done) = >>=-some (read_embeddings h.n q) (finish_load h) body in
      (
        good,
        a.1,
        unfold finish_load in ground (arith, reads, done),
        unfold finish_load in ground (arith, done),
      )
  | inr bad ↦ ground (arith, k)
]

-- A file that parses has 1 to 1000 vectors of `kEmbDim` floats, all the bytes that its header
-- announces, and would parse to the same enrollment with anything appended.
pub parse_enrollment-IsLoaded :
    (p : List ℕ) (e : EnrollmentFile) → parse_enrollment p ≡ some e → IsLoaded e p
unfolding parse_enrollment
parse_enrollment-IsLoaded p e k =
    let ((h, q), head, body) = >>=-some (read_header p) _ k in
    let (good, r, reads, done) = load_body-parts h q e body in
    let shape : ReadsEmbeddings h.n q e.embeddings r =
      read_embeddings-ReadsEmbeddings h.n q e.embeddings r reads in
    let range : (0 < h.n) × (h.n ≤ max_embeddings) = header_ok-range h.magic h.ver h.n good in
    record {
      some_embedding = omega (arith, shape.count, range);
      few_embeddings = omega (arith, shape.count, range);
      vectors = shape.vectors;
      complete = rw shape.count (omega (arith, read_header-length p h q head, shape.bytes));
      extend = λ t. rw (read_header-extend p t h q head) (
          rw (load_body-good h (q ++ t) good)
            (rw (shape.extend t) (finish_load-rest h e.embeddings r (r ++ t) done)));
    }

truncated_refused :
    (p : List ℕ) (e : EnrollmentFile) (k : ℕ)
    → parse_enrollment p ≡ some e
    → length p ≡ header_size + 4 * emb_dim * length e.embeddings
    → k < length p
    → parse_enrollment (take k p) ≡ none
truncated_refused p e k whole exact cut = elim (Option-cases (parse_enrollment (take k p))) [
  | inl refused ↦ refused
  | inr (e', cut_parses) ↦
      let loaded : IsLoaded e' (take k p) = parse_enrollment-IsLoaded (take k p) e' cut_parses in
      let again : parse_enrollment p ≡ some e' =
        subst (λ b. parse_enrollment b ≡ some e') (take-append-drop k p)
          (loaded.extend (drop k p)) in
      let same : e' ≡ e = cc (again, whole) in
      absurd (
        omega (
          arith,
          loaded.complete,
          ap (λ (x : EnrollmentFile). 4 * emb_dim * length x.embeddings) same,
          length-take_le k p (omega arith),
        ))
]

length-flatten_embeddings :
    (vs : List Embedding)
    → All IsEmbedding vs
    → length (flatten (map floats_to_bytes vs)) ≡ 4 * emb_dim * length vs
unfolding flatten
length-flatten_embeddings [] h = omega arith
length-flatten_embeddings (v ∷ vs) h = omega (
  arith,
  length-append (floats_to_bytes v) (flatten (map floats_to_bytes vs)),
  length-floats_to_bytes v,
  h.0.0,
  length-flatten_embeddings vs h.1,
)

length-header_chunks :
    (now : ℕ) (e : EnrollmentFile) → length (flatten (header_chunks now e)) ≡ header_size
unfolding flatten header_chunks
length-header_chunks now e = simp (length-append, length-le_bytes)

pub length-enrollment_bytes :
    (now : ℕ) (e : EnrollmentFile)
    → IsTyped e
    → length (enrollment_bytes now e) ≡ header_size + 4 * emb_dim * length e.embeddings
unfolding enrollment_bytes
length-enrollment_bytes now e h = omega (
  arith,
  length-append (flatten (header_chunks now e)) (flatten (map floats_to_bytes e.embeddings)),
  length-header_chunks now e,
  length-flatten_embeddings e.embeddings h.vectors,
)

-- A saved file that is cut off at any byte before its end is refused by the loader.
pub truncated_save_refused :
    (now : ℕ) (e : EnrollmentFile) (k : ℕ)
    → now < 2 ^ 64
    → IsTyped e
    → 0 < length e.embeddings
    → length e.embeddings ≤ max_embeddings
    → k < length (enrollment_bytes now e)
    → parse_enrollment (take k (enrollment_bytes now e)) ≡ none
truncated_save_refused now e k t h lo hi cut =
    truncated_refused (enrollment_bytes now e) (record e { created = created_or_now now e }) k
      (parse-enrollment_bytes now e t h lo hi) (length-enrollment_bytes now e h) cut
