-- ===== src/Encoding/File.antt =====
-- common/encoding.cpp: the bytes of an FA01 file, as `save_enrollment` writes them and
-- `load_enrollment` reads them back.
pub mod Laws
pub mod Truncation
use chowdy.Base.{
  ℕ, zero, suc, ◌*◌, ◌≡◌, Bool, true, false, ◌&&◌, ◌||◌, not, Option, none, some, List, [], ◌∷◌,
  ◌++◌, length, take, drop, Str, codes, Result, ok, err, ◌==◌, ℕ-Eq, ltb, leb, if◌then◌else◌,
}
use chowdy.Base.Bytes.{le_bytes, le_value}
use chowdy.Encoding.Embedding.{Embedding, emb_dim, u32}

abbrev pub file_magic : ℕ
file_magic = 0x3130_4146

abbrev pub file_version : ℕ
file_version = 1

abbrev pub max_embeddings : ℕ
max_embeddings = 1000

-- Fixed widths: uint32_t, uint64_t, float.
pub record EnrollmentFile : Type 0 where
  pub embedder_id : ℕ
  pub created : ℕ
  pub threshold : ℕ
  pub embeddings : List Embedding

-- `v.data()`, as bytes.
unfoldable pub floats_to_bytes : Embedding → List ℕ
floats_to_bytes [] = []
floats_to_bytes (x ∷ xs) = le_bytes 4 x ++ floats_to_bytes xs

unfoldable pub bytes_to_floats : ℕ → List ℕ → Embedding
bytes_to_floats zero bs = []
bytes_to_floats (suc n) bs = le_value (take 4 bs) ∷ bytes_to_floats n (drop 4 bs)

-- `e.created != 0 ? e.created : time(nullptr)`
unfoldable pub created_or_now : ℕ → EnrollmentFile → ℕ
created_or_now now e = if e.created == 0 then now else e.created

-- The six header writes.
unfoldable pub header_chunks : ℕ → EnrollmentFile → List (List ℕ)
unfolding created_or_now
header_chunks now e =
    le_bytes 4 file_magic
    ∷ le_bytes 2 file_version
    ∷ le_bytes 8 (created_or_now now e)
    ∷ le_bytes 4 e.embedder_id
    ∷ le_bytes 4 e.threshold
    ∷ le_bytes 4 (u32 (length e.embeddings))
    ∷ []

-- `read_all`: the next `n` bytes, or a failure at the end of the file.
unfoldable pub read_all : ℕ → List ℕ → Option (List ℕ × List ℕ)
read_all n bs = if ltb (length bs) n then none else some (take n bs, drop n bs)

infixl 5 ◌>>=◌
abbrev pub ◌>>=◌ {ℓ κ} : {A : Type ℓ} {B : Type κ} → Option A → (A → Option B) → Option B
none >>= f = none
some a >>= f = f a

-- The loop over the embeddings.
unfoldable pub read_embeddings : ℕ → List ℕ → Option (List Embedding × List ℕ)
read_embeddings zero bs = some ([], bs)
read_embeddings (suc n) bs = do
  (chunk, rest) ← read_all (4 * emb_dim) bs
  (more, rest') ← read_embeddings n rest
  some (bytes_to_floats emb_dim chunk ∷ more, rest')

-- The checks after the header is read.
unfoldable pub header_ok : ℕ → ℕ → ℕ → Bool
header_ok magic ver n =
    not (not (magic == file_magic) || not (ver == file_version))
    && not (n == 0 || ltb max_embeddings n)

pub record Header : Type 0 where
  pub magic : ℕ
  pub ver : ℕ
  pub created : ℕ
  pub embedder_id : ℕ
  pub threshold : ℕ
  pub n : ℕ

-- The six header reads.
unfoldable pub read_header : List ℕ → Option (Header × List ℕ)
read_header bs = do
  (magic, bs₁) ← read_all 4 bs
  (ver, bs₂) ← read_all 2 bs₁
  (created, bs₃) ← read_all 8 bs₂
  (embedder_id, bs₄) ← read_all 4 bs₃
  (threshold, bs₅) ← read_all 4 bs₄
  (n, bs₆) ← read_all 4 bs₅
  some (
    record {
      magic = le_value magic;
      ver = le_value ver;
      created = le_value created;
      embedder_id = le_value embedder_id;
      threshold = le_value threshold;
      n = le_value n;
    },
    bs₆,
  )

finish_load : Header → List Embedding × List ℕ → Option EnrollmentFile
finish_load h (embeddings, rest) = some (record {
  embedder_id = h.embedder_id;
  created = h.created;
  threshold = h.threshold;
  embeddings = embeddings;
})

load_body : Header × List ℕ → Option EnrollmentFile
unfolding header_ok finish_load
load_body (h, rest) =
    if header_ok h.magic h.ver h.n then read_embeddings h.n rest >>= finish_load h else none

-- The body of `load_enrollment` on the content of a file that could be opened.
unfoldable pub parse_enrollment : List ℕ → Option EnrollmentFile
unfolding load_body
parse_enrollment bs = read_header bs >>= load_body

-- `none` is a file that cannot be opened.
unfoldable pub load_enrollment : Option (List ℕ) → Option EnrollmentFile
unfolding parse_enrollment
load_enrollment content = content >>= parse_enrollment
