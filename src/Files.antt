-- ===== src/Files.antt =====
-- The part of the host's file system that the daemon uses through `std::filesystem`: directories
-- by name, and regular files by directory and file name. A name holds no '/'.
use chowdy.Base.{
  ℕ, ◌≡◌, refl, ap, ◌↔◌, inl, inr, Bool, true, false, ◌&&◌, Option, List, [], ◌∷◌, ◌++◌, arith, Str,
  codes, Eq, ◌==◌, Str-Eq, Bool-cases, length-append, str_eq, str_eq_iff, if◌then◌else◌, length,
}
use chowdy.Base.Dict.{lookup}

pub record FilePath : Type 0 where
  pub dir : Str
  pub name : Str

unfoldable pub path_eq : FilePath → FilePath → Bool
path_eq p q = str_eq p.dir q.dir && str_eq p.name q.name

pub path_eq_iff : (p q : FilePath) → (path_eq p q ≡ true) ↔ (p ≡ q)
unfolding path_eq
path_eq_iff p q = ground (arith, str_eq_iff p.dir q.dir, str_eq_iff p.name q.name)

instance abbrev pub FilePath-Eq : Eq FilePath
FilePath-Eq = record { same = path_eq; same_iff = path_eq_iff }

pub record File : Type 0 where
  pub content : List ℕ
  pub mtime : ℕ

-- `now` is the clock that stamps what is written.
pub record FileSystem : Type 0 where
  pub dirs : List Str
  pub files : List (FilePath × File)
  pub now : ℕ

unfoldable pub has_dir : Str → List Str → Bool
has_dir d [] = false
has_dir d (x ∷ xs) = if x == d then true else has_dir d xs

-- `create_directories`
unfoldable pub create_directories : Str → FileSystem → FileSystem
unfolding has_dir
create_directories d fs = record fs { dirs = if has_dir d fs.dirs then fs.dirs else d ∷ fs.dirs }

unfoldable pub read_file : FilePath → FileSystem → Option File
read_file p fs = lookup p fs.files

abbrev pub enc_suffix : Str
enc_suffix = codes ".enc"

-- `name.extension() == ".enc"`: the name ends in ".enc", and something stands before it.
unfoldable pub has_enc_extension : Str → Bool
has_enc_extension [] = false
has_enc_extension (c ∷ name) =
    let longer = has_enc_extension name in if name == enc_suffix then true else longer

-- `name.stem()` of a name with that extension.
unfoldable pub stem : Str → Str
stem [] = []
stem (c ∷ name) = let rest = stem name in if name == enc_suffix then c ∷ [] else c ∷ rest

longer_than_enc : (c : ℕ) (label : Str) → str_eq ((c ∷ label) ++ enc_suffix) enc_suffix ≡ false
longer_than_enc c label = elim (Bool-cases (str_eq ((c ∷ label) ++ enc_suffix) enc_suffix)) [
  | inl same ↦ absurd (
      omega (
        arith,
        length-append (c ∷ label) enc_suffix,
        ap length ((str_eq_iff ((c ∷ label) ++ enc_suffix) enc_suffix).0 same),
      ))
  | inr differ ↦ differ
]

-- A label's file name, `label + ".enc"`, has the extension, and its stem is the label again.
pub stem-append-enc :
    (c : ℕ) (label : Str)
    → (has_enc_extension ((c ∷ label) ++ enc_suffix) ≡ true)
      × (stem ((c ∷ label) ++ enc_suffix) ≡ c ∷ label)
unfolding has_enc_extension stem
stem-append-enc c [] = unfold str_eq in (refl, refl)
stem-append-enc c (d ∷ label) =
    rw (longer_than_enc d label)
      ((stem-append-enc d label).0, ap (◌∷◌ c) (stem-append-enc d label).1)
