-- ===== src/Daemon/Store/Scan.antt =====
-- What a change of the file system does to the scan of a user's directory.
use mathlib.Core.Path.{subst}
use chowdy.Base.{
  ℕ, ◌≡◌, refl, ap, sym, List, [], ◌∷◌, ◌++◌, arith, Str, codes, str_eq, str_eq_iff, str_eq_refl,
  true, false, ◌&&◌, Bool-cases, inl, inr, if◌then◌else◌, Str-Eq, ◌==◌, length, length-append,
}
use chowdy.Base.Decimal.{decimal, decimal-injective}
use chowdy.Base.Dict.{insert, erase}
use chowdy.Files.{
  FilePath, FilePath-Eq, path_eq_iff, File, FileSystem, has_dir, create_directories,
  has_enc_extension, enc_suffix,
}
use chowdy.Daemon.Store.{uid_dir, enc_files, newest, latest_mtime, load_files, load_dir}

-- A path that the scan of `d` passes over.
abbrev pub Skips : Str → FilePath → Type 0
Skips d p = ((p.dir == d) && has_enc_extension p.name) ≡ false

pub enc_files-insert :
    (d : Str) (p : FilePath) (f : File) (files : List (FilePath × File))
    → Skips d p
    → enc_files d (insert p f files) ≡ enc_files d files
unfolding enc_files insert
enc_files-insert d p f [] h = rw h
enc_files-insert d p f ((q, g) ∷ files) h = elim (Bool-cases (q == p)) [
  | inl same ↦
      let skip : Skips d q = subst (Skips d) (sym ((path_eq_iff q p).0 same)) h in rw same (rw skip)
  | inr other ↦ rw other (
      ap (λ r. if q.dir == d && has_enc_extension q.name then (q.name, g) ∷ r else r)
        (enc_files-insert d p f files h))
]

pub enc_files-erase :
    (d : Str) (p : FilePath) (files : List (FilePath × File))
    → Skips d p
    → enc_files d (erase p files) ≡ enc_files d files
unfolding enc_files erase
enc_files-erase d p [] h = refl
enc_files-erase d p ((q, g) ∷ files) h = elim (Bool-cases (q == p)) [
  | inl same ↦
      let skip : Skips d q = subst (Skips d) (sym ((path_eq_iff q p).0 same)) h in
      rw same (rw skip (enc_files-erase d p files h))
  | inr other ↦ rw other (
      ap (λ r. if q.dir == d && has_enc_extension q.name then (q.name, g) ∷ r else r)
        (enc_files-erase d p files h))
]

-- Different users have different directories.
append_left_cancel : (base : Str) (s t : Str) → base ++ s ≡ base ++ t → s ≡ t
append_left_cancel [] s t e = e
append_left_cancel (c ∷ base) s t e = append_left_cancel base s t (ground (arith, e))

pub uid_dir-injective : (base : Str) (u v : ℕ) → uid_dir base u ≡ uid_dir base v → u ≡ v
unfolding uid_dir
uid_dir-injective base u v e =
    let tails : (b'/' ∷ decimal u) ≡ (b'/' ∷ decimal v) = append_left_cancel base _ _ e in
    decimal-injective u v (ground (arith, tails))

tmp-ne-enc : (s : Str) → str_eq (s ++ codes ".tmp") enc_suffix ≡ false
tmp-ne-enc [] = unfold str_eq in refl
tmp-ne-enc (c ∷ s) = elim (Bool-cases (str_eq ((c ∷ s) ++ codes ".tmp") enc_suffix)) [
  | inl same ↦ absurd (
      omega (
        arith,
        length-append (c ∷ s) (codes ".tmp"),
        ap length ((str_eq_iff ((c ∷ s) ++ codes ".tmp") enc_suffix).0 same),
      ))
  | inr differ ↦ differ
]

-- A temporary file is none of the directory's enrollments.
pub has_enc_extension-tmp : (s : Str) → has_enc_extension (s ++ codes ".tmp") ≡ false
unfolding has_enc_extension
has_enc_extension-tmp [] = unfold str_eq in refl
has_enc_extension-tmp (c ∷ s) = rw (tmp-ne-enc s) (has_enc_extension-tmp s)

-- The directories of the files exist.
abbrev pub HasDirs : List Str → List (FilePath × File) → Type 0
HasDirs ds [] = Unit
HasDirs ds ((p, f) ∷ files) = (has_dir p.dir ds ≡ true) × HasDirs ds files

pub has_dir-cons : (d x : Str) (ds : List Str) → has_dir d ds ≡ true → has_dir d (x ∷ ds) ≡ true
unfolding has_dir
has_dir-cons d x ds h = ground (arith, h)

-- A directory that does not exist has no file in it.
pub enc_files-missing :
    (d : Str) (ds : List Str) (files : List (FilePath × File))
    → HasDirs ds files
    → has_dir d ds ≡ false
    → enc_files d files ≡ []
unfolding enc_files
enc_files-missing d ds [] h m = refl
enc_files-missing d ds ((p, f) ∷ files) h m = elim (Bool-cases (p.dir == d)) [
  | inl same ↦
      let there : has_dir d ds ≡ true =
        subst (λ x. has_dir x ds ≡ true) ((str_eq_iff p.dir d).0 same) h.0 in
      cc (there, m)
  | inr other ↦ rw other (enc_files-missing d ds files h.1 m)
]

-- So the scans need not ask whether the directory exists.
abbrev pub IsRooted : FileSystem → Type 0
IsRooted fs = HasDirs fs.dirs fs.files

pub latest_mtime-IsRooted :
    (d : Str) (fs : FileSystem) → IsRooted fs → latest_mtime d fs ≡ newest 0 (enc_files d fs.files)
unfolding latest_mtime newest
latest_mtime-IsRooted d fs h = elim (Bool-cases (has_dir d fs.dirs)) [
  | inl there ↦ rw there
  | inr missing ↦ rw (missing, enc_files-missing d fs.dirs fs.files h missing)
]

pub load_dir-IsRooted :
    (d : Str) (fs : FileSystem) → IsRooted fs → load_dir d fs ≡ load_files (enc_files d fs.files)
unfolding load_dir load_files
load_dir-IsRooted d fs h = elim (Bool-cases (has_dir d fs.dirs)) [
  | inl there ↦ rw there
  | inr missing ↦ rw (missing, enc_files-missing d fs.dirs fs.files h missing)
]

pub HasDirs-insert :
    (ds : List Str) (p : FilePath) (f : File) (files : List (FilePath × File))
    → has_dir p.dir ds ≡ true
    → HasDirs ds files
    → HasDirs ds (insert p f files)
unfolding insert
HasDirs-insert ds p f [] t h = (t, tt)
HasDirs-insert ds p f ((q, g) ∷ files) t h = elim (Bool-cases (q == p)) [
  | inl same ↦ rw same h
  | inr other ↦ rw other (h.0, HasDirs-insert ds p f files t h.1)
]

pub HasDirs-erase :
    (ds : List Str) (p : FilePath) (files : List (FilePath × File))
    → HasDirs ds files
    → HasDirs ds (erase p files)
unfolding erase
HasDirs-erase ds p [] h = tt
HasDirs-erase ds p ((q, g) ∷ files) h = elim (Bool-cases (q == p)) [
  | inl same ↦ rw same (HasDirs-erase ds p files h.1)
  | inr other ↦ rw other (h.0, HasDirs-erase ds p files h.1)
]

HasDirs-cons :
    (ds : List Str) (d : Str) (files : List (FilePath × File))
    → HasDirs ds files
    → HasDirs (d ∷ ds) files
HasDirs-cons ds d [] h = tt
HasDirs-cons ds d ((q, g) ∷ files) h = (has_dir-cons q.dir d ds h.0, HasDirs-cons ds d files h.1)

pub create_directories-IsRooted :
    (d : Str) (fs : FileSystem)
    → IsRooted fs
    → IsRooted (create_directories d fs) × (has_dir d (create_directories d fs).dirs ≡ true)
unfolding create_directories
create_directories-IsRooted d fs h = elim (Bool-cases (has_dir d fs.dirs)) [
  | inl there ↦ rw there (h, there)
  | inr missing ↦
      rw missing (HasDirs-cons fs.dirs d fs.files h, unfold has_dir in rw (str_eq_refl d))
]
