-- ===== src/Encoding/Disk/Effect.antt =====
-- The shape of the file system after `save_enrollment`, for clients that scan directories.
use chowdy.Base.{◌≡◌, refl, Bool-cases, inl, inr, Str, Result, ok, err}
use chowdy.Base.Dict.{insert, erase}
use chowdy.Files.{FilePath, FilePath-Eq, File, FileSystem, create_directories}
use chowdy.Encoding.File.{EnrollmentFile}
use chowdy.Encoding.Disk.{
  DiskIo, Written, write_enrollment, tmp_path, rename_over, after_write, save_enrollment,
}

-- `renamed` is a save that succeeds; the others throw.
pub data SaveEffect (fs : FileSystem) (p : FilePath) (fs' : FileSystem) (r : Result (Unit {0}))
    : Type 0 where
  unopened : (what : Str) → r ≡ err what → fs' ≡ create_directories p.dir fs → SaveEffect fs p fs' r
  left_over :
      (what : Str) (f : File)
      → r ≡ err what
      → fs' ≡ record (create_directories p.dir fs) { files = insert (tmp_path p) f fs.files }
      → SaveEffect fs p fs' r
  renamed :
      (f g : File)
      → r ≡ ok tt
      → fs' ≡ record (create_directories p.dir fs) {
        files = erase (tmp_path p) (insert p f (insert (tmp_path p) g fs.files));
      }
      → SaveEffect fs p fs' r

after_write-SaveEffect :
    (io : DiskIo) (fs : FileSystem) (p : FilePath) (w : Written)
    → let (fs', r) = after_write io (create_directories p.dir fs) p w in SaveEffect fs p fs' r
unfolding after_write rename_over create_directories
after_write-SaveEffect io fs p (out, ok i) = elim (Bool-cases io.renames) [
  | inl done ↦ rw done (renamed _ _ refl refl)
  | inr failed ↦ rw failed (left_over _ _ refl refl)
]
after_write-SaveEffect io fs p (out, err what) = left_over what _ refl refl

pub save_enrollment-SaveEffect :
    (io : DiskIo) (fs : FileSystem) (p : FilePath) (e : EnrollmentFile)
    → let (fs', r) = save_enrollment io fs p e in SaveEffect fs p fs' r
unfolding save_enrollment
save_enrollment-SaveEffect io fs p e = elim (Bool-cases io.opens) [
  | inl opened ↦ rw opened (after_write-SaveEffect io fs p (write_enrollment io.writes fs.now e))
  | inr failed ↦ rw failed (unopened _ refl refl)
]
