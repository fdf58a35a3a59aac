-- ===== src/Encoding/Disk/Loss.antt =====
-- What can be read after a save, by how much of the file was flushed.
use chowdy.Base.{◌≤◌, ◌<◌, ◌^◌, ◌≡◌, ◌∙◌, ap, inl, inr, none, some, ok, length, take, take_all}
use chowdy.Files.{FilePath, File, FileSystem, read_file}
use chowdy.Encoding.File.{EnrollmentFile, parse_enrollment, created_or_now, max_embeddings}
use chowdy.Encoding.File.Laws.{IsTyped, enrollment_bytes, parse-enrollment_bytes}
use chowdy.Encoding.File.Truncation.{truncated_save_refused}
use chowdy.Encoding.Disk.{DiskIo, save_enrollment}
use chowdy.Encoding.Disk.Atomic.{save_enrollment_atomic}

-- After a save that succeeds and whose bytes were all flushed, the file at `p` loads as the enrollment,
-- with the time of the save in place of a zero `created`: if its fields fit their types and it has
-- between 1 and 1000 embeddings.
pub save_enrollment_readable :
    (io : DiskIo) (fs : FileSystem) (p : FilePath) (e : EnrollmentFile)
    → fs.now < 2 ^ 64
    → IsTyped e
    → 0 < length e.embeddings
    → length e.embeddings ≤ max_embeddings
    → length (enrollment_bytes fs.now e) ≤ io.flushed
    → (save_enrollment io fs p e).1 ≡ ok tt
    → (f : File) × (read_file p (save_enrollment io fs p e).0 ≡ some f)
      × (parse_enrollment f.content ≡ some (record e { created = created_or_now fs.now e }))
save_enrollment_readable io fs p e t h lo hi whole saved = elim (save_enrollment_atomic io fs p e) [
  | inr (what, failed, same) ↦ absurd (cc (failed, saved))
  | inl (done, there, dims) ↦ (
    record { content = take io.flushed (enrollment_bytes fs.now e); mtime = fs.now },
    there,
    ap parse_enrollment (take_all (enrollment_bytes fs.now e) io.flushed whole)
        ∙ parse-enrollment_bytes fs.now e t h lo hi,
  )
]

-- A save of such an enrollment can succeed though its last bytes were not flushed. The file at `p` is
-- then one that the loader refuses.
pub save_enrollment_lossy :
    (io : DiskIo) (fs : FileSystem) (p : FilePath) (e : EnrollmentFile)
    → fs.now < 2 ^ 64
    → IsTyped e
    → 0 < length e.embeddings
    → length e.embeddings ≤ max_embeddings
    → io.flushed < length (enrollment_bytes fs.now e)
    → (save_enrollment io fs p e).1 ≡ ok tt
    → (f : File) × (read_file p (save_enrollment io fs p e).0 ≡ some f)
      × (parse_enrollment f.content ≡ none)
save_enrollment_lossy io fs p e t h lo hi cut saved = elim (save_enrollment_atomic io fs p e) [
  | inr (what, failed, same) ↦ absurd (cc (failed, saved))
  | inl (done, there, dims) ↦ (
    record { content = take io.flushed (enrollment_bytes fs.now e); mtime = fs.now },
    there,
    truncated_save_refused fs.now e io.flushed t h lo hi cut,
  )
]
