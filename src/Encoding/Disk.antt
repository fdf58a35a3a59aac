-- ===== src/Encoding/Disk.antt =====
-- common/encoding.cpp: `save_enrollment` on the file system, every failure of the host included.
pub mod Atomic
pub mod Effect
pub mod Loss
use chowdy.Base.{
  take, ℕ, zero, suc, ◌≡◌, Bool, true, false, not, List, [], ◌∷◌, ◌++◌, length, Str, codes, Result,
  ok, err, ◌==◌, ℕ-Eq, if◌then◌else◌,
}
use chowdy.Base.Dict.{insert, erase}
use chowdy.Files.{FilePath, FilePath-Eq, File, FileSystem, create_directories}
use chowdy.Encoding.Embedding.{Embedding, emb_dim}
use chowdy.Encoding.File.{EnrollmentFile, header_chunks, floats_to_bytes}

-- How the host answers the calls of one `save_enrollment`: whether the temporary file opens, which
-- of the numbered writes to the stream succeed, how many bytes of the file are on the disk when the
-- stream has been closed (it is buffered, and its destructor reports nothing), and whether the rename
-- succeeds.
pub record DiskIo : Type 0 where
  pub opens : Bool
  pub writes : ℕ → Bool
  pub flushed : ℕ
  pub renames : Bool
  pub rename_message : Str

-- The content written so far, with the number of the next write or the exception.
abbrev pub Written : Type 0
Written = List ℕ × Result ℕ

-- The header writes: `write_all` throws when the stream fails.
unfoldable pub write_chunks : (ℕ → Bool) → ℕ → List ℕ → List (List ℕ) → Written
write_chunks writes i out [] = (out, ok i)
write_chunks writes i out (c ∷ cs) =
    let rest = write_chunks writes (suc i) (out ++ c) cs in
    if writes i then rest else (out, err (codes "write failed"))

-- The loop over the embeddings, each checked before it is written.
unfoldable pub write_embeddings : (ℕ → Bool) → ℕ → List ℕ → List Embedding → Written
write_embeddings writes i out [] = (out, ok i)
write_embeddings writes i out (v ∷ vs) =
    let rest = write_embeddings writes (suc i) (out ++ floats_to_bytes v) vs in
    if not (length v == emb_dim)
    then (out, err (codes "embedding wrong dim"))
    else if writes i
    then rest
    else (out, err (codes "write failed"))

then_embeddings : (ℕ → Bool) → List Embedding → Written → Written
unfolding write_embeddings
then_embeddings writes vs (out, ok i) = write_embeddings writes i out vs
then_embeddings writes vs (out, err what) = (out, err what)

-- The block that fills the temporary file.
unfoldable pub write_enrollment : (ℕ → Bool) → ℕ → EnrollmentFile → Written
unfolding write_chunks then_embeddings
write_enrollment writes now e =
    then_embeddings writes e.embeddings (write_chunks writes 0 [] (header_chunks now e))

abbrev pub tmp_path : FilePath → FilePath
tmp_path p = record p { name = p.name ++ codes ".tmp" }

abbrev pub put_file : FilePath → List ℕ → FileSystem → FileSystem
put_file p content fs = record fs {
  files = insert p (record { content = content; mtime = fs.now }) fs.files;
}

-- `rename(tmp, path)`, then the check of `ec`.
rename_over : DiskIo → FileSystem → FilePath → List ℕ → FileSystem × Result (Unit {0})
rename_over io fs p content =
    if io.renames
    then (
      record (put_file p content fs) { files = erase (tmp_path p) (put_file p content fs).files },
      ok tt,
    )
    else (fs, err (codes "rename: " ++ io.rename_message))

-- An exception inside the block leaves the temporary file behind; otherwise it is renamed.
after_write : DiskIo → FileSystem → FilePath → Written → FileSystem × Result (Unit {0})
unfolding rename_over
after_write io fs p (out, ok i) =
    rename_over io (put_file (tmp_path p) (take io.flushed out) fs) p (take io.flushed out)
after_write io fs p (out, err what) = (put_file (tmp_path p) (take io.flushed out) fs, err what)

unfoldable pub save_enrollment :
    DiskIo → FileSystem → FilePath → EnrollmentFile → FileSystem × Result (Unit {0})
unfolding write_enrollment after_write
save_enrollment io fs p e =
    let fs' = create_directories p.dir fs in
    if io.opens then after_write io fs' p (write_enrollment io.writes fs.now e) else (
      fs',
      err (codes "cannot open " ++ p.dir ++ codes "/" ++ (tmp_path p).name ++ codes " for write"),
    )
