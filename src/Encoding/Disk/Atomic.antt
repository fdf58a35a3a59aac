-- ===== src/Encoding/Disk/Atomic.antt =====
-- The files before and after `save_enrollment`.
use mathlib.Core.List.{flatten}
use chowdy.Base.{
  take, ℕ, suc, ◌≡◌, ◌≢◌, refl, ap, sym, ◌∙◌, ◌⊎◌, inl, inr, Bool, true, false, none, some, List,
  [], ◌∷◌, ◌++◌, map, arith, append_assoc, append-nil, Bool-cases, Str, codes, Result, ok, err,
  length, length-append, ◌==◌, if◌then◌else◌, All, nat_eq_iff, ℕ-Eq,
}
use chowdy.Base.Dict.{erase, lookup-insert, lookup-erase}
use chowdy.Files.{FilePath, FilePath-Eq, FileSystem, read_file, path_eq_iff, create_directories}
use chowdy.Encoding.Embedding.{Embedding, emb_dim}
use chowdy.Encoding.File.{EnrollmentFile, header_chunks, floats_to_bytes}
use chowdy.Encoding.File.Laws.{enrollment_bytes}
use chowdy.Encoding.Disk.{
  DiskIo, Written, write_chunks, write_embeddings, then_embeddings, write_enrollment, tmp_path,
  put_file, rename_over, after_write, save_enrollment,
}

-- The writes that succeed append the chunks in order.
write_chunks-out :
    (w : ℕ → Bool) (i : ℕ) (out : List ℕ) (cs : List (List ℕ)) {j : ℕ} {all : List ℕ}
    → write_chunks w i out cs ≡ (all, ok j)
    → all ≡ out ++ flatten cs
unfolding write_chunks flatten
write_chunks-out w i out [] h = ground (arith, append-nil out)
write_chunks-out w i out (c ∷ cs) {j} {all} h = elim (Bool-cases (w i)) [
  | inl good ↦
      write_chunks-out w (suc i) (out ++ c) cs {j = j} {all = all} (rw (good, write_chunks) at h)
      ∙ append_assoc out c (flatten cs)
  | inr bad ↦ ground (arith, bad, h)
]

write_embeddings-out :
    (w : ℕ → Bool) (i : ℕ) (out : List ℕ) (vs : List Embedding) {j : ℕ} {all : List ℕ}
    → write_embeddings w i out vs ≡ (all, ok j)
    → (all ≡ out ++ flatten (map floats_to_bytes vs)) × All (λ v. length v ≡ emb_dim) vs
unfolding write_embeddings flatten
write_embeddings-out w i out [] h = ground (arith, append-nil out)
write_embeddings-out w i out (v ∷ vs) {j} {all} h = elim (Bool-cases (length v == emb_dim)) [
  | inl fits ↦ elim (Bool-cases (w i)) [
    | inl good ↦
        let rest =
          write_embeddings-out w (suc i) (out ++ floats_to_bytes v) vs {j = j} {all = all}
            (rw (fits, good, write_embeddings) at h) in
        (rest.0 ∙ append_assoc out (floats_to_bytes v) _, ((nat_eq_iff _ _).0 fits, rest.1))
    | inr bad ↦ ground (arith, bad, h)
  ]
  | inr misfit ↦ ground (arith, misfit, h)
]

write_enrollment-out :
    (w : ℕ → Bool) (now : ℕ) (e : EnrollmentFile) {j : ℕ} {all : List ℕ}
    → write_enrollment w now e ≡ (all, ok j)
    → (all ≡ enrollment_bytes now e) × All (λ v. length v ≡ emb_dim) e.embeddings
unfolding write_enrollment then_embeddings enrollment_bytes
write_enrollment-out w now e {j} {all} h =
    then_out (write_chunks w 0 [] (header_chunks now e)) refl h
  where
    then_out :
        (r : Written)
        → write_chunks w 0 [] (header_chunks now e) ≡ r
        → then_embeddings w e.embeddings r ≡ (all, ok j)
        → (all ≡ enrollment_bytes now e) × All (λ v. length v ≡ emb_dim) e.embeddings
    then_out (out, ok i) wrote k =
        let (body, dims) = write_embeddings-out w i out e.embeddings k in
        (
          body
              ∙ ap (λ o. o ++ flatten (map floats_to_bytes e.embeddings))
                  (write_chunks-out w 0 [] _ wrote),
          dims,
        )
    then_out (out, err what) wrote k = cc

-- `p ++ ".tmp"` is another file.
tmp_path-ne : (p : FilePath) → (tmp_path p == p) ≡ false
tmp_path-ne p = elim (Bool-cases (tmp_path p == p)) [
  | inl same ↦ absurd (
      omega (
        arith,
        length-append p.name (codes ".tmp"),
        ap (λ (q : FilePath). length q.name) ((path_eq_iff (tmp_path p) p).0 same),
      ))
  | inr differ ↦ differ
]

path_eq_refl : (p : FilePath) → (p == p) ≡ true
path_eq_refl p = (path_eq_iff p p).1 refl

path_eq_ne : (p q : FilePath) → p ≢ q → (p == q) ≡ false
path_eq_ne p q n = elim (Bool-cases (p == q)) [
  | inl same ↦ absurd (n ((path_eq_iff p q).0 same))
  | inr differ ↦ differ
]

read_file-put_file :
    (p q : FilePath) (content : List ℕ) (fs : FileSystem)
    → read_file q (put_file p content fs)
      ≡ (if p == q then some (record { content = content; mtime = fs.now }) else read_file q fs)
unfolding read_file
read_file-put_file p q content fs = lookup-insert p q _ fs.files

read_file-rename :
    (p q : FilePath) (content : List ℕ) (fs : FileSystem)
    → read_file q (record (put_file p content fs) {
      files = erase (tmp_path p) (put_file p content fs).files;
    })
      ≡ (if tmp_path p == q then none else read_file q (put_file p content fs))
unfolding read_file
read_file-rename p q content fs = lookup-erase (tmp_path p) q _

read_file-create_directories :
    (d : Str) (q : FilePath) (fs : FileSystem)
    → read_file q (create_directories d fs) ≡ read_file q fs
unfolding read_file create_directories
read_file-create_directories d q fs = refl

-- What a save does to the file at `p`, in either outcome.
abbrev pub Saved :
    DiskIo → ℕ → FileSystem → FilePath → EnrollmentFile → FileSystem × Result (Unit {0}) → Type 0
Saved io now fs p e (fs', r) =
    ((r ≡ ok tt)
      × (read_file p fs'
          ≡ some (record { content = take io.flushed (enrollment_bytes now e); mtime = now }))
      × All (λ v. length v ≡ emb_dim) e.embeddings)
    ⊎ ((what : Str) × (r ≡ err what) × (read_file p fs' ≡ read_file p fs))

after_write-Saved :
    (io : DiskIo) (fs : FileSystem) (p : FilePath) (e : EnrollmentFile) (w : Written)
    → write_enrollment io.writes fs.now e ≡ w
    → Saved io fs.now fs p e (after_write io fs p w)
unfolding after_write rename_over
after_write-Saved io fs p e (out, ok i) wrote = elim (Bool-cases io.renames) [
  | inl renamed ↦
      let (whole, dims) = write_enrollment-out io.writes fs.now e wrote in
      let fs' = put_file (tmp_path p) (take io.flushed out) fs in
      rw renamed (
        inl (
          refl,
          rw (read_file-rename p p (take io.flushed out) fs') (
              rw (tmp_path-ne p) (
                rw (read_file-put_file p p (take io.flushed out) fs')
                  (rw (path_eq_refl p) (cc whole)))),
          dims,
        ))
  | inr failed ↦ rw failed (
      inr (
        _,
        refl,
        rw (read_file-put_file (tmp_path p) p (take io.flushed out) fs) (rw (tmp_path-ne p)),
      ))
]
after_write-Saved io fs p e (out, err what) wrote = inr (
  what,
  refl,
  rw (read_file-put_file (tmp_path p) p (take io.flushed out) fs) (rw (tmp_path-ne p)),
)

-- `save_enrollment` either succeeds, and then the file at `p` holds the bytes of the enrollment, as
-- many as were on the disk when the stream closed, and all its vectors have `kEmbDim` floats; or it throws, whatever failed, and then
-- the file at `p` is as it was.
pub save_enrollment_atomic :
    (io : DiskIo) (fs : FileSystem) (p : FilePath) (e : EnrollmentFile)
    → Saved io fs.now fs p e (save_enrollment io fs p e)
unfolding save_enrollment read_file create_directories
save_enrollment_atomic io fs p e = elim (Bool-cases io.opens) [
  | inl opened ↦ rw opened (
      after_write-Saved io (create_directories p.dir fs) p e (write_enrollment io.writes fs.now e)
        refl)
  | inr failed ↦ rw failed (inr (_, refl, refl))
]

after_write_others :
    (io : DiskIo) (fs : FileSystem) (p q : FilePath) (w : Written)
    → q ≢ p
    → q ≢ tmp_path p
    → read_file q (after_write io fs p w).0 ≡ read_file q fs
unfolding after_write rename_over
after_write_others io fs p q (out, ok i) n m = elim (Bool-cases io.renames) [
  | inl renamed ↦
      let fs' = put_file (tmp_path p) (take io.flushed out) fs in
      rw renamed (
        rw (read_file-rename p q (take io.flushed out) fs') (
          rw (path_eq_ne (tmp_path p) q (λ e. m (sym e))) (
            rw (read_file-put_file p q (take io.flushed out) fs') (
              rw (path_eq_ne p q (λ e. n (sym e))) (
                rw (read_file-put_file (tmp_path p) q (take io.flushed out) fs)
                  (rw (path_eq_ne (tmp_path p) q (λ e. m (sym e)))))))))
  | inr failed ↦ rw failed (
      rw (read_file-put_file (tmp_path p) q (take io.flushed out) fs)
        (rw (path_eq_ne (tmp_path p) q (λ e. m (sym e)))))
]
after_write_others io fs p q (out, err what) n m =
    rw (read_file-put_file (tmp_path p) q (take io.flushed out) fs)
      (rw (path_eq_ne (tmp_path p) q (λ e. m (sym e))))

-- No file changes but the one saved and the temporary one, however the save ends.
pub save_enrollment_others :
    (io : DiskIo) (fs : FileSystem) (p q : FilePath) (e : EnrollmentFile)
    → q ≢ p
    → q ≢ tmp_path p
    → read_file q (save_enrollment io fs p e).0 ≡ read_file q fs
unfolding save_enrollment read_file create_directories
save_enrollment_others io fs p q e n m = elim (Bool-cases io.opens) [
  | inl opened ↦ rw opened (
      after_write_others io (create_directories p.dir fs) p q (write_enrollment io.writes fs.now e)
        n m)
  | inr failed ↦ rw failed
]
