-- ===== src/Daemon/Store/Cache.antt =====
-- How the cache of the store and the disk relate under each operation of daemon/enrollment_store.cpp.
use mathlib.Core.Path.{subst}
use chowdy.Base.{
  false, ℕ, ◌≡◌, ◌≢◌, refl, ap, sym, ◌∙◌, List, [], ◌∷◌, ◌++◌, arith, Str, str_eq_iff, true,
  Bool-cases, Option-cases, inl, inr, ◌⊎◌, some, Str-Eq, ℕ-Eq, nat_eq, nat_eq_iff, ◌==◌, Result, ok,
  err,
}
use chowdy.Base.Dict.{lookup, insert, lookup-insert, lookup-erase}
use chowdy.Files.{FilePath, FilePath-Eq, File, FileSystem, has_dir, create_directories, enc_suffix}
use chowdy.Encoding.File.{EnrollmentFile}
use chowdy.Encoding.Disk.{DiskIo, save_enrollment, tmp_path}
use chowdy.Encoding.Disk.Effect.{
  SaveEffect, unopened, left_over, renamed, save_enrollment-SaveEffect,
}
use chowdy.Daemon.Store.{
  CacheEntry, EnrollmentStore, uid_dir, enc_files, latest_mtime, load_dir, cache_hit, answer,
  for_uid, bad_label, enc_path, forget, after_save, save, remove_file, contains_char, removal_path,
  remove, remove_each, remove_all,
}
use chowdy.Daemon.Store.Scan.{
  Skips, enc_files-insert, enc_files-erase, uid_dir-injective, has_enc_extension-tmp, IsRooted,
  latest_mtime-IsRooted, load_dir-IsRooted, HasDirs, HasDirs-insert, HasDirs-erase,
  create_directories-IsRooted,
}

-- Every cached entry is what a new scan of the directory would give.
abbrev pub IsExact : EnrollmentStore → FileSystem → Type 0
IsExact st fs =
    (uid : ℕ) (e : CacheEntry)
    → lookup uid st.cache ≡ some e
    → (e.mtime ≡ latest_mtime (uid_dir st.users_dir uid) fs)
      × (e.items ≡ load_dir (uid_dir st.users_dir uid) fs)

insert-IsExact :
    (uid : ℕ) (fs : FileSystem) (st : EnrollmentStore) (uid' : ℕ) (e : CacheEntry)
    → IsExact st fs
    → let d = uid_dir st.users_dir uid in
      let e₀ : CacheEntry = record { mtime = latest_mtime d fs; items = load_dir d fs } in
      lookup uid' (insert uid e₀ st.cache) ≡ some e
      → (e.mtime ≡ latest_mtime (uid_dir st.users_dir uid') fs)
        × (e.items ≡ load_dir (uid_dir st.users_dir uid') fs)
insert-IsExact uid fs st uid' e exact found =
    let d = uid_dir st.users_dir uid in
    let e₀ : CacheEntry = record { mtime = latest_mtime d fs; items = load_dir d fs } in
    elim (Bool-cases (nat_eq uid uid')) [
      | inl same ↦
          let e-is : e₀ ≡ e = ground (arith, lookup-insert uid uid' e₀ st.cache, found, same) in
          rw (← (nat_eq_iff uid uid').0 same) (
            ap (λ (x : CacheEntry). x.mtime) (sym e-is),
            ap (λ (x : CacheEntry). x.items) (sym e-is),
          )
      | inr differ ↦
          exact uid' e (ground (arith, lookup-insert uid uid' e₀ st.cache, found, differ))
    ]

pub for_uid-IsExact :
    (uid : ℕ) (fs : FileSystem) (st : EnrollmentStore)
    → IsExact st fs
    → ((for_uid uid fs st).0 ≡ load_dir (uid_dir st.users_dir uid) fs)
      × IsExact (for_uid uid fs st).1 fs
      × ((for_uid uid fs st).1.users_dir ≡ st.users_dir)
unfolding for_uid answer cache_hit
for_uid-IsExact uid fs st exact = elim (Option-cases (lookup uid st.cache)) [
  | inl missing ↦
      rw missing (refl, λ uid' e found. insert-IsExact uid fs st uid' e exact found, refl)
  | inr (e, there) ↦
      let hit : nat_eq e.mtime (latest_mtime (uid_dir st.users_dir uid) fs) ≡ true =
        (nat_eq_iff _ _).1 (exact uid e there).0 in
      rw there (rw hit ((exact uid e there).1, exact, refl))
]

-- What another state of the disk must share for a cache to stay exact.
keep-IsExact :
    (st st' : EnrollmentStore) (fs fs' : FileSystem)
    → IsRooted fs
    → IsRooted fs'
    → st'.users_dir ≡ st.users_dir
    → ((uid : ℕ) (e : CacheEntry)
        → lookup uid st'.cache ≡ some e
        → (lookup uid st.cache ≡ some e)
          × (enc_files (uid_dir st.users_dir uid) fs'.files
              ≡ enc_files (uid_dir st.users_dir uid) fs.files))
    → IsExact st fs
    → IsExact st' fs'
keep-IsExact st st' fs fs' root root' base same exact uid e found =
    let (old, scan) = same uid e found in
    let d = uid_dir st.users_dir uid in
    let (mtime, items) = exact uid e old in
    rw base (
      rw (latest_mtime-IsRooted d fs' root', scan) (mtime ∙ latest_mtime-IsRooted d fs root),
      rw (load_dir-IsRooted d fs' root', scan) (items ∙ load_dir-IsRooted d fs root),
    )

-- An entry that is left after `uid`'s is forgotten is another user's.
forget-lookup :
    (uid other : ℕ) (st : EnrollmentStore) (e : CacheEntry)
    → lookup other (forget uid st).cache ≡ some e
    → (lookup other st.cache ≡ some e) × (uid ≢ other)
forget-lookup uid other st e found = elim (Bool-cases (nat_eq uid other)) [
  | inl same ↦ ground (arith, lookup-erase uid other st.cache, found, same)
  | inr differ ↦ (
    ground (arith, lookup-erase uid other st.cache, found, differ),
    λ eq. cc ((nat_eq_iff uid other).1 eq, differ),
  )
]

-- A scan of another user's directory passes over this user's files.
other-Skips :
    (base : Str) (uid other : ℕ) (name : Str)
    → uid ≢ other
    → Skips (uid_dir base other) (record { dir = uid_dir base uid; name = name })
other-Skips base uid other name ne = elim (Bool-cases (uid_dir base uid == uid_dir base other)) [
  | inl same ↦ absurd (
      ne (
        uid_dir-injective base uid other
          ((str_eq_iff (uid_dir base uid) (uid_dir base other)).0 same)))
  | inr differ ↦ rw differ
]

tmp-Skips : (d : Str) (p : FilePath) → Skips d (tmp_path p)
tmp-Skips d p = rw (has_enc_extension-tmp p.name) (ground arith)

create_directories-files : (d : Str) (fs : FileSystem) → (create_directories d fs).files ≡ fs.files
unfolding create_directories
create_directories-files d fs = refl

files_rooted :
    (d : Str) (fs : FileSystem) → IsRooted fs → HasDirs (create_directories d fs).dirs fs.files
files_rooted d fs root =
    subst (HasDirs (create_directories d fs).dirs) (create_directories-files d fs)
      (create_directories-IsRooted d fs root).0

-- A save leaves files in existing directories, whatever its outcome.
SaveEffect-IsRooted :
    (fs fs' : FileSystem) (p : FilePath) (r : Result (Unit {0}))
    → IsRooted fs
    → SaveEffect fs p fs' r
    → IsRooted fs'
SaveEffect-IsRooted fs fs' p r root (unopened what _ e) =
    rw e (create_directories-IsRooted p.dir fs root).0
SaveEffect-IsRooted fs fs' p r root (left_over what f _ e) =
    let (root', there) = create_directories-IsRooted p.dir fs root in
    rw e (HasDirs-insert _ (tmp_path p) f fs.files there (files_rooted p.dir fs root))
SaveEffect-IsRooted fs fs' p r root (renamed f g _ e) =
    let (root', there) = create_directories-IsRooted p.dir fs root in
    rw e (
      HasDirs-erase _ (tmp_path p) _ (
        HasDirs-insert _ p f _ there
          (HasDirs-insert _ (tmp_path p) g fs.files there (files_rooted p.dir fs root))))

-- A scan that passes over the saved file finds what it found before.
SaveEffect-scan :
    (d : Str) (fs fs' : FileSystem) (p : FilePath) (r : Result (Unit {0}))
    → Skips d p ⊎ ((what : Str) × (r ≡ err what))
    → SaveEffect fs p fs' r
    → enc_files d fs'.files ≡ enc_files d fs.files
SaveEffect-scan d fs fs' p r skip (unopened what _ e) =
    rw e (ap (enc_files d) (create_directories-files p.dir fs))
SaveEffect-scan d fs fs' p r skip (left_over what f _ e) =
    rw e (enc_files-insert d (tmp_path p) f fs.files (tmp-Skips d p))
SaveEffect-scan d fs fs' p r (inl skip) (renamed f g _ e) = rw e (
    enc_files-erase d (tmp_path p) _ (tmp-Skips d p)
    ∙ enc_files-insert d p f _ skip
    ∙ enc_files-insert d (tmp_path p) g fs.files (tmp-Skips d p))
SaveEffect-scan d fs fs' p r (inr (what, failed)) (renamed f g done e) = cc (failed, done)

-- The store and the disk agree.
pub record IsCoherent (st : EnrollmentStore) (fs : FileSystem) : Type 0 where
  pub rooted : IsRooted fs
  pub exact : IsExact st fs

after_save-IsCoherent :
    (uid : ℕ) (label : Str) (st : EnrollmentStore) (fs : FileSystem)
    (x : FileSystem × Result (Unit {0}))
    → IsCoherent st fs
    → SaveEffect fs (enc_path st.users_dir uid label) x.0 x.1
    → let (st', fs', r) = after_save uid st x in IsCoherent st' fs'
unfolding after_save
after_save-IsCoherent uid label st fs (fs', ok _) c effect =
    let p = enc_path st.users_dir uid label in
    let root' = SaveEffect-IsRooted fs fs' p _ c.rooted effect in
    record {
      rooted = root';
      exact =
          keep-IsExact st (forget uid st) fs fs' c.rooted root' refl
            (λ other e found.
              let (old, ne) = forget-lookup uid other st e found in
              (
                old,
                SaveEffect-scan (uid_dir st.users_dir other) fs fs' p _
                    (inl (other-Skips st.users_dir uid other (label ++ enc_suffix) ne)) effect,
              ))
            c.exact;
    }
after_save-IsCoherent uid label st fs (fs', err what) c effect =
    let p = enc_path st.users_dir uid label in
    let root' = SaveEffect-IsRooted fs fs' p _ c.rooted effect in
    record {
      rooted = root';
      exact =
          keep-IsExact st st fs fs' c.rooted root' refl
            (λ other e found. (
              found,
              SaveEffect-scan (uid_dir st.users_dir other) fs fs' p _ (inr (what, refl)) effect,
            ))
            c.exact;
    }

create_directories-IsCoherent :
    (d : Str) (st : EnrollmentStore) (fs : FileSystem)
    → IsCoherent st fs
    → IsCoherent st (create_directories d fs)
create_directories-IsCoherent d st fs c =
    let root' = (create_directories-IsRooted d fs c.rooted).0 in
    record {
      rooted = root';
      exact =
          keep-IsExact st st fs (create_directories d fs) c.rooted root' refl
            (λ other e found.
              (found, ap (enc_files (uid_dir st.users_dir other)) (create_directories-files d fs)))
            c.exact;
    }

pub save-IsCoherent :
    (io : DiskIo) (uid : ℕ) (label : Str) (file : EnrollmentFile) (fs : FileSystem)
    (st : EnrollmentStore)
    → IsCoherent st fs
    → let (st', fs', r) = save io uid label file fs st in IsCoherent st' fs'
unfolding save
save-IsCoherent io uid label file fs st c = elim (Bool-cases (bad_label label)) [
  | inl bad ↦ rw bad c
  | inr good ↦
      let fs₀ = create_directories (uid_dir st.users_dir uid) fs in
      rw good (
        after_save-IsCoherent uid label st fs₀
          (save_enrollment io fs₀ (enc_path st.users_dir uid label) file)
          (create_directories-IsCoherent (uid_dir st.users_dir uid) st fs c)
          (save_enrollment-SaveEffect io fs₀ (enc_path st.users_dir uid label) file))
]

remove_each-keeps :
    (base : Str) (uid : ℕ) (found : List (Str × File)) (fs : FileSystem)
    → IsRooted fs
    → let fs' = (remove_each (uid_dir base uid) found fs).1 in
      IsRooted fs'
      × ((other : ℕ)
          → uid ≢ other
          → enc_files (uid_dir base other) fs'.files ≡ enc_files (uid_dir base other) fs.files)
unfolding remove_each
remove_each-keeps base uid [] fs root = (root, λ other ne. refl)
remove_each-keeps base uid ((n, f) ∷ found) fs root =
    let p : FilePath = record { dir = uid_dir base uid; name = n } in
    let (root', same) =
      remove_each-keeps base uid found (remove_file p fs) (HasDirs-erase fs.dirs p fs.files root) in
    (
      root',
      λ other ne.
          same other ne
          ∙ enc_files-erase (uid_dir base other) p fs.files (other-Skips base uid other n ne),
    )

forget-IsCoherent :
    (uid : ℕ) (st : EnrollmentStore) (fs fs' : FileSystem)
    → IsCoherent st fs
    → IsRooted fs'
    → ((other : ℕ)
        → uid ≢ other
        → enc_files (uid_dir st.users_dir other) fs'.files
          ≡ enc_files (uid_dir st.users_dir other) fs.files)
    → IsCoherent (forget uid st) fs'
forget-IsCoherent uid st fs fs' c root' same = record {
  rooted = root';
  exact =
      keep-IsExact st (forget uid st) fs fs' c.rooted root' refl
        (λ other e found.
          let (old, ne) = forget-lookup uid other st e found in (old, same other ne))
        c.exact;
}

-- The label names a file of the user's own directory.
abbrev pub IsFileName : Str → Type 0
IsFileName label = (contains_char b'/' label ≡ false) × (contains_char 0 label ≡ false)

pub remove-IsCoherent :
    (leads_to : Str → Str → FilePath) (uid : ℕ) (label : Str) (fs : FileSystem)
    (st : EnrollmentStore)
    → IsFileName label
    → IsCoherent st fs
    → let (n, fs', st') = remove leads_to uid label fs st in IsCoherent st' fs'
unfolding remove removal_path
remove-IsCoherent leads_to uid label fs st own c =
    let p = enc_path st.users_dir uid label in
    rw (own.0, own.1)
      (forget-IsCoherent uid st fs (remove_file p fs) c (HasDirs-erase fs.dirs p fs.files c.rooted)
        (λ other ne.
          enc_files-erase (uid_dir st.users_dir other) p fs.files
            (other-Skips st.users_dir uid other (label ++ enc_suffix) ne)))

pub remove_all-IsCoherent :
    (uid : ℕ) (fs : FileSystem) (st : EnrollmentStore)
    → IsCoherent st fs
    → let (n, fs', st') = remove_all uid fs st in IsCoherent st' fs'
unfolding remove_all
remove_all-IsCoherent uid fs st c = elim (Bool-cases (has_dir (uid_dir st.users_dir uid) fs.dirs)) [
  | inl there ↦
      let found = enc_files (uid_dir st.users_dir uid) fs.files in
      let (root', same) = remove_each-keeps st.users_dir uid found fs c.rooted in
      rw there (
        forget-IsCoherent uid st fs (remove_each (uid_dir st.users_dir uid) found fs).1 c root'
          same)
  | inr missing ↦ rw missing c
]
