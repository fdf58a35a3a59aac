-- ===== src/Daemon/Store.antt =====
-- daemon/enrollment_store.hpp and daemon/enrollment_store.cpp: the enrollments on disk, with a cache
-- per user. A `file_time_type` is a number, its minimum 0. A directory that exists can be listed.
pub mod Scan
pub mod Cache
pub mod History
use chowdy.Base.{
  ℕ, suc, zero, Bool, true, false, ◌&&◌, ◌||◌, not, List, [], ◌∷◌, ◌++◌, Option, none, some, Str,
  codes, Result, ok, err, ltb, is_empty, if◌then◌else◌, Str-Eq, ℕ-Eq, ◌==◌, nat_eq, length,
}
use chowdy.Base.Decimal.{decimal}
use chowdy.Base.Dict.{lookup, insert, erase}
use chowdy.Files.{
  FilePath, FilePath-Eq, File, FileSystem, has_dir, create_directories, has_enc_extension, stem,
  enc_suffix, read_file,
}
use chowdy.Encoding.File.{EnrollmentFile, parse_enrollment}
use chowdy.Encoding.Disk.{DiskIo, save_enrollment}

pub record UserEnrollment : Type 0 where
  pub label : Str
  pub file : EnrollmentFile

pub record CacheEntry : Type 0 where
  pub mtime : ℕ
  pub items : List UserEnrollment

pub record EnrollmentStore : Type 0 where
  pub users_dir : Str
  pub cache : List (ℕ × CacheEntry)

unfoldable pub new_store : Str → EnrollmentStore
new_store users_dir = record { users_dir = users_dir; cache = [] }

-- `base / std::to_string(uid)`
unfoldable pub uid_dir : Str → ℕ → Str
uid_dir base uid = base ++ (b'/' ∷ decimal uid)

-- The files of a directory that the loops do not skip.
unfoldable pub enc_files : Str → List (FilePath × File) → List (Str × File)
enc_files d [] = []
enc_files d ((p, f) ∷ files) =
    let rest = enc_files d files in
    if p.dir == d && has_enc_extension p.name then (p.name, f) ∷ rest else rest

-- `if (t > best) best = t`
unfoldable pub newest : ℕ → List (Str × File) → ℕ
newest best [] = best
newest best ((n, f) ∷ files) = newest (if ltb best f.mtime then f.mtime else best) files

unfoldable pub latest_mtime : Str → FileSystem → ℕ
latest_mtime d fs = if has_dir d fs.dirs then newest 0 (enc_files d fs.files) else 0

-- The loading loop: a file that does not parse is skipped.
add_loaded : Str → Option EnrollmentFile → List UserEnrollment → List UserEnrollment
add_loaded name none items = items
add_loaded name (some file) items = record { label = stem name; file = file } ∷ items

unfoldable pub load_files : List (Str × File) → List UserEnrollment
unfolding add_loaded
load_files [] = []
load_files ((n, f) ∷ files) = add_loaded n (parse_enrollment f.content) (load_files files)

unfoldable pub load_dir : Str → FileSystem → List UserEnrollment
load_dir d fs = if has_dir d fs.dirs then load_files (enc_files d fs.files) else []

-- `it != cache_.end() && it->second.mtime == mt`
unfoldable pub cache_hit : Option CacheEntry → ℕ → Option (List UserEnrollment)
cache_hit none mt = none
cache_hit (some e) mt = if e.mtime == mt then some e.items else none

answer :
    EnrollmentStore
    → ℕ
    → CacheEntry
    → Option (List UserEnrollment)
    → List UserEnrollment × EnrollmentStore
answer st uid e (some items) = (items, st)
answer st uid e none = (e.items, record st { cache = insert uid e st.cache })

unfoldable pub for_uid : ℕ → FileSystem → EnrollmentStore → List UserEnrollment × EnrollmentStore
unfolding answer
for_uid uid fs st =
    let d = uid_dir st.users_dir uid in
    let mt = latest_mtime d fs in
    answer st uid (record { mtime = mt; items = load_dir d fs })
      (cache_hit (lookup uid st.cache) mt)

unfoldable pub contains_char : ℕ → Str → Bool
contains_char c [] = false
contains_char c (x ∷ s) = nat_eq x c || contains_char c s

unfoldable pub bad_label : Str → Bool
bad_label label = is_empty label || contains_char b'/' label || contains_char 0 label

abbrev pub enc_path : Str → ℕ → Str → FilePath
enc_path users_dir uid label = record { dir = uid_dir users_dir uid; name = label ++ enc_suffix }

abbrev pub forget : ℕ → EnrollmentStore → EnrollmentStore
forget uid st = record st { cache = erase uid st.cache }

-- What `save` does after `save_enrollment`: an exception passes through.
after_save :
    ℕ
    → EnrollmentStore
    → FileSystem × Result (Unit {0})
    → EnrollmentStore × FileSystem × Result (Unit {0})
after_save uid st (fs, ok _) = (forget uid st, fs, ok tt)
after_save uid st (fs, err what) = (st, fs, err what)

unfoldable pub save :
    DiskIo
    → ℕ
    → Str
    → EnrollmentFile
    → FileSystem
    → EnrollmentStore
    → EnrollmentStore × FileSystem × Result (Unit {0})
unfolding after_save
save io uid label file fs st =
    if bad_label label
    then (st, fs, err (codes "invalid enrollment label"))
    else after_save uid st (
        save_enrollment io (create_directories (uid_dir st.users_dir uid) fs)
          (enc_path st.users_dir uid label) file)

abbrev pub is_some {ℓ} : {A : Type ℓ} → Option A → Bool
is_some none = false
is_some (some a) = true

abbrev pub remove_file : FilePath → FileSystem → FileSystem
remove_file p fs = record fs { files = erase p fs.files }

-- `uid_dir(users_dir_, uid) / (label + ".enc")`. A label with a '/' or a zero byte is no file name of
-- the user's directory: where such a path leads is the host's to say.
unfoldable pub removal_path : (Str → Str → FilePath) → Str → ℕ → Str → FilePath
removal_path leads_to users_dir uid label =
    if contains_char b'/' label || contains_char 0 label
    then leads_to (uid_dir users_dir uid) label
    else enc_path users_dir uid label

-- The number of files removed, which is whether there was one.
unfoldable pub remove :
    (Str → Str → FilePath)
    → ℕ
    → Str
    → FileSystem
    → EnrollmentStore
    → ℕ × FileSystem × EnrollmentStore
unfolding removal_path
remove leads_to uid label fs st =
    let p = removal_path leads_to st.users_dir uid label in
    (if is_some (read_file p fs) then 1 else 0, remove_file p fs, forget uid st)

-- The loop of `remove_all` over the entries that it found.
unfoldable pub remove_each : Str → List (Str × File) → FileSystem → ℕ × FileSystem
remove_each d [] fs = (0, fs)
remove_each d ((n, f) ∷ files) fs =
    let (k, fs') = remove_each d files (remove_file (record { dir = d; name = n }) fs) in
    (suc k, fs')

unfoldable pub remove_all : ℕ → FileSystem → EnrollmentStore → ℕ × FileSystem × EnrollmentStore
remove_all uid fs st =
    let d = uid_dir st.users_dir uid in
    if has_dir d fs.dirs
    then (let (k, fs') = remove_each d (enc_files d fs.files) fs in (k, fs', forget uid st))
    else (0, fs, st)
