-- ===== src/Daemon/Store/History.antt =====
-- Any history of the store's operations, from the start of the daemon.
use chowdy.Base.{
  ℕ, ◌≡◌, refl, ap, ◌∙◌, List, [], ◌∷◌, All, Str, Result, ok, err, Bool-cases, inl, inr,
}
use chowdy.Base.Dict.{lookup}
use chowdy.Files.{FilePath, FileSystem, has_dir}
use chowdy.Encoding.File.{EnrollmentFile}
use chowdy.Encoding.Disk.{DiskIo}
use chowdy.Daemon.Store.{
  EnrollmentStore, new_store, uid_dir, load_dir, bad_label, after_save, latest_mtime, for_uid, save,
  remove, remove_all,
}
use chowdy.Daemon.Store.Scan.{IsRooted}
use chowdy.Daemon.Store.Cache.{
  IsFileName, IsCoherent, for_uid-IsExact, save-IsCoherent, remove-IsCoherent,
  remove_all-IsCoherent,
}

pub data StoreOp : Type 0 where
  loads : ℕ → StoreOp
  saves : DiskIo → ℕ → Str → EnrollmentFile → StoreOp
  removes : (Str → Str → FilePath) → ℕ → Str → StoreOp
  removes_all : ℕ → StoreOp
  -- The host's clock shows another time.
  ticks : ℕ → StoreOp

abbrev pub StoreState : Type 0
StoreState = FileSystem × EnrollmentStore

unfoldable pub run_store : StoreOp → StoreState → StoreState
run_store (loads uid) (fs, st) = (fs, (for_uid uid fs st).1)
run_store (saves io uid label file) (fs, st) =
    let (st', fs', r) = save io uid label file fs st in (fs', st')
run_store (removes leads_to uid label) (fs, st) =
    let (n, fs', st') = remove leads_to uid label fs st in (fs', st')
run_store (removes_all uid) (fs, st) = let (n, fs', st') = remove_all uid fs st in (fs', st')
run_store (ticks now) (fs, st) = (record fs { now = now }, st)

unfoldable pub run_history : List StoreOp → StoreState → StoreState
unfolding run_store
run_history [] s = s
run_history (op ∷ ops) s = run_history ops (run_store op s)

for_uid-IsCoherent :
    (uid : ℕ) (fs : FileSystem) (st : EnrollmentStore)
    → IsCoherent st fs
    → IsCoherent (for_uid uid fs st).1 fs
for_uid-IsCoherent uid fs st c = record {
  rooted = c.rooted;
  exact = (for_uid-IsExact uid fs st c.exact).1;
}

-- A removal is of a file of the user's own directory.
abbrev pub IsOwnRemoval : StoreOp → Type 0
IsOwnRemoval (removes leads_to uid label) = IsFileName label
IsOwnRemoval _ = Unit

pub run_store-IsCoherent :
    (op : StoreOp) (fs : FileSystem) (st : EnrollmentStore)
    → IsOwnRemoval op
    → IsCoherent st fs
    → let (fs', st') = run_store op (fs, st) in IsCoherent st' fs'
unfolding run_store load_dir latest_mtime
run_store-IsCoherent (loads uid) fs st own c = for_uid-IsCoherent uid fs st c
run_store-IsCoherent (saves io uid label file) fs st own c =
    save-IsCoherent io uid label file fs st c
run_store-IsCoherent (removes leads_to uid label) fs st own c =
    remove-IsCoherent leads_to uid label fs st own c
run_store-IsCoherent (removes_all uid) fs st own c = remove_all-IsCoherent uid fs st c
run_store-IsCoherent (ticks now) fs st own c = record { rooted = c.rooted; exact = c.exact }

run_history-IsCoherent :
    (ops : List StoreOp) (fs : FileSystem) (st : EnrollmentStore)
    → All IsOwnRemoval ops
    → IsCoherent st fs
    → let (fs', st') = run_history ops (fs, st) in IsCoherent st' fs'
unfolding run_history
run_history-IsCoherent [] fs st own c = c
run_history-IsCoherent (op ∷ ops) fs st own c =
    let (fs', st') = run_store op (fs, st) in
    run_history-IsCoherent ops fs' st' own.1 (run_store-IsCoherent op fs st own.0 c)

after_save-users_dir :
    (uid : ℕ) (st : EnrollmentStore) (x : FileSystem × Result (Unit {0}))
    → (after_save uid st x).0.users_dir ≡ st.users_dir
unfolding after_save
after_save-users_dir uid st (fs, ok _) = refl
after_save-users_dir uid st (fs, err what) = refl

save-users_dir :
    (io : DiskIo) (uid : ℕ) (label : Str) (file : EnrollmentFile) (fs : FileSystem)
    (st : EnrollmentStore)
    → (save io uid label file fs st).0.users_dir ≡ st.users_dir
unfolding save
save-users_dir io uid label file fs st = elim (Bool-cases (bad_label label)) [
  | inl bad ↦ rw bad
  | inr good ↦ rw good (after_save-users_dir uid st _)
]

remove_all-users_dir :
    (uid : ℕ) (fs : FileSystem) (st : EnrollmentStore)
    → (remove_all uid fs st).2.users_dir ≡ st.users_dir
unfolding remove_all
remove_all-users_dir uid fs st = elim (Bool-cases (has_dir (uid_dir st.users_dir uid) fs.dirs)) [
  | inl there ↦ rw there
  | inr missing ↦ rw missing
]

run_store-users_dir :
    (op : StoreOp) (fs : FileSystem) (st : EnrollmentStore)
    → IsCoherent st fs
    → (run_store op (fs, st)).1.users_dir ≡ st.users_dir
unfolding run_store remove
run_store-users_dir (loads uid) fs st c = (for_uid-IsExact uid fs st c.exact).2
run_store-users_dir (saves io uid label file) fs st c = save-users_dir io uid label file fs st
run_store-users_dir (removes leads_to uid label) fs st c = refl
run_store-users_dir (removes_all uid) fs st c = remove_all-users_dir uid fs st
run_store-users_dir (ticks now) fs st c = refl

run_history-users_dir :
    (ops : List StoreOp) (fs : FileSystem) (st : EnrollmentStore)
    → All IsOwnRemoval ops
    → IsCoherent st fs
    → (run_history ops (fs, st)).1.users_dir ≡ st.users_dir
unfolding run_history
run_history-users_dir [] fs st own c = refl
run_history-users_dir (op ∷ ops) fs st own c =
    let (fs', st') = run_store op (fs, st) in
    run_history-users_dir ops fs' st' own.1 (run_store-IsCoherent op fs st own.0 c)
    ∙ run_store-users_dir op fs st c

new_store-IsCoherent :
    (users_dir : Str) (fs : FileSystem) → IsRooted fs → IsCoherent (new_store users_dir) fs
unfolding new_store lookup
new_store-IsCoherent users_dir fs root = record { rooted = root; exact = λ uid e found. cc found }

-- Let the daemon start with an empty cache on a file system whose files lie in existing directories,
-- and let any sequence of loads, saves (with any failure of the host), removals and clock changes
-- follow, in which no label to remove has a '/' or a zero byte. Then `for_uid` gives what a fresh load of the user's directory gives: the cache is never seen.
pub for_uid-run_history :
    (ops : List StoreOp) (users_dir : Str) (fs : FileSystem) (uid : ℕ)
    → IsRooted fs
    → All IsOwnRemoval ops
    → let (fs', st') = run_history ops (fs, new_store users_dir) in
      (for_uid uid fs' st').0 ≡ load_dir (uid_dir users_dir uid) fs'
unfolding new_store
for_uid-run_history ops users_dir fs uid root own =
    let c = new_store-IsCoherent users_dir fs root in
    let (fs', st') = run_history ops (fs, new_store users_dir) in
    let base : st'.users_dir ≡ users_dir =
      run_history-users_dir ops fs (new_store users_dir) own c in
    (for_uid-IsExact uid fs' st'
      (run_history-IsCoherent ops fs (new_store users_dir) own c).exact).0
    ∙ ap (λ b. load_dir (uid_dir b uid) fs') base
