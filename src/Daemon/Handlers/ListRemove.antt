-- ===== src/Daemon/Handlers/ListRemove.antt =====
-- daemon/handlers/list_remove.cpp: the two requests on a user's enrollments.
use chowdy.Base.{
  Str, ℕ, ◌&&◌, not, map, length, codes, pos, ltb, ◌==◌, ℕ-Eq, is_empty, if◌then◌else◌,
}
use chowdy.Floats.{FloatOps}
use chowdy.Files.{FilePath, FileSystem}
use chowdy.Proto.Reason
use chowdy.Proto.Requests.{ListRequest, RemoveRequest}
use chowdy.Proto.Responses.{AnyResponse, list_result, remove_result, error, ListItem}
use chowdy.Daemon.Store.{EnrollmentStore, UserEnrollment, for_uid, remove, remove_all}
use chowdy.Daemon.Handlers.World.{World}

unfoldable pub list_target : ℕ → ℕ → ℕ
list_target peer_uid req_uid = if peer_uid == 0 && not (req_uid == 0) then req_uid else peer_uid

module _ (fl : FloatOps) where
  unfoldable pub item_of : UserEnrollment → ListItem
  item_of u = record {
    label = u.label;
    created = u.file.created;
    embeddings = pos (length u.file.embeddings);
    threshold = fl.to_f64 u.file.threshold;
  }

  unfoldable pub handle_list : ℕ → ListRequest → World → AnyResponse × World
  unfolding list_target item_of
  handle_list peer_uid req w =
      let (items, st) = for_uid (list_target peer_uid req.uid) w.fs w.store in
      (
        list_result (record { request_id = req.request_id; enrollments = map item_of items }),
        record w { store = st },
      )

-- The answer to a removal of `n` enrollments.
removed : RemoveRequest → World → ℕ × FileSystem × EnrollmentStore → AnyResponse × World
removed req w (n, fs, st) = (
  remove_result (record { request_id = req.request_id; success = ltb 0 n }),
  record w { fs = fs; store = st },
)

unfoldable pub handle_remove :
    (Str → Str → FilePath) → ℕ → RemoveRequest → World → AnyResponse × World
unfolding removed
handle_remove leads_to peer_uid req w =
    if not (peer_uid == 0)
    then (
      error (record {
        request_id = req.request_id;
        reason = Reason.peer_denied;
        detail = codes "removing enrollments must run as root (use sudo)";
      }),
      w,
    )
    else removed req w (
        if is_empty req.label
        then remove_all req.uid w.fs w.store
        else remove leads_to req.uid req.label w.fs w.store)
