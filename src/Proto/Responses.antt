-- ===== src/Proto/Responses.antt =====
-- proto/messages.hpp: the responses, and their conversion to and from JSON. A `double` is its bit
-- pattern (`Floats`).
pub mod Laws
use chowdy.Base.{ℕ, Bool, false, List, [], ◌∷◌, map, Str, codes, Result, ok, err, ℤ, pos, ◌>>=◌}
use chowdy.Floats.{f64_zero}
use chowdy.Json.{JsonLib}
use chowdy.Json.Fields.{field, field_or}
use chowdy.Proto.Reason

pub record AuthResponse : Type 0 where
  pub request_id : Str
  pub success : Bool
  pub reason : Str
  pub matched_label : Str
  pub confidence : ℕ
  pub elapsed_ms : ℕ

pub record TestResponse : Type 0 where
  pub request_id : Str
  pub face_detected : Bool
  pub best_match : Str
  pub confidence : ℕ
  pub would_auth : Bool
  pub elapsed_ms : ℕ
  pub reason : Str

pub record EnrollProgressResponse : Type 0 where
  pub request_id : Str
  pub session : Str
  pub frames_collected : ℤ
  pub frames_needed : ℤ
  pub quality : ℕ
  pub done : Bool
  pub hint : Str

pub record EnrollDoneResponse : Type 0 where
  pub request_id : Str
  pub label : Str
  pub embeddings_saved : ℤ
  pub threshold : ℕ

-- `ListResponse::Item`
pub record ListItem : Type 0 where
  pub label : Str
  pub created : ℕ
  pub embeddings : ℤ
  pub threshold : ℕ

pub record ListResponse : Type 0 where
  pub request_id : Str
  pub enrollments : List ListItem

-- The field `ok` of the source is `success` here, since `ok` is a constructor.
pub record RemoveResponse : Type 0 where
  pub request_id : Str
  pub success : Bool

pub record ErrorResponse : Type 0 where
  pub request_id : Str
  pub reason : Str
  pub detail : Str

pub data AnyResponse : Type 0 where
  auth_result : AuthResponse → AnyResponse
  test_result : TestResponse → AnyResponse
  enroll_progress : EnrollProgressResponse → AnyResponse
  enroll_done : EnrollDoneResponse → AnyResponse
  list_result : ListResponse → AnyResponse
  remove_result : RemoveResponse → AnyResponse
  error : ErrorResponse → AnyResponse

module _ (L : JsonLib) where
  open L use {
    J, object, of_str, of_unsigned, of_int, of_f64, of_bool, of_list, get_str, get_u64, get_int,
    get_f64, get_bool, get_list,
  }

  unfoldable pub auth_response_to_json : AuthResponse → J
  auth_response_to_json r = object (
      (codes "type", of_str (codes "auth_result"))
      ∷ (codes "request_id", of_str r.request_id)
      ∷ (codes "success", of_bool r.success)
      ∷ (codes "reason", of_str r.reason)
      ∷ (codes "matched_label", of_str r.matched_label)
      ∷ (codes "confidence", of_f64 r.confidence)
      ∷ (codes "elapsed_ms", of_f64 r.elapsed_ms)
      ∷ [])

  unfoldable pub auth_response_from_json : J → Result AuthResponse
  auth_response_from_json j = do
    request_id ← field L get_str (codes "request_id") j
    success ← field L get_bool (codes "success") j
    reason ← field L get_str (codes "reason") j
    matched_label ← field_or L get_str (codes "matched_label") [] j
    confidence ← field_or L get_f64 (codes "confidence") f64_zero j
    elapsed_ms ← field_or L get_f64 (codes "elapsed_ms") f64_zero j
    ok (record {
      request_id = request_id;
      success = success;
      reason = reason;
      matched_label = matched_label;
      confidence = confidence;
      elapsed_ms = elapsed_ms;
    })

  unfoldable pub test_response_to_json : TestResponse → J
  test_response_to_json r = object (
      (codes "type", of_str (codes "test_result"))
      ∷ (codes "request_id", of_str r.request_id)
      ∷ (codes "face_detected", of_bool r.face_detected)
      ∷ (codes "best_match", of_str r.best_match)
      ∷ (codes "confidence", of_f64 r.confidence)
      ∷ (codes "would_auth", of_bool r.would_auth)
      ∷ (codes "elapsed_ms", of_f64 r.elapsed_ms)
      ∷ (codes "reason", of_str r.reason)
      ∷ [])

  unfoldable pub test_response_from_json : J → Result TestResponse
  test_response_from_json j = do
    request_id ← field L get_str (codes "request_id") j
    face_detected ← field_or L get_bool (codes "face_detected") false j
    best_match ← field_or L get_str (codes "best_match") [] j
    confidence ← field_or L get_f64 (codes "confidence") f64_zero j
    would_auth ← field_or L get_bool (codes "would_auth") false j
    elapsed_ms ← field_or L get_f64 (codes "elapsed_ms") f64_zero j
    reason ← field_or L get_str (codes "reason") Reason.ok_reason j
    ok (record {
      request_id = request_id;
      face_detected = face_detected;
      best_match = best_match;
      confidence = confidence;
      would_auth = would_auth;
      elapsed_ms = elapsed_ms;
      reason = reason;
    })

  unfoldable pub enroll_progress_response_to_json : EnrollProgressResponse → J
  enroll_progress_response_to_json r = object (
      (codes "type", of_str (codes "enroll_progress"))
      ∷ (codes "request_id", of_str r.request_id)
      ∷ (codes "session", of_str r.session)
      ∷ (codes "frames_collected", of_int r.frames_collected)
      ∷ (codes "frames_needed", of_int r.frames_needed)
      ∷ (codes "quality", of_f64 r.quality)
      ∷ (codes "done", of_bool r.done)
      ∷ (codes "hint", of_str r.hint)
      ∷ [])

  unfoldable pub enroll_progress_response_from_json : J → Result EnrollProgressResponse
  enroll_progress_response_from_json j = do
    session ← field L get_str (codes "session") j
    request_id ← field L get_str (codes "request_id") j
    frames_collected ← field_or L get_int (codes "frames_collected") (pos 0) j
    frames_needed ← field_or L get_int (codes "frames_needed") (pos 0) j
    quality ← field_or L get_f64 (codes "quality") f64_zero j
    done ← field_or L get_bool (codes "done") false j
    hint ← field_or L get_str (codes "hint") [] j
    ok (record {
      request_id = request_id;
      session = session;
      frames_collected = frames_collected;
      frames_needed = frames_needed;
      quality = quality;
      done = done;
      hint = hint;
    })

  unfoldable pub enroll_done_response_to_json : EnrollDoneResponse → J
  enroll_done_response_to_json r = object (
      (codes "type", of_str (codes "enroll_done"))
      ∷ (codes "request_id", of_str r.request_id)
      ∷ (codes "label", of_str r.label)
      ∷ (codes "embeddings_saved", of_int r.embeddings_saved)
      ∷ (codes "threshold", of_f64 r.threshold)
      ∷ [])

  unfoldable pub enroll_done_response_from_json : J → Result EnrollDoneResponse
  enroll_done_response_from_json j = do
    label ← field L get_str (codes "label") j
    request_id ← field L get_str (codes "request_id") j
    embeddings_saved ← field_or L get_int (codes "embeddings_saved") (pos 0) j
    threshold ← field_or L get_f64 (codes "threshold") f64_zero j
    ok (record {
      request_id = request_id;
      label = label;
      embeddings_saved = embeddings_saved;
      threshold = threshold;
    })

  unfoldable pub item_to_json : ListItem → J
  item_to_json it = object (
      (codes "label", of_str it.label)
      ∷ (codes "created", of_unsigned it.created)
      ∷ (codes "embeddings", of_int it.embeddings)
      ∷ (codes "threshold", of_f64 it.threshold)
      ∷ [])

  unfoldable pub item_from_json : J → Result ListItem
  item_from_json j = do
    label ← field L get_str (codes "label") j
    created ← field_or L get_u64 (codes "created") 0 j
    embeddings ← field_or L get_int (codes "embeddings") (pos 0) j
    threshold ← field_or L get_f64 (codes "threshold") f64_zero j
    ok (record { label = label; created = created; embeddings = embeddings; threshold = threshold })

  -- A vector is read item by item.
  unfoldable pub items_from_json : List J → Result (List ListItem)
  items_from_json [] = ok []
  items_from_json (j ∷ js) = do it ← item_from_json j; items ← items_from_json js; ok (it ∷ items)

  unfoldable pub list_response_to_json : ListResponse → J
  unfolding item_to_json
  list_response_to_json r = object (
      (codes "type", of_str (codes "list_result"))
      ∷ (codes "request_id", of_str r.request_id)
      ∷ (codes "enrollments", of_list (map item_to_json r.enrollments))
      ∷ [])

  unfoldable pub list_response_from_json : J → Result ListResponse
  unfolding items_from_json
  list_response_from_json j = do
    request_id ← field L get_str (codes "request_id") j
    enrollments ← field_or L (λ v. get_list v >>= items_from_json) (codes "enrollments") [] j
    ok (record { request_id = request_id; enrollments = enrollments })

  unfoldable pub remove_response_to_json : RemoveResponse → J
  remove_response_to_json r = object (
      (codes "type", of_str (codes "remove_result"))
      ∷ (codes "request_id", of_str r.request_id)
      ∷ (codes "ok", of_bool r.success)
      ∷ [])

  unfoldable pub remove_response_from_json : J → Result RemoveResponse
  remove_response_from_json j = do
    request_id ← field L get_str (codes "request_id") j
    success ← field_or L get_bool (codes "ok") false j
    ok (record { request_id = request_id; success = success })

  unfoldable pub error_response_to_json : ErrorResponse → J
  error_response_to_json r = object (
      (codes "type", of_str (codes "error"))
      ∷ (codes "request_id", of_str r.request_id)
      ∷ (codes "reason", of_str r.reason)
      ∷ (codes "detail", of_str r.detail)
      ∷ [])

  unfoldable pub error_response_from_json : J → Result ErrorResponse
  error_response_from_json j = do
    request_id ← field L get_str (codes "request_id") j
    reason ← field_or L get_str (codes "reason") Reason.internal_error j
    detail ← field_or L get_str (codes "detail") [] j
    ok (record { request_id = request_id; reason = reason; detail = detail })

  unfoldable pub serialize_response : AnyResponse → J
  serialize_response (auth_result r) = auth_response_to_json r
  serialize_response (test_result r) = test_response_to_json r
  serialize_response (enroll_progress r) = enroll_progress_response_to_json r
  serialize_response (enroll_done r) = enroll_done_response_to_json r
  serialize_response (remove_result r) = remove_response_to_json r
  serialize_response (error r) = error_response_to_json r
  serialize_response (list_result r) = list_response_to_json r
