-- ===== src/Proto/Requests.antt =====
-- proto/messages.hpp: the requests, and their conversion to and from JSON.
pub mod Laws
use chowdy.Base.{
  ℕ, List, [], ◌∷◌, Str, codes, Result, ok, err, ℤ, pos, ◌>>=◌, ◌>>◌, ◌==◌, Str-Eq, if◌then◌else◌,
  ◌++◌, ◌||◌, not,
}
use chowdy.Json.{JsonLib}
use chowdy.Json.Fields.{field, field_or}

pub record AuthRequest : Type 0 where
  pub uid : ℕ
  pub timeout_ms : ℤ
  pub request_id : Str

pub record TestRequest : Type 0 where
  pub timeout_ms : ℤ
  pub request_id : Str

pub record EnrollStartRequest : Type 0 where
  pub uid : ℕ
  pub label : Str
  pub min_frames : ℤ
  pub max_frames : ℤ
  pub request_id : Str

pub record EnrollFrameRequest : Type 0 where
  pub session : Str
  pub request_id : Str

pub record EnrollFinishRequest : Type 0 where
  pub session : Str
  pub request_id : Str

pub record ListRequest : Type 0 where
  pub uid : ℕ
  pub request_id : Str

pub record RemoveRequest : Type 0 where
  pub uid : ℕ
  pub label : Str
  pub request_id : Str

pub data AnyRequest : Type 0 where
  auth : AuthRequest → AnyRequest
  test : TestRequest → AnyRequest
  enroll_start : EnrollStartRequest → AnyRequest
  enroll_frame : EnrollFrameRequest → AnyRequest
  enroll_finish : EnrollFinishRequest → AnyRequest
  list : ListRequest → AnyRequest
  remove : RemoveRequest → AnyRequest

module _ (L : JsonLib) where
  open L use {
    J, object, of_str, of_unsigned, of_int, get_str, get_u32, get_int, contains, is_string, at,
  }

  unfoldable pub auth_to_json : AuthRequest → J
  auth_to_json r = object (
      (codes "type", of_str (codes "auth"))
      ∷ (codes "uid", of_unsigned r.uid)
      ∷ (codes "timeout_ms", of_int r.timeout_ms)
      ∷ (codes "request_id", of_str r.request_id)
      ∷ [])

  unfoldable pub auth_from_json : J → Result AuthRequest
  auth_from_json j = do
    uid ← field L get_u32 (codes "uid") j
    timeout_ms ← field_or L get_int (codes "timeout_ms") (pos 2000) j
    request_id ← field_or L get_str (codes "request_id") [] j
    ok (record { uid = uid; timeout_ms = timeout_ms; request_id = request_id })

  unfoldable pub test_to_json : TestRequest → J
  test_to_json r = object (
      (codes "type", of_str (codes "test"))
      ∷ (codes "timeout_ms", of_int r.timeout_ms)
      ∷ (codes "request_id", of_str r.request_id)
      ∷ [])

  unfoldable pub test_from_json : J → Result TestRequest
  test_from_json j = do
    timeout_ms ← field_or L get_int (codes "timeout_ms") (pos 3000) j
    request_id ← field_or L get_str (codes "request_id") [] j
    ok (record { timeout_ms = timeout_ms; request_id = request_id })

  unfoldable pub enroll_start_to_json : EnrollStartRequest → J
  enroll_start_to_json r = object (
      (codes "type", of_str (codes "enroll_start"))
      ∷ (codes "uid", of_unsigned r.uid)
      ∷ (codes "label", of_str r.label)
      ∷ (codes "min_frames", of_int r.min_frames)
      ∷ (codes "max_frames", of_int r.max_frames)
      ∷ (codes "request_id", of_str r.request_id)
      ∷ [])

  unfoldable pub enroll_start_from_json : J → Result EnrollStartRequest
  enroll_start_from_json j = do
    label ← field L get_str (codes "label") j
    uid ← field_or L get_u32 (codes "uid") 0 j
    min_frames ← field_or L get_int (codes "min_frames") (pos 5) j
    max_frames ← field_or L get_int (codes "max_frames") (pos 15) j
    request_id ← field_or L get_str (codes "request_id") [] j
    ok (record {
      uid = uid;
      label = label;
      min_frames = min_frames;
      max_frames = max_frames;
      request_id = request_id;
    })

  unfoldable pub enroll_frame_to_json : EnrollFrameRequest → J
  enroll_frame_to_json r = object (
      (codes "type", of_str (codes "enroll_frame"))
      ∷ (codes "session", of_str r.session)
      ∷ (codes "request_id", of_str r.request_id)
      ∷ [])

  unfoldable pub enroll_frame_from_json : J → Result EnrollFrameRequest
  enroll_frame_from_json j = do
    session ← field L get_str (codes "session") j
    request_id ← field_or L get_str (codes "request_id") [] j
    ok (record { session = session; request_id = request_id })

  unfoldable pub enroll_finish_to_json : EnrollFinishRequest → J
  enroll_finish_to_json r = object (
      (codes "type", of_str (codes "enroll_finish"))
      ∷ (codes "session", of_str r.session)
      ∷ (codes "request_id", of_str r.request_id)
      ∷ [])

  unfoldable pub enroll_finish_from_json : J → Result EnrollFinishRequest
  enroll_finish_from_json j = do
    session ← field L get_str (codes "session") j
    request_id ← field_or L get_str (codes "request_id") [] j
    ok (record { session = session; request_id = request_id })

  unfoldable pub list_to_json : ListRequest → J
  list_to_json r = object (
      (codes "type", of_str (codes "list"))
      ∷ (codes "uid", of_unsigned r.uid)
      ∷ (codes "request_id", of_str r.request_id)
      ∷ [])

  unfoldable pub list_from_json : J → Result ListRequest
  list_from_json j = do
    uid ← field_or L get_u32 (codes "uid") 0 j
    request_id ← field_or L get_str (codes "request_id") [] j
    ok (record { uid = uid; request_id = request_id })

  unfoldable pub remove_to_json : RemoveRequest → J
  remove_to_json r = object (
      (codes "type", of_str (codes "remove"))
      ∷ (codes "uid", of_unsigned r.uid)
      ∷ (codes "label", of_str r.label)
      ∷ (codes "request_id", of_str r.request_id)
      ∷ [])

  unfoldable pub remove_from_json : J → Result RemoveRequest
  remove_from_json j = do
    label ← field L get_str (codes "label") j
    uid ← field_or L get_u32 (codes "uid") 0 j
    request_id ← field_or L get_str (codes "request_id") [] j
    ok (record { uid = uid; label = label; request_id = request_id })

  -- The dispatch on `type`.
  unfoldable pub parse_typed : Str → J → Result AnyRequest
  parse_typed t j =
      if t == codes "auth"
      then auth_from_json j >>= (λ r. ok (auth r))
      else if t == codes "test"
      then test_from_json j >>= (λ r. ok (test r))
      else if t == codes "enroll_start"
      then enroll_start_from_json j >>= (λ r. ok (enroll_start r))
      else if t == codes "enroll_frame"
      then enroll_frame_from_json j >>= (λ r. ok (enroll_frame r))
      else if t == codes "enroll_finish"
      then enroll_finish_from_json j >>= (λ r. ok (enroll_finish r))
      else if t == codes "list"
      then list_from_json j >>= (λ r. ok (list r))
      else if t == codes "remove"
      then remove_from_json j >>= (λ r. ok (remove r))
      else err (codes "unknown request type: " ++ t)

  -- `if (!j.contains("type") || !j.at("type").is_string()) throw`
  unfoldable pub parse_request : J → Result AnyRequest
  unfolding parse_typed
  parse_request j =
      if contains (codes "type") j
      then (do
        type ← at (codes "type") j
        if is_string type
            then get_str type >>= (λ t. parse_typed t j)
            else err (codes "missing 'type'"))
      else err (codes "missing 'type'")

  unfoldable pub request_to_json : AnyRequest → J
  request_to_json (auth r) = auth_to_json r
  request_to_json (test r) = test_to_json r
  request_to_json (enroll_start r) = enroll_start_to_json r
  request_to_json (enroll_frame r) = enroll_frame_to_json r
  request_to_json (enroll_finish r) = enroll_finish_to_json r
  request_to_json (list r) = list_to_json r
  request_to_json (remove r) = remove_to_json r
