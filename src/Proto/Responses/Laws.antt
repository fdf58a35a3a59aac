-- ===== src/Proto/Responses/Laws.antt =====
-- The round trip of the responses through JSON.
use chowdy.Base.{◌^◌, ◌<◌, ◌≡◌, refl, List, [], ◌∷◌, map, ok, All, str_eq, Str-Eq}
use chowdy.Base.Dict.{lookup}
use chowdy.Json.{JsonLib, IsLawful, IsInt32}
use chowdy.Proto.Responses.{
  ListItem, AnyResponse, auth_result, test_result, enroll_progress, enroll_done, list_result,
  remove_result, error, item_to_json, item_from_json, items_from_json, list_response_to_json,
  list_response_from_json, serialize_response, auth_response_to_json, auth_response_from_json,
  test_response_to_json, test_response_from_json, enroll_progress_response_to_json,
  enroll_progress_response_from_json, enroll_done_response_to_json, enroll_done_response_from_json,
  remove_response_to_json, remove_response_from_json, error_response_to_json,
  error_response_from_json,
}

abbrev pub ItemFits : ListItem → Type 0
ItemFits it = (it.created < 2 ^ 64) × IsInt32 it.embeddings

-- The integers of a response fit their C++ types.
abbrev pub Fits : AnyResponse → Type 0
Fits (enroll_progress r) = IsInt32 r.frames_collected × IsInt32 r.frames_needed
Fits (enroll_done r) = IsInt32 r.embeddings_saved
Fits (list_result r) = All ItemFits r.enrollments
Fits _ = Unit

module _ (L : JsonLib) (law : IsLawful L) where
  items_from_json-map :
      (items : List ListItem)
      → All ItemFits items
      → items_from_json L (map (item_to_json L) items) ≡ ok items
  unfolding items_from_json item_from_json item_to_json lookup str_eq
  items_from_json-map [] h = refl
  items_from_json-map (it ∷ items) h = simp (
    law.contains-object,
    law.at-object,
    law.get_str-of_str,
    law.get_u64-of_unsigned it.created h.0.0,
    law.get_int-of_int it.embeddings h.0.1,
    law.get_f64-of_f64,
    items_from_json-map items h.1,
  )

  -- The client's reading of the daemon's JSON gives the response back.
  abbrev pub ReadsBack : AnyResponse → Type 0
  ReadsBack (auth_result r) =
      auth_response_from_json L (serialize_response L (auth_result r)) ≡ ok r
  ReadsBack (test_result r) =
      test_response_from_json L (serialize_response L (test_result r)) ≡ ok r
  ReadsBack (enroll_progress r) =
      enroll_progress_response_from_json L (serialize_response L (enroll_progress r)) ≡ ok r
  ReadsBack (enroll_done r) =
      enroll_done_response_from_json L (serialize_response L (enroll_done r)) ≡ ok r
  ReadsBack (remove_result r) =
      remove_response_from_json L (serialize_response L (remove_result r)) ≡ ok r
  ReadsBack (error r) = error_response_from_json L (serialize_response L (error r)) ≡ ok r
  ReadsBack (list_result r) =
      list_response_from_json L (serialize_response L (list_result r)) ≡ ok r

  -- Whatever the daemon answers, the client reads the same response from its JSON, for each of the
  -- seven kinds, if its integers fit their C++ types.
  pub serialize_response-ReadsBack : (r : AnyResponse) → Fits r → ReadsBack r
  unfolding serialize_response lookup str_eq list_response_to_json list_response_from_json
      auth_response_to_json auth_response_from_json test_response_to_json test_response_from_json
      enroll_progress_response_to_json enroll_progress_response_from_json
      enroll_done_response_to_json enroll_done_response_from_json remove_response_to_json
      remove_response_from_json error_response_to_json error_response_from_json
  serialize_response-ReadsBack (auth_result r) h = simp (
    law.contains-object, law.at-object, law.get_str-of_str, law.get_bool-of_bool,
    law.get_f64-of_f64,
  )
  serialize_response-ReadsBack (test_result r) h = simp (
    law.contains-object, law.at-object, law.get_str-of_str, law.get_bool-of_bool,
    law.get_f64-of_f64,
  )
  serialize_response-ReadsBack (enroll_progress r) h = simp (
    law.contains-object,
    law.at-object,
    law.get_str-of_str,
    law.get_bool-of_bool,
    law.get_f64-of_f64,
    law.get_int-of_int r.frames_collected h.0,
    law.get_int-of_int r.frames_needed h.1,
  )
  serialize_response-ReadsBack (enroll_done r) h = simp (
    law.contains-object,
    law.at-object,
    law.get_str-of_str,
    law.get_f64-of_f64,
    law.get_int-of_int r.embeddings_saved h,
  )
  serialize_response-ReadsBack (remove_result r) h =
      simp (law.contains-object, law.at-object, law.get_str-of_str, law.get_bool-of_bool)
  serialize_response-ReadsBack (error r) h =
      simp (law.contains-object, law.at-object, law.get_str-of_str)
  serialize_response-ReadsBack (list_result r) h = simp (
    law.contains-object,
    law.at-object,
    law.get_str-of_str,
    law.get_list-of_list,
    items_from_json-map r.enrollments h,
  )
