-- ===== src/Proto/Requests/Laws.antt =====
-- The round trip of the requests through JSON, and what a parse refuses.
use chowdy.Base.{
  ◌^◌, ◌<◌, ◌≡◌, List, [], ◌∷◌, ◌++◌, Str, codes, ok, err, ◌==◌, Str-Eq, true, false, str_eq, ◌⊎◌,
  inl, inr,
}
use chowdy.Base.Dict.{lookup}
use chowdy.Json.{JsonLib, IsLawful, IsInt32}
use chowdy.Proto.Requests.{
  AnyRequest, auth, test, enroll_start, enroll_frame, enroll_finish, list, remove, auth_to_json,
  auth_from_json, test_to_json, test_from_json, enroll_start_to_json, enroll_start_from_json,
  enroll_frame_to_json, enroll_frame_from_json, enroll_finish_to_json, enroll_finish_from_json,
  list_to_json, list_from_json, remove_to_json, remove_from_json, parse_request, request_to_json,
}

-- The numbers of a request fit their C++ types.
abbrev pub Fits : AnyRequest → Type 0
Fits (auth r) = (r.uid < 2 ^ 32) × IsInt32 r.timeout_ms
Fits (test r) = IsInt32 r.timeout_ms
Fits (enroll_start r) = (r.uid < 2 ^ 32) × IsInt32 r.min_frames × IsInt32 r.max_frames
Fits (enroll_frame r) = Unit
Fits (enroll_finish r) = Unit
Fits (list r) = r.uid < 2 ^ 32
Fits (remove r) = r.uid < 2 ^ 32

module _ (L : JsonLib) (law : IsLawful L) where
  -- A request that a client sends is the request that the daemon handles: `parse_request` of its
  -- JSON gives it back, for each of the seven kinds, if its numbers fit their C++ types.
  pub parse_request-request_to_json :
      (r : AnyRequest) → Fits r → parse_request L (request_to_json L r) ≡ ok r
  unfolding parse_request request_to_json lookup str_eq auth_to_json auth_from_json test_to_json
      test_from_json enroll_start_to_json enroll_start_from_json enroll_frame_to_json
      enroll_frame_from_json enroll_finish_to_json enroll_finish_from_json list_to_json
      list_from_json remove_to_json remove_from_json
  parse_request-request_to_json (auth r) h = simp (
    law.contains-object,
    law.at-object,
    law.is_string-of_str,
    law.get_str-of_str,
    law.get_u32-of_unsigned r.uid h.0,
    law.get_int-of_int r.timeout_ms h.1,
  )
  parse_request-request_to_json (test r) h = simp (
    law.contains-object,
    law.at-object,
    law.is_string-of_str,
    law.get_str-of_str,
    law.get_int-of_int r.timeout_ms h,
  )
  parse_request-request_to_json (enroll_start r) h = simp (
    law.contains-object,
    law.at-object,
    law.is_string-of_str,
    law.get_str-of_str,
    law.get_u32-of_unsigned r.uid h.0,
    law.get_int-of_int r.min_frames h.1,
    law.get_int-of_int r.max_frames h.2,
  )
  parse_request-request_to_json (enroll_frame r) h =
      simp (law.contains-object, law.at-object, law.is_string-of_str, law.get_str-of_str)
  parse_request-request_to_json (enroll_finish r) h =
      simp (law.contains-object, law.at-object, law.is_string-of_str, law.get_str-of_str)
  parse_request-request_to_json (list r) h = simp (
    law.contains-object,
    law.at-object,
    law.is_string-of_str,
    law.get_str-of_str,
    law.get_u32-of_unsigned r.uid h,
  )
  parse_request-request_to_json (remove r) h = simp (
    law.contains-object,
    law.at-object,
    law.is_string-of_str,
    law.get_str-of_str,
    law.get_u32-of_unsigned r.uid h,
  )

  -- A request without a `type`, or with one that is no string, is refused.
  pub parse_request-untyped :
      (j : L.J)
      → (L.contains (codes "type") j ≡ false)
        ⊎ ((t : L.J) × (L.contains (codes "type") j ≡ true)
            × (L.at (codes "type") j ≡ ok t)
            × (L.is_string t ≡ false))
      → parse_request L j ≡ err (codes "missing 'type'")
  unfolding parse_request
  parse_request-untyped j (inl absent) = rw absent
  parse_request-untyped j (inr (t, there, reads, other)) = rw (there, reads) (rw other)

-- The names of the requests.
abbrev pub request_types : List Str
request_types =
    codes "auth"
    ∷ codes "test"
    ∷ codes "enroll_start"
    ∷ codes "enroll_frame"
    ∷ codes "enroll_finish"
    ∷ codes "list"
    ∷ codes "remove"
    ∷ []

abbrev IsNone : Str → List Str → Type 0
IsNone t [] = Unit
IsNone t (n ∷ names) = ((t == n) ≡ false) × IsNone t names

module _ (L : JsonLib) where
  -- Any other name of a request is refused, and the refusal names it.
  parse_request-unknown :
      (j type : L.J) (t : Str)
      → L.contains (codes "type") j ≡ true
      → L.at (codes "type") j ≡ ok type
      → L.is_string type ≡ true
      → L.get_str type ≡ ok t
      → IsNone t request_types
      → parse_request L j ≡ err (codes "unknown request type: " ++ t)
  unfolding parse_request
  parse_request-unknown j type t there reads text named h =
      rw (there, reads)
        (rw (text, named)
          (simp (h.0, h.1.0, h.1.1.0, h.1.1.1.0, h.1.1.1.1.0, h.1.1.1.1.1.0, h.1.1.1.1.1.1.0)))
