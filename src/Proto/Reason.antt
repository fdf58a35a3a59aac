-- ===== src/Proto/Reason.antt =====
-- proto/messages.hpp, namespace reason: the stable texts of the reason codes.
use chowdy.Base.{Str, codes}

unfoldable pub matched : Str
matched = codes "matched"

unfoldable pub no_face : Str
no_face = codes "no_face"

unfoldable pub low_confidence : Str
low_confidence = codes "low_confidence"

unfoldable pub liveness_failed : Str
liveness_failed = codes "liveness_failed"

unfoldable pub not_enrolled : Str
not_enrolled = codes "not_enrolled"

unfoldable pub camera_busy : Str
camera_busy = codes "camera_busy"

unfoldable pub camera_error : Str
camera_error = codes "camera_error"

unfoldable pub timeout : Str
timeout = codes "timeout"

unfoldable pub internal_error : Str
internal_error = codes "internal_error"

unfoldable pub peer_denied : Str
peer_denied = codes "peer_denied"

unfoldable pub embedder_mismatch : Str
embedder_mismatch = codes "embedder_mismatch"

unfoldable pub ok_reason : Str
ok_reason = codes "ok"
