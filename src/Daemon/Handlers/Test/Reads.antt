-- ===== src/Daemon/Handlers/Test/Reads.antt =====
-- What a test request changes.
use chowdy.Base.{ℕ, refl, Bool, true, false, not, Option, none, some, if◌then◌else◌}
use chowdy.Floats.{FloatOps}
use chowdy.Encoding.Embedding.{Embedding}
use chowdy.Proto.Reason
use chowdy.Proto.Requests.{TestRequest}
use chowdy.Proto.Responses.{TestResponse}
use chowdy.Daemon.Handlers.World.{World, IsKept}
use chowdy.Daemon.Handlers.Test.{
  answer_test, TestEnd, frame, failed, unfinished, with_embedding, empty_response, score_of,
}

if-IsKept :
    (b : Bool) (w : World) (x y : Option TestResponse × World)
    → IsKept w x.1
    → IsKept w y.1
    → IsKept w (if b then x else y).1
if-IsKept true w x y hx hy = hx
if-IsKept false w x y hx hy = hy

module _ (fl : FloatOps) (ms_of : ℕ → ℕ) where
  with_embedding-IsKept :
      (uid : ℕ) (w : World) (r : TestResponse) (o : Option Embedding)
      → IsKept w (with_embedding fl uid w r o).1
  unfolding with_embedding
  with_embedding-IsKept uid w r none = (refl, refl)
  with_embedding-IsKept uid w r (some face) = (refl, refl)

  pub answer_test-IsKept :
      (uid : ℕ) (req : TestRequest) (elapsed : ℕ) (w : World) (e : TestEnd)
      → IsKept w (answer_test fl ms_of uid req elapsed w e).1
  unfolding answer_test
  answer_test-IsKept uid req elapsed w failed = (refl, refl)
  answer_test-IsKept uid req elapsed w unfinished = (refl, refl)
  answer_test-IsKept uid req elapsed w (frame out) =
      let r : TestResponse = record (empty_response fl ms_of req Reason.ok_reason elapsed) {
        face_detected = true;
        confidence = score_of fl out.detection;
      } in
      if-IsKept (not out.has_face) w _ _ (refl, refl) (with_embedding-IsKept uid w r out.embedding)
