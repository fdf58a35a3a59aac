-- ===== src/Tests/Detections.antt =====
-- Runs of the detector's theorems at concrete inputs.
use native.Mathlib.Nat.{mul-one}
use chowdy.Ipc.Socket.{length-replicate}
use chowdy.Base.{ℕ, ◌-◌, ◌*◌, ◌≡◌, refl, ◌∙◌, List, [], ◌∷◌, ok, replicate}
use chowdy.Daemon.Models.Nms.{Point, Rect, Detection, nms}
use chowdy.Daemon.Models.Nms.Greedy.{nms-greedy}
use chowdy.Daemon.Models.Heads.{Tensor}
use chowdy.Daemon.Models.Heads.Sized.{IsWhole}
use chowdy.Daemon.Models.Runs.{OpenCv, DetectorSession, detect}
use chowdy.Daemon.Models.Runs.Sizes.{IsClean, detect-IsClean}
use chowdy.Tests.Samples.{toy}

abbrev area : Rect → ℕ
area r = r.width * r.height

abbrev face : ℕ → ℕ → Detection
face at score = record {
  box = record { x = at; y = at; width = 10; height = 10 };
  score = score;
  kps = [];
}

abbrev unsorted : List Detection → List Detection
unsorted dets = dets

-- The second box covers the first's place, the third lies apart.
nms-greedy_example :
    nms toy area unsorted (face 0 9 ∷ face 1 8 ∷ face 100 7 ∷ []) 20 ≡ face 0 9 ∷ face 100 7 ∷ []
unfolding chowdy.Daemon.Models.Nms.Greedy.greedy chowdy.Daemon.Models.Nms.iou
nms-greedy_example = nms-greedy toy area 20 unsorted (face 0 9 ∷ face 1 8 ∷ face 100 7 ∷ [])

abbrev cv : OpenCv ℕ
cv = record {
  cols = λ image. 640;
  rows = λ image. 360;
  letterboxed = λ image w h x y. [];
  aligned = λ image kps. [];
  area = area;
  rect_through = λ p q. record { x = p.x; y = p.y; width = q.x - p.x; height = q.y - p.y };
}

abbrev output : ℕ → ℕ → Tensor
output n last = record { shape = n ∷ last ∷ []; values = replicate (n * last) 0 }

output-IsWhole : (n last : ℕ) → IsWhole (output n last)
output-IsWhole n last = length-replicate (n * last) 0 ∙ rw (mul-one last) refl

-- The nine outputs that the model is known for.
abbrev session : DetectorSession
session shape input = ok (
    output 12800 1
    ∷ output 3200 1
    ∷ output 800 1
    ∷ output 12800 4
    ∷ output 3200 4
    ∷ output 800 4
    ∷ output 12800 10
    ∷ output 3200 10
    ∷ output 800 10
    ∷ [])

detect-IsClean_example : IsClean toy cv 20 (detect toy cv session unsorted 0 1 20)
detect-IsClean_example = detect-IsClean toy cv session unsorted 0 1 20 (
  output-IsWhole 12800 1,
  (
    output-IsWhole 3200 1,
    (
      output-IsWhole 800 1,
      (
        output-IsWhole 12800 4,
        (
          output-IsWhole 3200 4,
          (
            output-IsWhole 800 4,
            (output-IsWhole 12800 10, (output-IsWhole 3200 10, (output-IsWhole 800 10, tt))),
          ),
        ),
      ),
    ),
  ),
)
