-- ===== src/Daemon/Models.antt =====
-- daemon/models.cpp: the detector and the embedder. ONNX Runtime's inference and OpenCV's image
-- operations are parameters.
pub mod Nms
pub mod Heads
pub mod Runs
