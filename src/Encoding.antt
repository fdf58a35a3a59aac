-- ===== src/Encoding.antt =====
-- common/encoding.hpp and common/encoding.cpp: embeddings, their similarity, and the FA01 file.
-- `Encoding.File` has the byte format, `Encoding.Disk` the atomic write; the others are proofs.
pub mod File
pub mod Disk
pub mod Embedding
