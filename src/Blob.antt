-- ===== src/Blob.antt =====
-- Blob files: src/lance_blob_filesystem.cpp.
pub mod File
