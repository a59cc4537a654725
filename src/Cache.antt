-- ===== src/Cache.antt =====
-- The cache of open datasets: src/lance_dataset_cache.cpp.
pub mod State
pub mod Keys
pub mod World
pub mod Lookup
pub mod Open
