-- ===== src/Cache.antt =====
-- The answers that were given before: app/retrieval/semantic_cache.py. Times are whole microseconds.
pub mod Stores
pub mod Semantic
pub mod Hits
pub mod Tagged
pub mod History
pub mod Unseen
