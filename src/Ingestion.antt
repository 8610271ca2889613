-- ===== src/Ingestion.antt =====
-- The ingestion: the packing loops of app/ingestion/chunker.py, app/ingestion/filetype.py, the jobs of
-- worker/main.py and app/ingestion/jobs.py, and app/ingestion/indexer.py.
pub mod FileType
pub mod Elements
pub mod Texts
pub mod Tables
pub mod Chunker
pub mod Jobs
pub mod Indexer
pub mod Replaced
pub mod Reindexed
pub mod Retrying
pub mod Draining
pub mod Requeueing
pub mod Rows
pub mod Paragraphs
pub mod Cuts
pub mod Bounds
