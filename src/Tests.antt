-- ===== src/Tests.antt =====
-- Runs of the models at concrete inputs, and the theorems at inputs that meet their hypotheses.
mod Context
mod Citations
mod Graph
mod Access
mod Ingestion
mod Chunker
mod Auth
mod Cache
mod Documents
mod Chat
mod Gaps
mod Metadata
mod Indexing
mod Admin
