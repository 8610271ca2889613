-- ===== src/Metadata.antt =====
-- The lookup of documents by their properties: app/retrieval/metadata_lookup.py.
pub mod Words
pub mod Lookup
pub mod Scoped
