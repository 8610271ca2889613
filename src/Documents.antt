-- ===== src/Documents.antt =====
-- The documents: app/services/documents.py and app/api/documents.py with app/ingestion/storage.py and `create_job` of
-- app/ingestion/jobs.py.
pub mod Filenames
pub mod Naming
pub mod State
pub mod Service
pub mod Endpoints
pub mod Refusals
pub mod Alike
pub mod Deduplication
pub mod Uploading
pub mod Deletion
