-- ===== src/Documents/State.antt =====
-- What app/services/documents.py reads and writes: the rows, the files, the queue, the semantic cache,
-- and the vector index of app/ingestion/qdrant_index.py, which is a parameter.
use agentic_rag_claude_code.Prelude.{
  ℕ, Bool, false, ◌&&◌, Option, none, some, List, [], ◌∷◌, Text, ◌==◌, ◌≡◌, ◌≢◌, if◌then◌else◌,
}
use agentic_rag_claude_code.Access.Rbac.{Document, Tables}
use agentic_rag_claude_code.Cache.Stores.{Points, Tags}
use agentic_rag_claude_code.Cache.Semantic.{Stores}
use agentic_rag_claude_code.Ingestion.Jobs.{IngestJob, Payload}

-- The points of the vector database by their document; `delete_by_document` deletes by a filter.
pub record VectorIndex : Type 1 where
  pub Store : Type 0
  pub has_points : ℕ → Store → Bool
  pub delete_by_document : ℕ → Store → Store
  pub has_points-delete : (d : ℕ) (s : Store) → has_points d (delete_by_document d s) ≡ false
  pub has_points-other :
      (d e : ℕ) (s : Store) → e ≢ d → has_points e (delete_by_document d s) ≡ has_points e s

pub data AuditAction : Type 0 where
  upload document_delete : AuditAction

pub record AuditLog : Type 0 where
  pub action : AuditAction
  pub user_id : ℕ
  pub resource_id : ℕ

-- a row of the table document_chunks
pub record Chunk : Type 0 where
  pub id : ℕ
  pub document_id : ℕ

pub record StoredFile : Type 0 where
  pub document_id : ℕ
  pub filename : Text
  pub bytes : Text

pub record State (points : Points) (tags : Tags) (index : VectorIndex) : Type 0 where
  pub tables : Tables
  pub documents : List Document
  pub chunks : List Chunk
  pub jobs : List IngestJob
  pub audit : List AuditLog
  pub files : List StoredFile
  pub ingest_queue : List Payload
  pub vectors : index.Store
  -- the vectors of page images in the collection docs_pages, and the documents of the images of figures
  -- and pages in the object store: no function here deletes them
  pub pages : index.Store
  pub images : List ℕ
  pub cache : Stores points tags

-- The calls that raise in this request; where one does, what is not committed is lost. `stuck` are the
-- files that rmtree, which ignores errors, fails to remove.
pub record Faults : Type 0 where
  pub save : Bool
  pub qdrant : Bool
  pub cache : Bool
  pub commit : Bool
  pub enqueue : Bool
  pub stuck : StoredFile → Bool

-- db.get(Document, document_id)
abbrev pub find_document : ℕ → List Document → Option Document
find_document i [] = none
find_document i (d ∷ ds) = let rest = find_document i ds in if d.id == i then some d else rest

-- select(Document).where(Document.collection_id == c, Document.content_hash == digest)
abbrev pub with_content : ℕ → ℕ → List Document → Option Document
with_content c digest [] = none
with_content c digest (d ∷ ds) =
    let rest = with_content c digest ds in
    if d.collection_id == c && d.content_hash == digest then some d else rest

-- the rows of a table that are left when those of a document are deleted
abbrev pub without : {A : Type 0} → (A → ℕ) → ℕ → List A → List A
without key i [] = []
without key i (a ∷ rows) = let rest = without key i rows in if key a == i then rest else a ∷ rest
