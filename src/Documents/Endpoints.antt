-- ===== src/Documents/Endpoints.antt =====
-- The endpoints of app/api/documents.py that read, and the upload; the others only call the service.
use agentic_rag_claude_code.Prelude.{
  ℕ, Bool, Option, none, some, List, [], ◌∷◌, Text, codes, is_empty, elem, ◌==◌, if◌then◌else◌,
  Result, ok, raise, or_raise,
}
use agentic_rag_claude_code.Settings.{Settings}
use agentic_rag_claude_code.Characters.{CharTable}
use agentic_rag_claude_code.Access.Rbac.{User, Document, accessible_collection_ids}
use agentic_rag_claude_code.Cache.Stores.{Points, Tags}
use agentic_rag_claude_code.Ingestion.Jobs.{IngestJob}
use agentic_rag_claude_code.Documents.State.{VectorIndex, State, Faults}
use agentic_rag_claude_code.Documents.Service.{
  HttpError, collection_not_found, document_not_found, empty_file, Library, Answer, create_document,
  get_accessible,
}

-- file.filename or "upload.bin"
abbrev pub name_of : Option Text → Text
name_of none = codes "upload.bin"
name_of (some name) = if is_empty name then codes "upload.bin" else name

-- select(Document).where(Document.collection_id.in_(allowed)), the newest first
abbrev pub of_collections : List ℕ → List Document → List Document
of_collections allowed [] = []
of_collections allowed (d ∷ ds) =
    let rest = of_collections allowed ds in if elem d.collection_id allowed then d ∷ rest else rest

-- the newest row of the document
abbrev pub latest_job : ℕ → List IngestJob → Option IngestJob
latest_job i [] = none
latest_job i (j ∷ js) = let rest = latest_job i js in if j.document_id == i then some j else rest

module _ (points : Points) (tags : Tags) (index : VectorIndex) (sha256 : List ℕ → ℕ)
    (table : CharTable) (s : Settings) (library : Library) where
  unfoldable pub upload_document :
      Faults
      → ℕ
      → ℕ
      → User
      → ℕ
      → Option Text
      → Text
      → State points tags index
      → Answer points tags index sha256 table s library (Document × Bool)
  unfolding create_document
  upload_document faults id job u c filename bytes w =
      if is_empty bytes
      then (raise empty_file, w)
      else create_document points tags index sha256 table s library faults id job u c
          (name_of filename) bytes w

  unfoldable pub list_documents :
      Option ℕ → User → State points tags index → Result HttpError (List Document)
  unfolding accessible_collection_ids
  list_documents collection_id u w =
      let allowed = accessible_collection_ids w.tables u in
      if is_empty allowed then ok [] else elim collection_id [
        | none ↦ ok (of_collections allowed w.documents)
        | some c ↦
            if elem c allowed
            then ok (of_collections (c ∷ []) w.documents)
            else raise collection_not_found
      ]

  unfoldable pub get_document : User → ℕ → State points tags index → Result HttpError Document
  unfolding get_accessible or_raise
  get_document u i w =
      or_raise (get_accessible points tags index sha256 table s library u i w) document_not_found

  unfoldable pub ingest_status :
      User → ℕ → State points tags index → Result HttpError (Option IngestJob)
  unfolding get_accessible
  ingest_status u i w = elim (get_accessible points tags index sha256 table s library u i w) [
    | none ↦ raise document_not_found
    | some doc ↦ ok (latest_job i w.jobs)
  ]
