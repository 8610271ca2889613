-- ===== src/Documents/Service.antt =====
-- `create_document`, `reindex_document` and `delete_document` of app/services/documents.py. A file that
-- is not written leaves nothing behind; the invalidation of the cache is done or is not.
use agentic_rag_claude_code.Prelude.{
  ℕ, Bool, true, false, Option, none, some, List, [], ◌∷◌, ◌++◌, Text, ◌==◌, if◌then◌else◌, Result,
  ok, raise, filter_by, not, ◌||◌,
}
use agentic_rag_claude_code.Settings.{Settings}
use agentic_rag_claude_code.Characters.{CharTable}
use agentic_rag_claude_code.Access.Rbac.{User, Document, pending, can_access_collection}
use agentic_rag_claude_code.Cache.Stores.{Points, Tags}
use agentic_rag_claude_code.Cache.Semantic.{invalidate_document}
use agentic_rag_claude_code.Ingestion.FileType.{FileType, detect}
use agentic_rag_claude_code.Ingestion.Jobs.{IngestJob, Payload, new_row}
use agentic_rag_claude_code.Documents.Filenames.{safe_filename}
use agentic_rag_claude_code.Documents.State.{
  VectorIndex, upload, document_delete, Chunk, StoredFile, State, Faults, find_document,
  with_content, without,
}

-- The errors of the requests; `failed` is an exception of a call, which the client gets as a 500.
pub data HttpError : Type 0 where
  collection_not_found unsupported_media_type document_not_found empty_file failed : HttpError

-- `hash` is SHA-256 of the bytes, `extension` is os.path.splitext(name)[1].lower().
pub record Library : Type 0 where
  pub hash : Text → ℕ
  pub extension : Text → Text

abbrev pub payload_of : ℕ → ℕ → Payload
payload_of d job = record { document_id = d; attempt = 0; job_id = some job }

-- doc.status = PENDING, doc.error = None
abbrev pub set_pending : ℕ → List Document → List Document
set_pending i [] = []
set_pending i (d ∷ ds) =
    (if d.id == i then record d { status = pending; error = none } else d) ∷ set_pending i ds

module _ (points : Points) (tags : Tags) (index : VectorIndex) (sha256 : List ℕ → ℕ)
    (table : CharTable) (s : Settings) (library : Library) where
  abbrev pub Answer : Type 0 → Type 0
  Answer A = Result HttpError A × State points tags index

  -- the row, the file, the audit entry and the job, up to the commit, and the queue behind it
  unfoldable pub add_document :
      Faults → Document → ℕ → User → Text → State points tags index → Answer (Document × Bool)
  add_document faults doc job u bytes w =
      let w1 = record w {
        files = record { document_id = doc.id; filename = doc.filename; bytes = bytes } ∷ w.files;
      } in
      let w2 = record w1 {
        documents = doc ∷ w1.documents;
        audit = record { action = upload; user_id = u.id; resource_id = doc.id } ∷ w1.audit;
        jobs = new_row job doc.id ∷ w1.jobs;
      } in
      let w3 = record w2 { ingest_queue = w2.ingest_queue ++ payload_of doc.id job ∷ [] } in
      if faults.save
      then (raise failed, w)
      else if faults.commit
      then (raise failed, w1)
      else if faults.enqueue
      then (raise failed, w2)
      else (ok (doc, false), w3)

  abbrev pub new_document : ℕ → ℕ → User → Text → FileType → Text → Document
  new_document id c u filename file_type bytes = record {
    id = id;
    collection_id = c;
    filename = filename;
    file_type = file_type;
    content_hash = library.hash bytes;
    status = pending;
    error = none;
    uploaded_by_id = some u.id;
  }

  unfoldable pub create_document :
      Faults → ℕ → ℕ → User → ℕ → Text → Text → State points tags index → Answer (Document × Bool)
  unfolding add_document
  create_document faults id job u c name bytes w =
      let filename = safe_filename table name in
      if can_access_collection w.tables u c
      then elim (detect (library.extension filename) bytes) [
        | none ↦ (raise unsupported_media_type, w)
        | some file_type ↦ elim (with_content c (library.hash bytes) w.documents) [
          | none ↦ add_document faults (new_document id c u filename file_type bytes) job u bytes w
          | some existing ↦ (ok (existing, true), w)
        ]
      ]
      else (raise collection_not_found, w)

  -- _get_accessible
  unfoldable pub get_accessible : User → ℕ → State points tags index → Option Document
  get_accessible u i w = elim (find_document i w.documents) [
    | none ↦ none
    | some doc ↦ if can_access_collection w.tables u doc.collection_id then some doc else none
  ]

  unfoldable pub reindex : Faults → ℕ → Document → State points tags index → Answer Document
  unfolding invalidate_document
  reindex faults job doc w =
      let w1 = record w {
        documents = set_pending doc.id w.documents;
        jobs = new_row job doc.id ∷ w.jobs;
      } in
      let w2 = record w1 {
        cache = (invalidate_document points tags sha256 table s doc.id w1.cache).1;
      } in
      let w3 = record w2 { ingest_queue = w2.ingest_queue ++ payload_of doc.id job ∷ [] } in
      if faults.commit
      then (raise failed, w)
      else if faults.cache
      then (raise failed, w1)
      else if faults.enqueue
      then (raise failed, w2)
      else (ok (record doc { status = pending; error = none }), w3)

  unfoldable pub reindex_document :
      Faults → ℕ → User → ℕ → State points tags index → Answer Document
  unfolding get_accessible reindex
  reindex_document faults job u i w = elim (get_accessible u i w) [
    | none ↦ (raise document_not_found, w)
    | some doc ↦ reindex faults job doc w
  ]

  -- The rows of chunks and of jobs go with the row of their document.
  abbrev pub delete_rows : ℕ → User → State points tags index → State points tags index
  delete_rows i u w = record w {
    documents = without (λ (d : Document). d.id) i w.documents;
    chunks = without (λ (c : Chunk). c.document_id) i w.chunks;
    jobs = without (λ (j : IngestJob). j.document_id) i w.jobs;
    audit = record { action = document_delete; user_id = u.id; resource_id = i } ∷ w.audit;
  }

  -- delete_document_files
  abbrev pub remove_files : (StoredFile → Bool) → ℕ → List StoredFile → List StoredFile
  remove_files stuck i files =
      filter_by (λ (f : StoredFile). not (f.document_id == i) || stuck f) files

  unfoldable pub delete : Faults → User → ℕ → State points tags index → Answer (Unit {0})
  unfolding invalidate_document
  delete faults u i w =
      let w1 = record w { vectors = index.delete_by_document i w.vectors } in
      let w2 = record w1 {
        cache = (invalidate_document points tags sha256 table s i w1.cache).1;
        files = remove_files faults.stuck i w1.files;
      } in
      if faults.qdrant
      then (raise failed, w)
      else if faults.cache
      then (raise failed, w1)
      else if faults.commit
      then (raise failed, w2)
      else (ok tt, delete_rows i u w2)

  unfoldable pub delete_document : Faults → User → ℕ → State points tags index → Answer (Unit {0})
  unfolding get_accessible delete
  delete_document faults u i w = elim (get_accessible u i w) [
    | none ↦ (raise document_not_found, w)
    | some doc ↦ delete faults u doc.id w
  ]
