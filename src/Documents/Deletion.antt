-- ===== src/Documents/Deletion.antt =====
-- What is left of a document after `delete_document` of app/services/documents.py.
use agentic_rag_claude_code.Prelude.{ℕ, ◌≡◌, ◌≢◌, true, false, none, List, All, ok, raise, ◌⊎◌}
use agentic_rag_claude_code.Settings.{Settings}
use agentic_rag_claude_code.Characters.{CharTable}
use agentic_rag_claude_code.Access.Rbac.{User}
use agentic_rag_claude_code.Cache.Stores.{Points, Tags, doc}
use agentic_rag_claude_code.Cache.Semantic.{evict}
use agentic_rag_claude_code.Cache.History.{IsGone}
use agentic_rag_claude_code.Ingestion.Jobs.{IngestJob}
use agentic_rag_claude_code.Documents.State.{
  VectorIndex, Chunk, StoredFile, State, Faults, find_document,
}
use agentic_rag_claude_code.Documents.Service.{
  document_not_found, failed, Library, Answer, remove_files,
}
use agentic_rag_claude_code.Documents.Refusals.{IsHidden}

module _ (points : Points) (tags : Tags) (index : VectorIndex) (sha256 : List ℕ → ℕ)
    (table : CharTable) (s : Settings) (library : Library) where
  -- No row, no chunk, no job, no vector in the text index and no cached answer is about document i, and
  -- no file but what rmtree could not remove; the vectors and the images of its pages and figures stay.
  pub record IsErased (faults : Faults) (i : ℕ) (w v : State points tags index) : Type 0 where
    pub no_document : find_document i v.documents ≡ none
    pub no_chunk : All (λ (c : Chunk). c.document_id ≢ i) v.chunks
    pub no_job : All (λ (j : IngestJob). j.document_id ≢ i) v.jobs
    pub no_file : All (λ (f : StoredFile). (f.document_id ≢ i) ⊎ (faults.stuck f ≡ true)) v.files
    pub no_points : index.has_points i v.vectors ≡ false
    pub no_answer : IsGone points tags (doc i) v.cache
    pub same_pages : v.pages ≡ w.pages
    pub same_images : v.images ≡ w.images

  -- The rows are what they were, so that the document can be deleted again.
  pub record HasRowsOf (w v : State points tags index) : Type 0 where
    pub same_documents : v.documents ≡ w.documents
    pub same_chunks : v.chunks ≡ w.chunks
    pub same_jobs : v.jobs ≡ w.jobs

  -- The other documents keep their rows and their vectors.
  abbrev pub KeepsOthers : ℕ → State points tags index → State points tags index → Type 0
  KeepsOthers i w v =
      (j : ℕ)
      → j ≢ i
      → (find_document j v.documents ≡ find_document j w.documents)
        × (index.has_points j v.vectors ≡ index.has_points j w.vectors)

  abbrev pub Deletion : Type 0
  Deletion = Answer points tags index sha256 table s library (Unit {0})

  pub data Outcome (faults : Faults) (u : User) (i : ℕ) (w : State points tags index)
      : Deletion → Type 0 where
    refused :
        IsHidden points tags index sha256 table s library u i w
        → Outcome faults u i w (raise document_not_found, w)
    broken :
        (v : State points tags index)
        → HasRowsOf w v
        → KeepsOthers i w v
        → Outcome faults u i w (raise failed, v)
    erased :
        (v : State points tags index)
        → IsErased faults i w v
        → KeepsOthers i w v
        → Outcome faults u i w (ok tt, v)

  abbrev unindexed : ℕ → State points tags index → State points tags index
  unindexed i w = record w { vectors = index.delete_by_document i w.vectors }

  abbrev uncached : Faults → ℕ → State points tags index → State points tags index
  uncached faults i w = record (unindexed i w) {
    cache = (evict points tags sha256 table s (doc i) w.cache).1;
    files = remove_files points tags index sha256 table s library faults.stuck i w.files;
  }
