-- ===== src/Documents/Alike.antt =====
-- Missing and hidden documents, over the requests of app/api/documents.py for one document.
use agentic_rag_claude_code.Prelude.{
  ℕ, ◌≡◌, refl, ap, Option, none, some, List, Result, ok, raise, or_raise,
}
use agentic_rag_claude_code.Settings.{Settings}
use agentic_rag_claude_code.Characters.{CharTable}
use agentic_rag_claude_code.Access.Rbac.{User, Document}
use agentic_rag_claude_code.Cache.Stores.{Points, Tags}
use agentic_rag_claude_code.Ingestion.Jobs.{IngestJob}
use agentic_rag_claude_code.Documents.State.{VectorIndex, State, Faults}
use agentic_rag_claude_code.Documents.Service.{
  HttpError, document_not_found, Library, get_accessible, reindex, reindex_document, delete,
  delete_document,
}
use agentic_rag_claude_code.Documents.Endpoints.{latest_job, get_document, ingest_status}
use agentic_rag_claude_code.Documents.Refusals.{
  IsHidden, IsRefused, get_accessible-IsHidden, hidden-get_accessible, reindex_refused,
  delete_refused,
}

module _ (points : Points) (tags : Tags) (index : VectorIndex) (sha256 : List ℕ → ℕ)
    (table : CharTable) (s : Settings) (library : Library) where
  -- What the four requests answer where the document is hidden.
  abbrev pub IsUnfound : Faults → ℕ → User → ℕ → State points tags index → Type 0
  IsUnfound faults job u i w =
      (reindex_document points tags index sha256 table s library faults job u i w
        ≡ (raise document_not_found, w))
      × (delete_document points tags index sha256 table s library faults u i w
          ≡ (raise document_not_found, w))
      × (get_document points tags index sha256 table s library u i w ≡ raise document_not_found)
      × (ingest_status points tags index sha256 table s library u i w ≡ raise document_not_found)

  unfound :
      (faults : Faults) (job : ℕ) (u : User) (i : ℕ) (w : State points tags index)
      → get_accessible points tags index sha256 table s library u i w ≡ none
      → IsUnfound faults job u i w
  unfolding reindex_document delete_document get_document ingest_status
  unfound faults job u i w h = (
    ap
        (λ (o : Option Document). elim o [
          | none ↦ (raise document_not_found, w)
          | some doc ↦ reindex points tags index sha256 table s library faults job doc w
        ])
        h,
    ap
        (λ (o : Option Document). elim o [
          | none ↦ (raise document_not_found, w)
          | some doc ↦ delete points tags index sha256 table s library faults u doc.id w
        ])
        h,
    ap (λ (o : Option Document). or_raise o document_not_found) h,
    ap
        (λ (o : Option Document). elim o [
          | none ↦ raise document_not_found
          | some doc ↦ ok (latest_job i w.jobs)
        ])
        h,
  )

  got_refused :
      (u : User) (i : ℕ) (w : State points tags index)
      → get_document points tags index sha256 table s library u i w ≡ raise document_not_found
      → get_accessible points tags index sha256 table s library u i w ≡ none
  unfolding get_document or_raise
  got_refused u i w = which (get_accessible points tags index sha256 table s library u i w)
    where
      which :
          (o : Option Document)
          → or_raise o document_not_found ≡ raise document_not_found
          → o ≡ none
      which none k = refl
      which (some d) k = absurd (cc k)

  status_refused :
      (u : User) (i : ℕ) (w : State points tags index)
      → ingest_status points tags index sha256 table s library u i w ≡ raise document_not_found
      → get_accessible points tags index sha256 table s library u i w ≡ none
  unfolding ingest_status
  status_refused u i w = which (get_accessible points tags index sha256 table s library u i w)
    where
      which :
          (o : Option Document)
          → ◌≡◌ {A = Result HttpError (Option IngestJob)}
              (elim o [ none ↦ raise document_not_found | some doc ↦ ok (latest_job i w.jobs) ])
              (raise document_not_found)
          → o ≡ none
      which none k = refl
      which (some d) k = absurd (cc k)

  -- A document that does not exist and one of a collection that the user may not read, even where the
  -- document has a grant of its own, are answered alike: its detail, its ingestion status, its
  -- reindexing and its deletion report that it was not found, and nothing changes. None of the four
  -- reports that of another document.
  pub answered_alike :
      (faults : Faults) (job : ℕ) (u : User) (i : ℕ) (w : State points tags index)
      → (IsHidden points tags index sha256 table s library u i w → IsUnfound faults job u i w)
        × (IsRefused points tags index sha256 table s library
              (reindex_document points tags index sha256 table s library faults job u i w)
            → IsHidden points tags index sha256 table s library u i w)
        × (IsRefused points tags index sha256 table s library
              (delete_document points tags index sha256 table s library faults u i w)
            → IsHidden points tags index sha256 table s library u i w)
        × (get_document points tags index sha256 table s library u i w ≡ raise document_not_found
            → IsHidden points tags index sha256 table s library u i w)
        × (ingest_status points tags index sha256 table s library u i w ≡ raise document_not_found
            → IsHidden points tags index sha256 table s library u i w)
  answered_alike faults job u i w = (
    (λ h.
        unfound faults job u i w
          (hidden-get_accessible points tags index sha256 table s library u i w h)),
    (λ k. hidden (reindex_refused points tags index sha256 table s library faults job u i w k)),
    (λ k. hidden (delete_refused points tags index sha256 table s library faults u i w k)),
    (λ k. hidden (got_refused u i w k)),
    (λ k. hidden (status_refused u i w k)),
  )
    where
      hidden :
          get_accessible points tags index sha256 table s library u i w ≡ none
          → IsHidden points tags index sha256 table s library u i w
      hidden e = get_accessible-IsHidden points tags index sha256 table s library u i w e
