-- ===== src/Ingestion/Reindexed.antt =====
-- What an attempt of `index_document` of app/ingestion/indexer.py leaves behind.
use agentic_rag_claude_code.Prelude.{
  ℕ, ◌≡◌, ◌≢◌, Option, none, some, List, [], map, Text, length, filter_by, Result, ok, raise,
}
use agentic_rag_claude_code.Ingestion.Elements.{ChunkData}
use agentic_rag_claude_code.Ingestion.Indexer.{
  of_row, PointIndex, IndexedDocument, IndexState, IndexError, not_found, raised, find_indexed,
  set_processing, set_failed, set_indexed, chunk_row, chunk_point,
}

module _ (index : PointIndex) (text_hash : Text → ℕ) (fresh : ℕ → ℕ) where
  abbrev Indexes : Type 0
  Indexes = IndexState index

  -- nothing of the other documents changed
  pub record IsApart (i : ℕ) (w w' : Indexes) : Type 0 where
    pub documents : (j : ℕ) → j ≢ i → find_indexed j w'.documents ≡ find_indexed j w.documents
    pub chunks : (j : ℕ) → j ≢ i → filter_by (of_row j) w'.chunks ≡ filter_by (of_row j) w.chunks
    pub points : (j : ℕ) → j ≢ i → index.points j w'.vectors ≡ index.points j w.vectors

  -- What an attempt that raises leaves in the index: the points as they were, none, or those of the chunks
  -- that the pipeline answered.
  pub data PointsOf (parsed : Result Text (List ChunkData × ℕ)) (i : ℕ) (d : IndexedDocument)
      (before after : index.Store) : Type 0 where
    same_points : index.points i after ≡ index.points i before → PointsOf parsed i d before after
    no_points : index.points i after ≡ [] → PointsOf parsed i d before after
    new_points :
        (chs : List ChunkData) (pages : ℕ)
        → parsed ≡ ok (chs, pages)
        → index.points i after ≡ map (chunk_point index text_hash fresh d.document) chs
        → PointsOf parsed i d before after

  -- The status behind a failure: failed with the error, or still that of the attempt.
  pub data StatusOf (d : IndexedDocument) : IndexError → Option IndexedDocument → Type 0 where
    status_failed : (e : Text) → StatusOf d (raised e) (some (set_failed e d))
    still_processing : (e : Text) → StatusOf d (raised e) (some (set_processing d))

  -- The outcomes of an attempt in which the pipeline answers `parsed`.
  pub data Outcome (parsed : Result Text (List ChunkData × ℕ)) (i : ℕ) (w : Indexes)
      : Result IndexError ℕ × Indexes → Type 0 where
    missing : find_indexed i w.documents ≡ none → Outcome parsed i w (raise not_found, w)
    not_started :
        (d : IndexedDocument) (e : Text)
        → find_indexed i w.documents ≡ some d
        → Outcome parsed i w (raise (raised e), w)
    not_indexed :
        (d : IndexedDocument) (e : IndexError) (w' : Indexes)
        → find_indexed i w.documents ≡ some d
        → StatusOf d e (find_indexed i w'.documents)
        → w'.chunks ≡ w.chunks
        → PointsOf parsed i d w.vectors w'.vectors
        → IsApart i w w'
        → Outcome parsed i w (raise e, w')
    marked_indexed :
        (d : IndexedDocument) (chs : List ChunkData) (pages : ℕ) (w' : Indexes)
        → parsed ≡ ok (chs, pages)
        → find_indexed i w.documents ≡ some d
        → find_indexed i w'.documents ≡ some (set_indexed pages (set_processing d))
        → filter_by (of_row i) w'.chunks ≡ map (chunk_row index text_hash fresh d.document) chs
        → index.points i w'.vectors ≡ map (chunk_point index text_hash fresh d.document) chs
        → IsApart i w w'
        → Outcome parsed i w (ok (length chs), w')
