-- ===== src/Ingestion/Indexer.antt =====
-- `index_document` of app/ingestion/indexer.py. What its calls of the file store, the object store, the
-- parsers and the embedder do is an answer of each call; the vector index is a record with the
-- documented effects of its calls. The stages that it reports are in Ingestion/Jobs, the images of
-- pages, whose failure is only logged, are left out.
use agentic_rag_claude_code.Prelude.{
  ℕ, ◌≡◌, ◌≢◌, Bool, not, Option, none, some, List, [], ◌++◌, map, Text, length, take, is_empty,
  filter_by, find_if, ◌==◌, if◌then◌else◌, Result, ok, raise,
}
use agentic_rag_claude_code.Access.Rbac.{Document, processing, failed, indexed}
use agentic_rag_claude_code.Ingestion.FileType.{FileType}
use agentic_rag_claude_code.Ingestion.Elements.{ChunkType, SourceMetadata, ChunkData}

pub record DocumentChunk : Type 0 where
  pub id : ℕ
  pub document_id : ℕ
  pub collection_id : ℕ
  pub file_name : Text
  pub file_type : FileType
  pub page_number : Option ℕ
  pub section_title : Option Text
  pub chunk_type : ChunkType
  pub chunk_index : ℕ
  pub raw_content : Text
  pub normalized_content : Text
  pub source_metadata : SourceMetadata
  pub content_hash : ℕ

-- a point of the index: its payload, without image_uri, and the text that its vectors embed
pub record Point : Type 0 where
  pub chunk_id : ℕ
  pub document_id : ℕ
  pub collection_id : ℕ
  pub chunk_type : ChunkType
  pub page_number : Option ℕ
  pub section_title : Option Text
  pub file_name : Text
  pub file_type : FileType
  pub content : Text
  pub embed_text : Text

abbrev pub of_point : ℕ → Point → Bool
of_point d p = p.document_id == d

abbrev pub of_row : ℕ → DocumentChunk → Bool
of_row d r = r.document_id == d

-- QdrantIndex: a deletion by a filter on the document, and an upsert of points with new ids
pub record PointIndex : Type 1 where
  pub Store : Type 0
  pub points : ℕ → Store → List Point
  pub delete_by_document : ℕ → Store → Store
  pub upsert_points : List Point → Store → Store
  pub points-delete : (d : ℕ) (s : Store) → points d (delete_by_document d s) ≡ []
  pub points-delete_other :
      (d e : ℕ) (s : Store) → e ≢ d → points e (delete_by_document d s) ≡ points e s
  pub points-upsert :
      (d : ℕ) (ps : List Point) (s : Store)
      → points d (upsert_points ps s) ≡ points d s ++ filter_by (of_point d) ps

-- the row of a document with its page_count
pub record IndexedDocument : Type 0 where
  pub document : Document
  pub page_count : Option ℕ

pub record IndexState (index : PointIndex) : Type 0 where
  pub documents : List IndexedDocument
  pub chunks : List DocumentChunk
  pub vectors : index.Store

-- What the calls of one attempt raise, in their order: the commit of the new status; a call before the
-- clearing, or the clearing; what run_pipeline answers; the embedder or the upsert, before the points are
-- stored; the commit of the rows. `unmarked` is what the handler of an exception raises itself, so that
-- the document keeps the status of the attempt.
pub record Answers : Type 0 where
  pub started : Option Text
  pub prepared : Option Text
  pub parsed : Result Text (List ChunkData × ℕ)
  pub upserted : Option Text
  pub committed : Option Text
  pub unmarked : Option Text

pub data IndexError : Type 0 where
  not_found : IndexError
  raised : Text → IndexError

abbrev pub has_id : ℕ → IndexedDocument → Bool
has_id i d = d.document.id == i

-- db.get(Document, document_id)
abbrev pub find_indexed : ℕ → List IndexedDocument → Option IndexedDocument
find_indexed i docs = find_if (has_id i) docs

abbrev pub update_document :
    (IndexedDocument → IndexedDocument) → ℕ → List IndexedDocument → List IndexedDocument
update_document f i docs = map (λ (d : IndexedDocument). if has_id i d then f d else d) docs

abbrev pub set_processing : IndexedDocument → IndexedDocument
set_processing d = record d { document = record d.document { status = processing; error = none } }

abbrev pub set_failed : Text → IndexedDocument → IndexedDocument
set_failed e d = record d {
  document = record d.document { status = failed; error = some (take 2000 e) };
}

abbrev pub set_indexed : ℕ → IndexedDocument → IndexedDocument
set_indexed pages d = record d {
  document = record d.document { status = indexed };
  page_count = some pages;
}

-- `text_hash` of app/ingestion/hashing.py over SHA-256; `fresh` is the new id of the chunk at an index
module _ (index : PointIndex) (text_hash : Text → ℕ) (fresh : ℕ → ℕ) where
  unfoldable pub chunk_row : Document → ChunkData → DocumentChunk
  chunk_row doc ch = record {
    id = fresh ch.chunk_index;
    document_id = doc.id;
    collection_id = doc.collection_id;
    file_name = doc.filename;
    file_type = doc.file_type;
    page_number = ch.page_number;
    section_title = ch.section_title;
    chunk_type = ch.chunk_type;
    chunk_index = ch.chunk_index;
    raw_content = ch.raw_content;
    normalized_content = ch.normalized_content;
    source_metadata = ch.source_metadata;
    content_hash = text_hash ch.normalized_content;
  }

  unfoldable pub chunk_point : Document → ChunkData → Point
  chunk_point doc ch = record {
    chunk_id = fresh ch.chunk_index;
    document_id = doc.id;
    collection_id = doc.collection_id;
    chunk_type = ch.chunk_type;
    page_number = ch.page_number;
    section_title = ch.section_title;
    file_name = doc.filename;
    file_type = doc.file_type;
    content = ch.normalized_content;
    embed_text = if is_empty ch.normalized_content then ch.raw_content else ch.normalized_content;
  }

  -- the handler of an exception: the chunk rows roll back to the last commit, the index does not
  abbrev pub failed_with :
      Option Text
      → ℕ
      → Text
      → IndexState index
      → index.Store
      → Result IndexError ℕ × IndexState index
  failed_with none i e w vectors = (
    raise (raised e),
    record w { documents = update_document (set_failed e) i w.documents; vectors = vectors },
  )
  failed_with (some e2) i e w vectors = (raise (raised e2), record w { vectors = vectors })

  -- the new rows in place of the old ones, the status, and the number of chunks
  unfoldable pub indexed_with :
      Document
      → List ChunkData
      → ℕ
      → IndexState index
      → index.Store
      → Result IndexError ℕ × IndexState index
  unfolding chunk_row chunk_point
  indexed_with doc chunks pages w vectors = (
    ok (length chunks),
    record {
      documents = update_document (set_indexed pages) doc.id w.documents;
      chunks = filter_by (λ r. not (of_row doc.id r)) w.chunks ++ map (chunk_row doc) chunks;
      vectors = index.upsert_points (map (chunk_point doc) chunks) vectors;
    },
  )

  -- the calls for a document that is there, in their order
  unfoldable pub attempt :
      Option Text
      → Result Text (List ChunkData × ℕ)
      → Option Text
      → Option Text
      → Option Text
      → Document
      → ℕ
      → IndexState index
      → Result IndexError ℕ × IndexState index
  unfolding indexed_with
  attempt (some e) parsed upserted committed unmarked doc i w = failed_with unmarked i e w w.vectors
  attempt none (raise e) upserted committed unmarked doc i w =
      failed_with unmarked i e w (index.delete_by_document doc.id w.vectors)
  attempt none (ok (chunks, pages)) (some e) committed unmarked doc i w =
      failed_with unmarked i e w (index.delete_by_document doc.id w.vectors)
  attempt none (ok (chunks, pages)) none (some e) unmarked doc i w =
      failed_with unmarked i e w
        (indexed_with doc chunks pages w (index.delete_by_document doc.id w.vectors)).1.vectors
  attempt none (ok (chunks, pages)) none none unmarked doc i w =
      indexed_with doc chunks pages w (index.delete_by_document doc.id w.vectors)

  abbrev pub started_with :
      Option Text
      → Result IndexError ℕ × IndexState index
      → IndexState index
      → Result IndexError ℕ × IndexState index
  started_with none rest w = rest
  started_with (some e) rest w = (raise (raised e), w)

  unfoldable pub index_document :
      Answers → ℕ → IndexState index → Result IndexError ℕ × IndexState index
  unfolding attempt
  index_document answers i w = elim (find_indexed i w.documents) [
    | none ↦ (raise not_found, w)
    | some d ↦
        started_with answers.started
          (attempt answers.prepared answers.parsed answers.upserted answers.committed
            answers.unmarked d.document i
            (record w { documents = update_document set_processing i w.documents }))
          w
  ]
