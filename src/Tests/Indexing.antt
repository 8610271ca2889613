-- ===== src/Tests/Indexing.antt =====
-- Attempts of the indexer over an index that keeps its points in a list.
use agentic_rag_claude_code.Prelude.{
  ℕ, ◌≡◌, ◌≢◌, refl, sym, ap, ◌∙◌, not, none, some, List, [], ◌∷◌, ◌++◌, Text, codes, length,
  filter_by, filter_by-filter_by, filter_by-append, ==_iff, Bool-cases, inl, inr, arith, ok, ◌+◌,
}
use agentic_rag_claude_code.Access.Rbac.{Document, indexed}
use agentic_rag_claude_code.Ingestion.FileType.{txt}
use agentic_rag_claude_code.Ingestion.Elements.{text, ChunkData}
use agentic_rag_claude_code.Ingestion.Indexer.{
  Point, of_point, PointIndex, IndexState, Answers, index_document,
}

abbrev without_points : ℕ → List Point → List Point
without_points d s = filter_by (λ p. not (of_point d p)) s

none_left : (d : ℕ) (s : List Point) → filter_by (of_point d) (without_points d s) ≡ []
none_left d [] = refl
none_left d (p ∷ s) = ground (arith, none_left d s)

others_left :
    (d e : ℕ) (s : List Point)
    → e ≢ d
    → filter_by (of_point e) (without_points d s) ≡ filter_by (of_point e) s
others_left d e s other =
    filter_by-filter_by (of_point e) (λ p. not (of_point d p)) s
      (λ p same. elim (Bool-cases (of_point d p)) [
        | inl both ↦
            absurd (other (sym ((==_iff p.document_id e).0 same) ∙ (==_iff p.document_id d).0 both))
        | inr differs ↦ ap not differs
      ])

abbrev memory_index : PointIndex
memory_index = record {
  Store = List Point;
  points = λ d s. filter_by (of_point d) s;
  delete_by_document = without_points;
  upsert_points = λ ps s. s ++ ps;
  points-delete = none_left;
  points-delete_other = others_left;
  points-upsert = λ d ps s. filter_by-append (of_point d) s ps;
}

abbrev stored : Document
stored = record {
  id = 1;
  collection_id = 5;
  filename = codes "a.txt";
  file_type = txt;
  content_hash = 9;
  status = indexed;
  error = none;
  uploaded_by_id = none;
}

abbrev piece : ℕ → Text → ChunkData
piece i content = record {
  chunk_type = text;
  raw_content = content;
  normalized_content = content;
  chunk_index = i;
  page_number = none;
  section_title = none;
  source_metadata = record { of_element = none; bbox = none; table_repr = none; row_range = none };
}

abbrev old_point : Point
old_point = record {
  chunk_id = 70;
  document_id = 1;
  collection_id = 5;
  chunk_type = text;
  page_number = none;
  section_title = none;
  file_name = codes "a.txt";
  file_type = txt;
  content = codes "old";
  embed_text = codes "old";
}

abbrev before : IndexState memory_index
before = record {
  documents = record { document = stored; page_count = none } ∷ [];
  chunks = [];
  vectors = old_point ∷ [];
}

abbrev two_pieces : Answers
two_pieces = record {
  started = none;
  prepared = none;
  parsed = ok (piece 0 (codes "x") ∷ piece 1 (codes "y") ∷ [], 1);
  upserted = none;
  committed = none;
  unmarked = none;
}

abbrev number : ℕ → ℕ
number i = 80 + i

indexed_twice :
    let first = index_document memory_index length number two_pieces 1 before in
    let second = index_document memory_index length number two_pieces 1 first.1 in second.0 ≡ ok 2
unfolding index_document
indexed_twice = refl

rows_not_doubled :
    let first = index_document memory_index length number two_pieces 1 before in
    let second = index_document memory_index length number two_pieces 1 first.1 in
    length second.1.chunks ≡ 2
unfolding index_document
rows_not_doubled = refl

-- The old points are gone where the upsert fails.
cleared_and_failed :
    (index_document memory_index length number
      (record two_pieces { upserted = some (codes "down") })
      1
      before).1.vectors
    ≡ []
unfolding index_document
cleared_and_failed = refl

-- The new points stand without rows where the commit behind the upsert fails.
upserted_and_failed :
    let left =
      (index_document memory_index length number
        (record two_pieces { committed = some (codes "down") })
        1
        before).1 in
    length left.vectors ≡ 2 + length left.chunks
unfolding index_document
upserted_and_failed = refl
