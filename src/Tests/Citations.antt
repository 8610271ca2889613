-- ===== src/Tests/Citations.antt =====
-- Citation markers (app/graph/citations.py) at concrete answers.
use agentic_rag_claude_code.Prelude.{
  ◌≡◌, refl, ◌↔◌, none, some, List, [], ◌∷◌, Text, codes, inl, arith, In, is_empty, text_eq, false,
  ◌||◌,
}
use agentic_rag_claude_code.Characters.{ascii, ascii-HasPlainBrackets, strip}
use agentic_rag_claude_code.Chunks.{Chunk}
use agentic_rag_claude_code.Citations.{
  Citation, insufficient_answer, outside, scan, extract_citations,
}
use agentic_rag_claude_code.Citations.Markers.{Occurs, IsNumeral, value_from, scan-Occurs}
use agentic_rag_claude_code.Citations.Sources.{
  markers, AreSources, extract_citations-AreSources, extract_citations_complete,
}
use agentic_rag_claude_code.Graph.NativeMarkers.{normalize_markers}

abbrev the_chunk : Chunk
the_chunk = record {
  chunk_id = 11;
  document_id = 1;
  collection_id = 7;
  chunk_type = codes "text";
  page_number = some 3;
  section_title = none;
  content = codes "the town hall opens at eight";
  file_name = none;
  image_uri = none;
}

abbrev packed : List Chunk
packed = the_chunk ∷ []

abbrev answer : Text
answer = codes "It opens at eight [1], not at nine [9]. [1]"

scan_answer : scan ascii outside answer ≡ 1 ∷ 9 ∷ 1 ∷ []
unfolding scan
scan_answer = refl

-- Marker 9 has no chunk and is dropped; marker 1 is cited once.
cited_markers : markers (extract_citations ascii answer packed) ≡ 1 ∷ []
unfolding extract_citations strip
cited_markers = refl

normalize_native :
    normalize_markers ascii (codes "so 【1†L1-L2】 and 【 12 】 but 【x】 and [3]")
    ≡ codes "so [1] and [12] but 【x】 and [3]"
unfolding normalize_markers
normalize_native = refl

scan-Occurs_example : In 9 (scan ascii outside answer) ↔ Occurs ascii 9 answer
scan-Occurs_example = scan-Occurs ascii ascii-HasPlainBrackets 9 answer

IsNumeral-one : IsNumeral ascii (codes "1") 1
unfolding value_from
IsNumeral-one = record { nonempty = λ e. cc e; value = refl }

one-Occurs : Occurs ascii 1 answer
one-Occurs = record {
  before = codes "It opens at eight ";
  numeral = codes "1";
  behind = codes ", not at nine [9]. [1]";
  split = refl;
  is_numeral = IsNumeral-one;
}

abbrev source_of_one : Citation
source_of_one = record {
  is_bare = false;
  marker = 1;
  document_id = 1;
  chunk_id = 11;
  page_number = some 3;
  chunk_type = codes "text";
  file_name = none;
  section_title = none;
  content = codes "the town hall opens at eight";
  image_uri = none;
}

cites_one : In source_of_one (extract_citations ascii answer packed)
unfolding extract_citations strip
cites_one = inl refl

extract_citations-AreSources_example :
    AreSources ascii answer packed (extract_citations ascii answer packed)
extract_citations-AreSources_example =
    extract_citations-AreSources ascii ascii-HasPlainBrackets answer packed

speaks : (is_empty answer || text_eq (strip ascii answer) insufficient_answer) ≡ false
unfolding strip
speaks = refl

extract_citations_complete_example : In source_of_one (extract_citations ascii answer packed)
extract_citations_complete_example =
    extract_citations_complete ascii ascii-HasPlainBrackets answer packed 1 the_chunk speaks
      one-Occurs (omega arith) refl
