-- ===== src/Tests/Chunker.antt =====
-- The chunks of a few elements, with the examples of their theorem.
use agentic_rag_claude_code.Prelude.{
  ℕ, none, some, Option, List, [], ◌∷◌, Text, codes, ◌≡◌, refl, ◌==◌, false, map,
}
use agentic_rag_claude_code.Characters.{ascii, strip}
use agentic_rag_claude_code.Settings.{defaults}
use agentic_rag_claude_code.Ingestion.Elements.{
  ChunkType, text, image, ParsedElement, ChunkData, Writing,
}
use agentic_rag_claude_code.Ingestion.Paragraphs.{pack_paragraphs}
use agentic_rag_claude_code.Ingestion.Chunker.{number_from, build_chunks_v2}
use agentic_rag_claude_code.Ingestion.Chunker.Segments.{
  Segment, elements_of, AreSegments, chunks_of,
}
use agentic_rag_claude_code.Ingestion.Chunker.Segmented.{build_chunks_v2-AreSegments}

abbrev writing : Writing
writing = record {
  normalize_text = λ a. a;
  table_to_markdown = λ tb. codes "| |";
  table_summary = λ tb section hint. codes "Tabelle.";
  plain_summary = λ cap. codes "Tabelle.";
  serialize_row = λ row header n. codes "Zeile";
  ends_line = λ c. c == 10;
  is_within = λ a b. false;
}

abbrev element : ChunkType → Text → Option Text → ParsedElement
element kind content section = record {
  kind = kind;
  content = content;
  page = some 1;
  section_title = section;
  bbox = none;
  metadata = record { rows = none; header = none; caption = none; others = [] };
}

abbrev elements : List ParsedElement
elements =
    element text (codes "Ab") (some (codes "A"))
    ∷ element text (codes "Cd") (some (codes "B"))
    ∷ element image (codes "Ef") (some (codes "B"))
    ∷ []

-- The two sections are not merged, and the image carries the line above it.
three_chunks :
    map {B = ℕ × Text}
      (λ (c : ChunkData). (c.chunk_index, c.normalized_content))
      (build_chunks_v2 ascii defaults writing elements)
    ≡ (0, codes "Ab") ∷ (1, codes "Cd") ∷ (2, codes "Cd\n\nEf") ∷ []
unfolding build_chunks_v2 strip pack_paragraphs
three_chunks = refl

build_chunks_v2-AreSegments_example :
    (ss : List Segment) × (elements_of ss ≡ elements)
    × AreSegments none ss
    × (build_chunks_v2 ascii defaults writing elements
        ≡ number_from 0 (chunks_of ascii defaults writing none ss))
build_chunks_v2-AreSegments_example = build_chunks_v2-AreSegments ascii defaults writing elements
