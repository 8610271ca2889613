-- ===== src/Ingestion/Tables.antt =====
-- `chunk_table` and `_row_chunk` of app/ingestion/chunker.py
use agentic_rag_claude_code.Prelude.{
  ℕ, suc, Option, none, some, List, [], ◌∷◌, ◌++◌, map, Text, codes, length, is_empty, ltb,
  if◌then◌else◌,
}
use agentic_rag_claude_code.Settings.{Settings}
use agentic_rag_claude_code.Context.Estimate.{chars_of_tokens}
use agentic_rag_claude_code.Ingestion.Elements.{table, ParsedElement, ChunkData, Table, Writing}
use agentic_rag_claude_code.Ingestion.Rows.{RowChunk, pack_rows}
use agentic_rag_claude_code.Ingestion.Paragraphs.{paragraph_break}
use agentic_rag_claude_code.Ingestion.Texts.{join}

-- `x or y` of texts that may be None, where an empty text counts as None
abbrev pub or_text : Option Text → Option Text → Option Text
or_text none b = b
or_text (some a) b = if is_empty a then b else some a

abbrev pub table_chunk : ParsedElement → Text → Text → Option (ℕ × ℕ) → ChunkData
table_chunk el body repr range = record {
  chunk_type = table;
  raw_content = body;
  normalized_content = body;
  chunk_index = 0;
  page_number = el.page;
  section_title = el.section_title;
  source_metadata = record {
    of_element = some (record el.metadata { rows = none; header = none });
    bbox = el.bbox;
    table_repr = some repr;
    row_range = range;
  };
}

-- _row_chunk
abbrev pub row_chunks : ParsedElement → Text → List RowChunk → List ChunkData
row_chunks el summary cs =
    map
      (λ (c : RowChunk).
        table_chunk el (summary ++ (10 ∷ join (10 ∷ []) c.lines)) (codes "rows")
          (some (c.row_from, c.row_to)))
      cs

abbrev pub markdown_chunk : ParsedElement → Text → Text → ChunkData
markdown_chunk el summary md =
    table_chunk el (summary ++ (paragraph_break ++ md)) (codes "markdown") none

module _ (s : Settings) (v : Writing) where
  abbrev pub serialized : Option (List Text) → ℕ → List (List Text) → List Text
  serialized header n [] = []
  serialized header n (r ∷ rs) = v.serialize_row r header n ∷ serialized header (suc n) rs

  abbrev pub structured_table : ParsedElement → Option Text → List (List Text) → List ChunkData
  structured_table el caption_hint rows =
      let tb : Table = record {
        rows = rows;
        header = el.metadata.header;
        caption = el.metadata.caption;
      } in
      let summary = v.table_summary tb el.section_title caption_hint in
      markdown_chunk el summary (v.table_to_markdown tb)
      ∷ (if ltb s.table_row_serialize_threshold (length rows)
          then row_chunks el summary (
              pack_rows (chars_of_tokens s.chunk_max_tokens) summary
                (serialized el.metadata.header 1 rows))
          else [])

  abbrev pub plain_table : ParsedElement → Option Text → List ChunkData
  plain_table el caption_hint =
      markdown_chunk el (v.plain_summary (or_text caption_hint el.section_title)) el.content ∷ []

  unfoldable pub chunk_table : ParsedElement → Option Text → List ChunkData
  unfolding pack_rows
  chunk_table el caption_hint = elim el.metadata.rows [
    | none ↦ plain_table el caption_hint
    | some rows ↦
        if is_empty rows then plain_table el caption_hint else structured_table el caption_hint rows
  ]
