-- ===== src/Ingestion/Chunker.antt =====
-- `_caption_hint` and `build_chunks_v2` of app/ingestion/chunker.py
pub mod Segments
pub mod Segmented
use agentic_rag_claude_code.Prelude.{
  ℕ, zero, suc, ◌+◌, ◌-◌, ◌*◌, ◌/◌, Bool, true, false, not, ◌&&◌, Option, none, some, List, [], ◌∷◌,
  ◌++◌, map, Text, codes, length, is_empty, is_some, leb, ltb, text_eq, get_or_else, ◌==◌,
  if◌then◌else◌,
}
use agentic_rag_claude_code.Settings.{Settings}
use agentic_rag_claude_code.Characters.{CharTable, strip}
use agentic_rag_claude_code.Context.Estimate.{chars_of_tokens}
use agentic_rag_claude_code.Ingestion.Elements.{
  ChunkType, text, table, is_text, is_table, Metadata, ParsedElement, SourceMetadata, ChunkData,
  Table, Writing,
}
use agentic_rag_claude_code.Ingestion.Rows.{RowChunk, pack_rows}
use agentic_rag_claude_code.Ingestion.Paragraphs.{paragraph_break, pack_paragraphs}
use agentic_rag_claude_code.Ingestion.Texts.{section_of, chunk_text_run}
use agentic_rag_claude_code.Ingestion.Tables.{or_text, chunk_table}

abbrev pub option_eq : Option Text → Option Text → Bool
option_eq none none = true
option_eq none (some b) = false
option_eq (some a) none = false
option_eq (some a) (some b) = text_eq a b

abbrev pub caption_hint_max : ℕ
caption_hint_max = 160

-- out, run and last_text of the loop
pub record Builder : Type 0 where
  pub out : List ChunkData
  pub run : List ParsedElement
  pub last_text : Option ParsedElement

unfoldable pub number_from : ℕ → List ChunkData → List ChunkData
number_from i [] = []
number_from i (c ∷ cs) = record c { chunk_index = i } ∷ number_from (suc i) cs

module _ (t : CharTable) (v : Writing) where
  -- the characters before the first line end
  abbrev pub first_line : Text → Text
  first_line [] = []
  first_line (c ∷ rest) = let more = first_line rest in if v.ends_line c then [] else c ∷ more

  abbrev pub usable : Text → Option Text
  usable line =
      if is_empty line then none else if ltb caption_hint_max (length line) then none else some line

  unfoldable pub caption_hint : Option ParsedElement → Option Text
  caption_hint none = none
  caption_hint (some el) = usable (strip t (first_line (strip t el.content)))

  abbrev pub with_caption : ParsedElement → Option Text → Text → Text
  with_caption el none normalized = normalized
  with_caption el (some hint) normalized =
      if not (is_empty hint)
        && not (is_some (or_text el.metadata.caption none))
        && not (v.is_within hint normalized)
      then hint ++ (paragraph_break ++ normalized)
      else normalized

  unfoldable pub visual_chunk : ParsedElement → Option Text → ChunkData
  visual_chunk el hint =
      let normalized = v.normalize_text el.content in
      record {
        chunk_type = el.kind;
        raw_content = el.content;
        normalized_content =
            with_caption el hint (if is_empty normalized then el.content else normalized);
        chunk_index = 0;
        page_number = el.page;
        section_title = el.section_title;
        source_metadata = record {
          of_element = some el.metadata;
          bbox = el.bbox;
          table_repr = none;
          row_range = none;
        };
      }

module _ (t : CharTable) (s : Settings) (v : Writing) where
  unfoldable pub flush : Builder → Builder
  unfolding chunk_text_run
  flush b =
      if is_empty b.run then b else record b { out = b.out ++ chunk_text_run t s v b.run; run = [] }

  -- a text element: a heading change closes the run before it
  unfoldable pub add_text : ParsedElement → Builder → Builder
  unfolding flush
  add_text el b =
      let b =
        if not (is_empty b.run) && not (option_eq el.section_title (section_of b.run))
        then flush b
        else b in
      record b { run = b.run ++ el ∷ []; last_text = some el }

  -- a table, or an element that is passed through
  unfoldable pub add_visual : ParsedElement → Builder → Builder
  unfolding flush chunk_table caption_hint visual_chunk
  add_visual el b =
      let b = flush b in
      let hint = caption_hint t v b.last_text in
      record b {
        out =
            b.out
            ++ (if is_table el.kind
                then chunk_table s v el hint
                else visual_chunk t v el hint ∷ []);
        last_text = none;
      }

  unfoldable pub add_element : ParsedElement → Builder → Builder
  unfolding add_text add_visual
  add_element el b = if is_text el.kind then add_text el b else add_visual el b

  unfoldable pub add_elements : Builder → List ParsedElement → Builder
  unfolding add_element
  add_elements b [] = b
  add_elements b (el ∷ els) = add_elements (add_element el b) els

  unfoldable pub build_chunks_v2 : List ParsedElement → List ChunkData
  unfolding add_elements flush number_from
  build_chunks_v2 els =
      number_from 0 (flush (add_elements (record { out = []; run = []; last_text = none }) els)).out
