-- ===== src/Ingestion/Texts.antt =====
-- `chunk_text_run` of app/ingestion/chunker.py. Where the packing of paragraphs has no result, which it
-- has for every overlap below the maximum, no chunk is made.
use agentic_rag_claude_code.Prelude.{
  ℕ, ◌+◌, ◌-◌, ◌*◌, ◌/◌, true, false, ◌&&◌, Option, none, List, [], ◌∷◌, ◌++◌, map, Text, length,
  is_empty, leb, get_or_else, ◌==◌, if◌then◌else◌,
}
use agentic_rag_claude_code.Settings.{Settings}
use agentic_rag_claude_code.Characters.{CharTable, strip}
use agentic_rag_claude_code.Ingestion.Elements.{
  text, ParsedElement, SourceMetadata, ChunkData, Writing,
}
use agentic_rag_claude_code.Ingestion.Paragraphs.{paragraph_break, pack_paragraphs}

-- sep.join(parts)
abbrev pub join : Text → List Text → Text
join sep [] = []
join sep (p ∷ []) = p
join sep (p ∷ q ∷ ps) = p ++ (sep ++ join sep (q ∷ ps))

abbrev pub cons_head : ℕ → List Text → List Text
cons_head c [] = (c ∷ []) ∷ []
cons_head c (p ∷ ps) = (c ∷ p) ∷ ps

-- text.split("\n\n")
unfoldable pub split_breaks : Text → List Text
split_breaks [] = [] ∷ []
split_breaks (c ∷ []) = (c ∷ []) ∷ []
split_breaks (c ∷ d ∷ rest) = elim (c == 10 && d == 10) [
  | true ↦ [] ∷ split_breaks rest
  | false ↦ cons_head c (split_breaks (d ∷ rest))
]

-- the page where the window begins: that of the last part at or before `consumed`
abbrev pub page_at : ℕ → Option ℕ → List (ℕ × Option ℕ) → Option ℕ
page_at consumed page [] = page
page_at consumed page ((off, pg) ∷ rest) =
    page_at consumed (if leb off consumed then pg else page) rest

abbrev pub offsets : ℕ → List (Text × Option ℕ) → List (ℕ × Option ℕ)
offsets offset [] = []
offsets offset ((p, page) ∷ rest) = (offset, page) ∷ offsets (offset + length p + 2) rest

abbrev pub plain : SourceMetadata
plain = record { of_element = none; bbox = none; table_repr = none; row_range = none }

abbrev pub section_of : List ParsedElement → Option Text
section_of [] = none
section_of (el ∷ run) = el.section_title

module _ (t : CharTable) (s : Settings) (v : Writing) where
  abbrev pub parts_of : List ParsedElement → List (Text × Option ℕ)
  parts_of [] = []
  parts_of (el ∷ run) =
      let rest = parts_of run in
      let normalized = v.normalize_text el.content in
      if is_empty normalized then rest else (normalized, el.page) ∷ rest

  abbrev pub paragraphs_of : List Text → List Text
  paragraphs_of [] = []
  paragraphs_of (p ∷ ps) =
      let rest = paragraphs_of ps in if is_empty (strip t p) then rest else strip t p ∷ rest

  -- the chunks of the windows, each on the page of its begin
  unfoldable pub text_chunks : Option Text → List (ℕ × Option ℕ) → ℕ → List Text → List ChunkData
  text_chunks section page_for consumed [] = []
  text_chunks section page_for consumed (piece ∷ rest) =
      let used = length piece - length piece * s.chunk_overlap_percent / 100 in
      (record {
        chunk_type = text;
        raw_content = piece;
        normalized_content = piece;
        chunk_index = 0;
        page_number = page_at consumed none page_for;
        section_title = section;
        source_metadata = plain;
      })
      ∷ text_chunks section page_for (consumed + (if leb used 1 then 1 else used)) rest

  abbrev pub packed : List Text → List Text
  packed paragraphs = get_or_else (pack_paragraphs t s paragraphs) []

  unfoldable pub chunk_text_run : List ParsedElement → List ChunkData
  unfolding text_chunks split_breaks
  chunk_text_run run =
      let parts = parts_of run in
      let whole = join paragraph_break (map (λ (p : Text × Option ℕ). p.0) parts) in
      if is_empty (strip t whole)
      then []
      else text_chunks (section_of run) (offsets 0 parts) 0
          (packed (paragraphs_of (split_breaks whole)))
