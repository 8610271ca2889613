-- ===== src/Ingestion/Chunker/Segments.antt =====
-- The segments that `build_chunks_v2` of app/ingestion/chunker.py reads the elements as: runs of texts of
-- one section, and the elements between them.
use agentic_rag_claude_code.Prelude.{
  Bool, true, false, not, ◌&&◌, Option, none, some, List, [], ◌∷◌, ◌++◌, Text, ◌≡◌, ◌≢◌, is_empty,
  All, if◌then◌else◌,
}
use agentic_rag_claude_code.Settings.{Settings}
use agentic_rag_claude_code.Characters.{CharTable}
use agentic_rag_claude_code.Ingestion.Elements.{
  ParsedElement, ChunkData, Writing, is_text, is_table,
}
use agentic_rag_claude_code.Ingestion.Texts.{section_of, chunk_text_run}
use agentic_rag_claude_code.Ingestion.Tables.{chunk_table}
use agentic_rag_claude_code.Ingestion.Chunker.{caption_hint, visual_chunk, option_eq}

pub data Segment : Type 0 where
  texts : Option Text → List ParsedElement → Segment
  visual : ParsedElement → Segment

abbrev pub elements_of : List Segment → List ParsedElement
elements_of [] = []
elements_of (texts section run ∷ ss) = run ++ elements_of ss
elements_of (visual el ∷ ss) = el ∷ elements_of ss

abbrev pub IsIn : Option Text → ParsedElement → Type 0
IsIn section el = (is_text el.kind ≡ true) × (el.section_title ≡ section)

-- A run is as long as it can be: the run before it, if no other element is between, is of another
-- section. `before` is the section of that run.
abbrev pub AreSegments : Option (Option Text) → List Segment → Type 0
AreSegments before [] = Unit
AreSegments before (texts section run ∷ ss) =
    (is_empty run ≡ false)
    × All (IsIn section) run
    × (before ≢ some section)
    × AreSegments (some section) ss
AreSegments before (visual el ∷ ss) = (is_text el.kind ≡ false) × AreSegments none ss

-- The last text of a run, with the text above it.
abbrev pub text_above : Option ParsedElement → List ParsedElement → Option ParsedElement
text_above above [] = above
text_above above (el ∷ run) = text_above (some el) run

module _ (t : CharTable) (s : Settings) (v : Writing) where
  -- The chunks of the segments one after the other; `above` is the text directly above.
  abbrev pub chunks_of : Option ParsedElement → List Segment → List ChunkData
  chunks_of above [] = []
  chunks_of above (texts section run ∷ ss) =
      chunk_text_run t s v run ++ chunks_of (text_above above run) ss
  chunks_of above (visual el ∷ ss) =
      let hint = caption_hint t v above in
      (if is_table el.kind then chunk_table s v el hint else visual_chunk t v el hint ∷ [])
      ++ chunks_of none ss

-- The segments of a run and of the elements after it.
abbrev pub close : List ParsedElement → List Segment
close [] = []
close (el ∷ run) = texts el.section_title (el ∷ run) ∷ []

abbrev pub closes : ParsedElement → List ParsedElement → Bool
closes el run = not (is_empty run) && not (option_eq el.section_title (section_of run))

abbrev pub segments : List ParsedElement → List ParsedElement → List Segment
segments run [] = close run
segments run (el ∷ els) =
    let apart = close run ++ segments (el ∷ []) els in
    let together = segments (run ++ el ∷ []) els in
    let visible = close run ++ visual el ∷ segments [] els in
    if is_text el.kind then (if closes el run then apart else together) else visible
