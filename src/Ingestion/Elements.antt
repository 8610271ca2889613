-- ===== src/Ingestion/Elements.antt =====
-- app/ingestion/types.py, and what app/ingestion/chunker.py calls to write texts: the normalization of
-- app/ingestion/normalize.py and the rendering of tables are parameters.
use agentic_rag_claude_code.Prelude.{ℕ, Bool, true, false, Option, List, Text}

pub data ChunkType : Type 0 where
  text table image chart diagram form ocr : ChunkType

abbrev pub is_text : ChunkType → Bool
is_text text = true
is_text table = false
is_text image = false
is_text chart = false
is_text diagram = false
is_text form = false
is_text ocr = false

abbrev pub is_table : ChunkType → Bool
is_table text = false
is_table table = true
is_table image = false
is_table chart = false
is_table diagram = false
is_table form = false
is_table ocr = false

-- The keys of a dictionary that the chunker reads, and the others; a missing key is none.
pub record Metadata : Type 0 where
  pub rows : Option (List (List Text))
  pub header : Option (List Text)
  pub caption : Option Text
  pub others : List (Text × Text)

pub record ParsedElement : Type 0 where
  pub kind : ChunkType
  pub content : Text
  pub page : Option ℕ
  pub section_title : Option Text
  pub bbox : Option (List ℕ)
  pub metadata : Metadata

-- The metadata of a chunk: that of the element, and what the chunker adds.
pub record SourceMetadata : Type 0 where
  pub of_element : Option Metadata
  pub bbox : Option (List ℕ)
  pub table_repr : Option Text
  pub row_range : Option (ℕ × ℕ)

pub record ChunkData : Type 0 where
  pub chunk_type : ChunkType
  pub raw_content : Text
  pub normalized_content : Text
  pub chunk_index : ℕ
  pub page_number : Option ℕ
  pub section_title : Option Text
  pub source_metadata : SourceMetadata

pub record Table : Type 0 where
  pub rows : List (List Text)
  pub header : Option (List Text)
  pub caption : Option Text

pub record Writing : Type 0 where
  -- normalize_text
  pub normalize_text : Text → Text
  -- table_to_markdown, table_summary with the section title and the hint, and the summary of a table
  -- without rows
  pub table_to_markdown : Table → Text
  pub table_summary : Table → Option Text → Option Text → Text
  pub plain_summary : Option Text → Text
  -- serialize_row, with the number of the row
  pub serialize_row : List Text → Option (List Text) → ℕ → Text
  -- the characters at which str.splitlines ends a line
  pub ends_line : ℕ → Bool
  -- `a in b` of two texts
  pub is_within : Text → Text → Bool
