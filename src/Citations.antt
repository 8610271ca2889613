-- ===== src/Citations.antt =====
-- app/graph/citations.py: the [n] markers of an answer, mapped back to the packed chunks.
pub mod Markers
pub mod Sources
use Prim.Native.Nat.{◌-◌}
use agentic_rag_claude_code.Prelude.{
  ℕ, ◌+◌, ◌*◌, Bool, ◌&&◌, ◌||◌, Option, none, some, List, [], ◌∷◌, ◌++◌, Text, codes, text_eq,
  is_empty, length, get_elem?, ltb, leb, ◌==◌, if◌then◌else◌, false,
}
use agentic_rag_claude_code.Characters.{CharTable, strip}
use agentic_rag_claude_code.Chunks.{Chunk}

-- INSUFFICIENT_ANSWER of app/graph/state.py
abbrev pub insufficient_answer : Text
insufficient_answer =
    codes
      "I don't have enough supporting evidence in the documents you can access to answer that confidently."

abbrev pub shift : ℕ → ℕ → ℕ
shift v d = 10 * v + d

-- `_CITE.findall`, the leftmost matches of \[(\d+)\], as an automaton: nothing open, a bracket just
-- opened, or a bracket and digits of value `v`.
pub data Mode : Type 0 where
  outside opened : Mode
  digits : ℕ → Mode

abbrev pub after : ℕ → Mode
after c = if c == b'[' then opened else outside

module _ (table : CharTable) where
  pub after_opening : ℕ → Option ℕ → Mode
  after_opening c none = after c
  after_opening c (some d) = digits (shift 0 d)

  pub after_digits : ℕ → ℕ → Option ℕ → Mode × List ℕ
  after_digits v c (some d) = (digits (shift v d), [])
  after_digits v c none = if c == b']' then (outside, v ∷ []) else (after c, [])

  -- the next mode, and the marker that ends with this character
  unfoldable pub scan_char : Mode → ℕ → Mode × List ℕ
  unfolding after_opening after_digits
  scan_char outside c = (after c, [])
  scan_char opened c = (after_opening c (table.decimal c), [])
  scan_char (digits v) c = after_digits v c (table.decimal c)

  unfoldable pub scan : Mode → Text → List ℕ
  unfolding scan_char
  scan mode [] = []
  scan mode (c ∷ t) = (scan_char mode c).1 ++ scan (scan_char mode c).0 t

-- sorted({...}): ascending, each number once
pub insert_marker : ℕ → List ℕ → List ℕ
insert_marker n [] = n ∷ []
insert_marker n (x ∷ xs) =
    if ltb n x then n ∷ x ∷ xs else if n == x then x ∷ xs else x ∷ insert_marker n xs

unfoldable pub sorted_set : List ℕ → List ℕ
unfolding insert_marker
sorted_set [] = []
sorted_set (n ∷ ns) = insert_marker n (sorted_set ns)

-- A citation as a dictionary: one that `is_bare` has the key document_id only, and what its other fields
-- hold stands for keys that are missing.
pub record Citation : Type 0 where
  pub is_bare : Bool
  pub marker : ℕ
  pub document_id : ℕ
  pub chunk_id : ℕ
  pub page_number : Option ℕ
  pub chunk_type : Text
  pub file_name : Option Text
  pub section_title : Option Text
  pub content : Text
  pub image_uri : Option Text

abbrev pub citation_of : ℕ → Chunk → Citation
citation_of n c = record {
  is_bare = false;
  marker = n;
  document_id = c.document_id;
  chunk_id = c.chunk_id;
  page_number = c.page_number;
  chunk_type = c.chunk_type;
  file_name = c.file_name;
  section_title = c.section_title;
  content = c.content;
  image_uri = c.image_uri;
}

-- `c.get("marker")`
abbrev pub get_marker : Citation → Option ℕ
get_marker c = if c.is_bare then none else some c.marker

-- `chunks[n - 1]`, which the caller's test keeps in range
abbrev pub cite_one : ℕ → Option Chunk → List Citation
cite_one n none = []
cite_one n (some c) = citation_of n c ∷ []

unfoldable pub cite_all : List Chunk → List ℕ → List Citation
cite_all chunks [] = []
cite_all chunks (n ∷ ns) =
    (if leb 1 n && leb n (length chunks) then cite_one n (get_elem? chunks (n - 1)) else [])
    ++ cite_all chunks ns

unfoldable pub extract_citations : CharTable → Text → List Chunk → List Citation
unfolding scan sorted_set cite_all
extract_citations table answer chunks =
    if is_empty answer || text_eq (strip table answer) insufficient_answer
    then []
    else cite_all chunks (sorted_set (scan table outside answer))
