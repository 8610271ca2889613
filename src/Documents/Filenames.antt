-- ===== src/Documents/Filenames.antt =====
-- `safe_filename` of app/ingestion/storage.py.
use agentic_rag_claude_code.Prelude.{
  Bool, ◌||◌, [], ◌∷◌, ◌++◌, Text, codes, text_eq, is_empty, ◌==◌, if◌then◌else◌,
}
use agentic_rag_claude_code.Characters.{CharTable, strip}

-- filename.replace("\\", "/")
abbrev pub with_slashes : Text → Text
with_slashes [] = []
with_slashes (c ∷ name) = (if c == 92 then 47 else c) ∷ with_slashes name

-- name.split("/")[-1], behind `current` of its segment
abbrev pub last_segment : Text → Text → Text
last_segment current [] = current
last_segment current (c ∷ name) = last_segment (if c == 47 then [] else current ++ c ∷ []) name

abbrev pub is_no_name : Text → Bool
is_no_name name = is_empty name || text_eq name (codes ".") || text_eq name (codes "..")

unfoldable pub safe_filename : CharTable → Text → Text
safe_filename t filename =
    let name = strip t (last_segment [] (with_slashes filename)) in
    if is_no_name name then codes "upload.bin" else name
