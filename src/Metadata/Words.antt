-- ===== src/Metadata/Words.antt =====
-- The words of a question that app/retrieval/metadata_lookup.py looks at, and `detect_lang` of
-- app/graph/prompts.py. `is_word` is the class \w of regular expressions, `lower` is str.lower.
use mathlib.Core.List.{reverse}
use agentic_rag_claude_code.Prelude.{
  ℕ, Bool, true, false, not, ◌&&◌, ◌||◌, List, [], ◌∷◌, ◌++◌, Text, String, codes, text_in, one_of,
  starts_with, is_empty, length, drop, elem, leb, filter_by, ◌==◌, if◌then◌else◌,
}

-- _FILE_TYPES
abbrev pub file_types : List Text
file_types =
    codes "pdf"
    ∷ codes "docx"
    ∷ codes "pptx"
    ∷ codes "xlsx"
    ∷ codes "csv"
    ∷ codes "txt"
    ∷ codes "md"
    ∷ []

-- _STOPWORDS
abbrev pub stopwords : List String
stopwords =
    "das" ∷ "der" ∷ "die" ∷ "und" ∷ "oder" ∷ "ist" ∷ "sind" ∷ "wie" ∷ "was" ∷ "wer" ∷ "wann"
    ∷ "welche" ∷ "welches" ∷ "welcher" ∷ "viele" ∷ "seiten" ∷ "hat" ∷ "gibt" ∷ "eine" ∷ "einen"
    ∷ "neueste" ∷ "neuere" ∷ "aktuellste" ∷ "version" ∷ "fassung" ∷ "dokument" ∷ "dokumente"
    ∷ "datei" ∷ "dateien" ∷ "sammlung" ∷ "hochgeladen" ∷ "aktualisiert" ∷ "zuletzt" ∷ "von" ∷ "the"
    ∷ "and" ∷ "what" ∷ "which" ∷ "who" ∷ "when" ∷ "how" ∷ "many" ∷ "pages" ∷ "does" ∷ "have"
    ∷ "there" ∷ "are" ∷ "is" ∷ "latest" ∷ "newest" ∷ "version" ∷ "document" ∷ "documents" ∷ "file"
    ∷ "files" ∷ "collection" ∷ "uploaded" ∷ "updated" ∷ "recently" ∷ "most" ∷ "author" ∷ "type"
    ∷ "list" ∷ "all" ∷ "available" ∷ "week" ∷ "this" ∷ "was" ∷ []

-- _DE_WORDS
abbrev pub de_words : List Text
de_words =
    codes "der"
    ∷ codes "die"
    ∷ codes "das"
    ∷ codes "und"
    ∷ codes "ist"
    ∷ codes "sind"
    ∷ codes "was"
    ∷ codes "wie"
    ∷ codes "mehr"
    ∷ codes "auf"
    ∷ codes "mir"
    ∷ codes "den"
    ∷ codes "dem"
    ∷ codes "ein"
    ∷ codes "eine"
    ∷ codes "nicht"
    ∷ codes "mit"
    ∷ codes "für"
    ∷ codes "von"
    ∷ codes "zu"
    ∷ codes "sich"
    ∷ codes "auch"
    ∷ codes "werden"
    ∷ codes "wird"
    ∷ codes "aufgaben"
    ∷ codes "erkläre"
    ∷ codes "erklär"
    ∷ codes "warum"
    ∷ codes "wer"
    ∷ codes "welche"
    ∷ codes "kannst"
    ∷ []

-- `re.findall` of a class of characters with `+`, the word in hand reversed
unfoldable pub runs : (ℕ → Bool) → Text → Text → List Text
runs p word [] = if is_empty word then [] else reverse word ∷ []
runs p word (c ∷ t) = elim (p c) [
  | true ↦ runs p (c ∷ word) t
  | false ↦ let rest = runs p [] t in if is_empty word then rest else reverse word ∷ rest
]

abbrev pub is_hyphen : ℕ → Bool
is_hyphen c = c == 45

-- the parts of a compound
unfoldable pub parts : Text → List Text
unfolding runs
parts w = runs (λ c. not (is_hyphen c)) [] w

unfoldable pub expanded : List Text → List Text
unfolding parts
expanded [] = []
expanded (w ∷ ws) = let rest = expanded ws in w ∷ (if elem 45 w then parts w ++ rest else rest)

-- a word that narrows the lookup
abbrev pub is_token : Text → Bool
is_token w = leb 3 (length w) && not (one_of w stopwords) && not (text_in w file_types)

abbrev pub has_de_char : Text → Bool
has_de_char [] = false
has_de_char (c ∷ t) = elem c (codes "äöüßÄÖÜ") || has_de_char t

pub data Lang : Type 0 where
  de en : Lang

module _ (is_word : ℕ → Bool) (lower : Text → Text) where
  unfoldable pub tokens : Text → List Text
  unfolding runs expanded
  tokens query =
      filter_by is_token
        (expanded (runs (λ c. is_word c || elem c (codes "äöüß-")) [] (lower query)))

  -- no word goes on at the start of the text
  abbrev pub is_boundary : Text → Bool
  is_boundary [] = true
  is_boundary (c ∷ t) = not (is_word c)

  -- re.search(rf"\b{t}\b", q); `inside` tells that a word stands before
  abbrev pub mentions : Text → Bool → Text → Bool
  mentions t inside [] = false
  mentions t inside (c ∷ q) =
      let here = starts_with (c ∷ q) t && is_boundary (drop (length t) (c ∷ q)) in
      not inside && here || mentions t (is_word c) q

  unfoldable pub mentioned_types : Text → List Text
  mentioned_types query = filter_by (λ t. mentions t false (lower query)) file_types

  unfoldable pub detect_lang : Text → Lang
  unfolding runs
  detect_lang text =
      let words = runs is_word [] (lower text) in
      if has_de_char text || leb 2 (length (filter_by (λ w. text_in w words) de_words))
      then de
      else en
