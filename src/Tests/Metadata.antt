-- ===== src/Tests/Metadata.antt =====
-- The lookup of documents by their properties on a few rows.
use agentic_rag_claude_code.Prelude.{
  ℕ, ◌≡◌, refl, Bool, ◌&&◌, ◌||◌, none, some, List, [], ◌∷◌, map, Text, codes, leb, arith, true,
}
use agentic_rag_claude_code.Settings.{defaults}
use agentic_rag_claude_code.Chunks.{Chunk}
use agentic_rag_claude_code.Access.Rbac.{Role, User, Collection, indexed}
use agentic_rag_claude_code.Ingestion.FileType.{FileType, pdf, md}
use agentic_rag_claude_code.Metadata.Words.{
  runs, parts, expanded, de, tokens, mentioned_types, detect_lang,
}
use agentic_rag_claude_code.Metadata.Lookup.{DocumentRow, lookup_documents}
use agentic_rag_claude_code.Metadata.Scoped.{IsLookup, lookup_documents-IsLookup}

abbrev as_is : Text → Text
as_is t = t

abbrev is_word : ℕ → Bool
is_word c = leb 97 c && leb c 122 || leb 48 c && leb c 57 || leb 224 c && leb c 255

abbrev row : ℕ → ℕ → Text → FileType → DocumentRow
row i collection filename file_type = record {
  document = record {
    id = i;
    collection_id = collection;
    filename = filename;
    file_type = file_type;
    content_hash = i;
    status = indexed;
    error = none;
    uploaded_by_id = some 7;
  };
  page_count = some 2;
  created_at = 1;
  updated_at = 2;
}

abbrev rows : List DocumentRow
rows =
    row 1 5 (codes "vpn_richtlinie.pdf") pdf
    ∷ row 2 6 (codes "secret.pdf") pdf
    ∷ row 3 5 (codes "notes.md") md
    ∷ []

abbrev collections : List Collection
collections =
    record { id = 5; name = codes "it"; department_id = none }
    ∷ record { id = 6; name = codes "board"; department_id = none }
    ∷ []

abbrev uploader : User
uploader = record {
  id = 7;
  role = Role.user;
  department_id = none;
  is_active = true;
  email = codes "a@b";
  hashed_password = [];
}

abbrev ids : List Chunk → List ℕ
ids hits = map (λ (h : Chunk). h.document_id) hits

split_up :
    tokens is_word as_is (codes "welche version hat die vpn-richtlinie als pdf?")
    ≡ codes "vpn-richtlinie" ∷ codes "vpn" ∷ codes "richtlinie" ∷ codes "als" ∷ []
unfolding tokens expanded parts runs
split_up = refl

types_named :
    mentioned_types is_word as_is (codes "a pdf, no pdfs or .md") ≡ codes "pdf" ∷ codes "md" ∷ []
unfolding mentioned_types
types_named = refl

languages : detect_lang is_word as_is (codes "wie sind die zahlen") ≡ de
unfolding detect_lang runs
languages = refl

abbrev look : Text → List ℕ
look query = ids (
    lookup_documents (λ n. []) (λ n. []) is_word as_is defaults collections (uploader ∷ []) rows
      (5 ∷ []) query none)

listed : look (codes "which files are there") ≡ 1 ∷ 3 ∷ []
unfolding lookup_documents runs expanded parts
listed = refl

by_name : look (codes "who wrote the vpn-notes and secret") ≡ 1 ∷ 3 ∷ []
unfolding lookup_documents runs expanded parts
by_name = refl

by_type : look (codes "the newest pdf") ≡ 1 ∷ []
unfolding lookup_documents runs expanded parts
by_type = refl

lookup_documents-IsLookup_example :
    IsLookup (5 ∷ []) (mentioned_types is_word as_is (codes "the newest pdf")) collections rows 10 (
      lookup_documents
        (λ n. [])
        (λ n. [])
        is_word
        as_is
        defaults
        collections
        (uploader ∷ [])
        rows
        (5 ∷ [])
        (codes "the newest pdf")
        none)
lookup_documents-IsLookup_example =
    lookup_documents-IsLookup (λ n. []) (λ n. []) is_word as_is defaults collections (uploader ∷ [])
      rows (5 ∷ []) (codes "the newest pdf") none (omega arith)
