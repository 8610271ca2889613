-- ===== src/Metadata/Lookup.antt =====
-- `lookup_documents` of app/retrieval/metadata_lookup.py. The rows of the documents come with the latest
-- updated_at first, and created_at after it, which is the order of the query. `show` is str of a number,
-- `day` is strftime with the format of a day.
use agentic_rag_claude_code.Prelude.{
  ℕ, zero, suc, Bool, false, ◌&&◌, ◌||◌, Option, none, some, List, [], ◌∷◌, ◌++◌, map, Text, codes,
  text_in, is_infix, is_empty, take, elem, filter_by, find_if, ◌==◌, if◌then◌else◌,
}
use agentic_rag_claude_code.Settings.{Settings}
use agentic_rag_claude_code.Chunks.{Chunk}
use agentic_rag_claude_code.Access.Rbac.{
  Collection, Document, DocumentStatus, pending, processing, indexed, failed, duplicate, User,
}
use agentic_rag_claude_code.Ingestion.FileType.{
  FileType, pdf, docx, pptx, xlsx, csv, txt, md, html, image,
}
use agentic_rag_claude_code.Metadata.Words.{Lang, de, en, tokens, mentioned_types, detect_lang}

-- the row of a document with the columns that the lookup shows
pub record DocumentRow : Type 0 where
  pub document : Document
  pub page_count : Option ℕ
  pub created_at : ℕ
  pub updated_at : ℕ

-- a row of the joined query
pub record Row : Type 0 where
  pub doc : DocumentRow
  pub name : Text
  pub email : Option Text

abbrev pub file_type_text : FileType → Text
file_type_text pdf = codes "pdf"
file_type_text docx = codes "docx"
file_type_text pptx = codes "pptx"
file_type_text xlsx = codes "xlsx"
file_type_text csv = codes "csv"
file_type_text txt = codes "txt"
file_type_text md = codes "md"
file_type_text html = codes "html"
file_type_text image = codes "image"

abbrev pub status_text : DocumentStatus → Text
status_text pending = codes "pending"
status_text processing = codes "processing"
status_text indexed = codes "indexed"
status_text failed = codes "failed"
status_text duplicate = codes "duplicate"

-- the outer join with the uploader
abbrev pub email_of : Option ℕ → List User → Option Text
email_of none users = none
email_of (some i) users = elim (find_if (λ (u : User). u.id == i) users) [
  | none ↦ none
  | some u ↦ some u.email
]

-- the inner join with the collection
abbrev pub row_of : List User → DocumentRow → Option Collection → List Row
row_of users d none = []
row_of users d (some c) =
    record { doc = d; name = c.name; email = email_of d.document.uploaded_by_id users } ∷ []

abbrev pub collection_row : List Collection → DocumentRow → Option Collection
collection_row collections d =
    find_if (λ (c : Collection). c.id == d.document.collection_id) collections

-- the filters of the query
abbrev pub is_wanted : List ℕ → List Text → DocumentRow → Bool
is_wanted allowed types d =
    elem d.document.collection_id allowed
    && (is_empty types || text_in (file_type_text d.document.file_type) types)

unfoldable pub selected :
    List ℕ → List Text → List Collection → List User → List DocumentRow → List Row
selected allowed types collections users [] = []
selected allowed types collections users (d ∷ ds) =
    let rest = selected allowed types collections users ds in
    if is_wanted allowed types d
    then row_of users d (collection_row collections d) ++ rest
    else rest

-- `limit or default`
abbrev pub limit_of : Option ℕ → ℕ → ℕ
limit_of none default = default
limit_of (some zero) default = default
limit_of (some (suc n)) default = suc n

abbrev pub any_in : List Text → Text → Text → Bool
any_in [] file collection = false
any_in (t ∷ ts) file collection =
    is_infix t file || is_infix t collection || any_in ts file collection

-- `text or default`
abbrev pub or_text : Option Text → Text → Text
or_text none default = default
or_text (some t) default = if is_empty t then default else t

module _ (show day : ℕ → Text) (is_word : ℕ → Bool) (lower : Text → Text) where
  abbrev pub pages_text : Option ℕ → Text
  pages_text none = codes "?"
  pages_text (some n) = show n

  -- _render
  unfoldable pub render : Row → Lang → Text
  render r de =
      codes "Dokument: "
      ++ r.doc.document.filename
      ++ codes " | Sammlung: "
      ++ r.name
      ++ codes " | Typ: "
      ++ file_type_text r.doc.document.file_type
      ++ codes " | Seiten: "
      ++ pages_text r.doc.page_count
      ++ codes " | Status: "
      ++ status_text r.doc.document.status
      ++ codes " | Hochgeladen: "
      ++ day r.doc.created_at
      ++ codes " von "
      ++ or_text r.email (codes "unbekannt")
      ++ codes " | Zuletzt aktualisiert: "
      ++ day r.doc.updated_at
  render r en =
      codes "Document: "
      ++ r.doc.document.filename
      ++ codes " | Collection: "
      ++ r.name
      ++ codes " | Type: "
      ++ file_type_text r.doc.document.file_type
      ++ codes " | Pages: "
      ++ pages_text r.doc.page_count
      ++ codes " | Status: "
      ++ status_text r.doc.document.status
      ++ codes " | Uploaded: "
      ++ day r.doc.created_at
      ++ codes " by "
      ++ or_text r.email (codes "unknown")
      ++ codes " | Last updated: "
      ++ day r.doc.updated_at

  unfoldable pub hit_of : Lang → Row → Chunk
  unfolding render
  hit_of lang r = record {
    chunk_id = r.doc.document.id;
    document_id = r.doc.document.id;
    collection_id = r.doc.document.collection_id;
    chunk_type = codes "metadata";
    page_number = none;
    section_title = none;
    content = render r lang;
    file_name = some r.doc.document.filename;
    image_uri = none;
  }

  abbrev pub matches : List Text → Row → Bool
  matches ts r = any_in ts (lower r.doc.document.filename) (lower r.name)

  -- The rows that match a word, or all of them where none does.
  unfoldable pub narrowed : List Text → List Row → List Row
  narrowed ts rows =
      let matching = filter_by (matches ts) rows in
      if is_empty ts || is_empty matching then rows else matching

  unfoldable pub lookup_documents :
      Settings
      → List Collection
      → List User
      → List DocumentRow
      → List ℕ
      → Text
      → Option ℕ
      → List Chunk
  unfolding detect_lang mentioned_types selected narrowed tokens hit_of
  lookup_documents s collections users docs allowed query limit =
      let types = mentioned_types is_word lower query in
      let rows = selected allowed types collections users docs in
      let kept = narrowed (tokens is_word lower query) rows in
      let hits =
        map (hit_of (detect_lang is_word lower query))
          (take (limit_of limit s.metadata_max_documents) kept) in
      if is_empty allowed then [] else hits
