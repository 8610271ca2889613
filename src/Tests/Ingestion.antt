-- ===== src/Tests/Ingestion.antt =====
-- The packing of rows and paragraphs, and queued jobs, at small inputs, with the examples of their
-- theorems.
use agentic_rag_claude_code.Prelude.{
  ℕ, none, ◌==◌, if◌then◌else◌, false, suc, ◌≡◌, refl, some, List, [], ◌∷◌, Text, codes, map,
  length, All, arith,
}
use agentic_rag_claude_code.Characters.{ascii, strip}
use agentic_rag_claude_code.Ingestion.Rows.{RowChunk, pack_rows, Tiles}
use agentic_rag_claude_code.Ingestion.Rows.Tiling.{pack_rows-Tiles}
use agentic_rag_claude_code.Ingestion.Paragraphs.{hard_split, pack_within}
use agentic_rag_claude_code.Ingestion.Cuts.{IsShort, rejoin, rejoin-hard_split}
use agentic_rag_claude_code.Ingestion.Bounds.{IsBounded, pack_within-IsBounded}
use agentic_rag_claude_code.Settings.{defaults}
use agentic_rag_claude_code.Ingestion.Jobs.{indexing, Payload, Worker, Calls, handle_job, drain}
use agentic_rag_claude_code.Ingestion.FileType.{csv, lookup, detect}
use agentic_rag_claude_code.Ingestion.Retrying.{Fate, handle_job-Fate}
use agentic_rag_claude_code.Ingestion.Draining.{drain-empties}

abbrev summary : Text
summary = codes "Tab"

abbrev rows : List Text
rows = codes "r1=a" ∷ codes "r2=b" ∷ codes "r3=c" ∷ []

-- Two rows fit twelve characters after a summary of three, a third does not.
two_chunks : map (λ (c : RowChunk). c.row_to) (pack_rows 12 summary rows) ≡ 2 ∷ 3 ∷ []
unfolding pack_rows
two_chunks = refl

pack_rows-Tiles_example : Tiles 12 summary 1 (pack_rows 12 summary rows) (suc (length rows)) rows
pack_rows-Tiles_example = pack_rows-Tiles 12 summary rows

abbrev paragraph : Text
paragraph = codes "abcdefghijklmno"

paragraph_cut :
    hard_split ascii 3 6 2 16 paragraph
    ≡ some (codes "abcdef" ∷ codes "efghij" ∷ codes "ijklmn" ∷ [], codes "mno")
unfolding hard_split
paragraph_cut = refl

rejoin-hard_split_example :
    (us : List Text) × (q : Text) × (hard_split ascii 3 6 2 16 paragraph ≡ some (us, q))
    × All (IsShort ascii 3 6 2) us
    × IsShort ascii 3 6 2 q
    × (rejoin ascii 3 6 2 us q ≡ paragraph)
rejoin-hard_split_example = rejoin-hard_split ascii 3 6 2 paragraph (omega arith)

packed_words :
    pack_within ascii 3 8 2 (codes "ab" ∷ codes "cde" ∷ codes "fghi" ∷ [])
    ≡ some (codes "ab\n\ncde" ∷ codes "de\n\nfghi" ∷ [])
unfolding pack_within strip
packed_words = refl

pack_within-IsBounded_example :
    (cs : List Text) × (pack_within ascii 3 8 2 (codes "ab" ∷ codes "cde" ∷ codes "fghi" ∷ [])
      ≡ some cs)
    × All (IsBounded ascii 3 8 2) cs
pack_within-IsBounded_example =
    pack_within-IsBounded ascii 3 8 2 (codes "ab" ∷ codes "cde" ∷ codes "fghi" ∷ []) (omega arith)

abbrev calls : Calls
calls = record {
  tracking_fails = λ n. false;
  finish_error = λ n. none;
  report_fails = λ n. false;
  push_fails = λ n. false;
  index_document = λ n d. (indexing ∷ [], if n == 1 then none else some (codes "timeout"));
}

abbrev job_of : ℕ → Payload
job_of d = record { document_id = d; attempt = 1; job_id = none }

abbrev worker : Worker
worker = record {
  ingest_queue = job_of 5 ∷ job_of 6 ∷ job_of 9 ∷ [];
  ingest_dlq = [];
  jobs = [];
  documents = 5 ∷ 6 ∷ [];
  next_id = 0;
  handled = 0;
}

-- The first job fails twice, the second is indexed, the third is of no document.
drained :
    (drain defaults calls 9 worker).ingest_dlq
    ≡ (record {
      payload = record { document_id = 5; attempt = 2; job_id = some 0 };
      error = codes "timeout";
    })
      ∷ []
unfolding drain
drained = refl

handle_job-Fate_example :
    Fate defaults calls
      (job_of 5)
      0
      (5 ∷ 6 ∷ [])
      worker
      (handle_job defaults calls (job_of 5) worker)
handle_job-Fate_example = handle_job-Fate defaults calls (job_of 5) worker

drain-empties_example : (drain defaults calls 9 worker).ingest_queue ≡ []
drain-empties_example = drain-empties defaults calls 9 worker (omega arith)

-- A ZIP container under the name of a table of values is no error.
zip_as_csv : detect (codes ".csv") (80 ∷ 75 ∷ 3 ∷ 4 ∷ []) ≡ some csv
unfolding detect lookup
zip_as_csv = refl
