-- ===== src/Ingestion/Rows.antt =====
-- The row chunks of a large table: the loop at the end of `chunk_table` of app/ingestion/chunker.py.
-- `lines` are the serialized rows in their order. A row's number is one more than the number of
-- rows before it.
pub mod Tiling
use mathlib.Core.List.{append_assoc, append-nil}
use agentic_rag_claude_code.Prelude.{
  ℕ, zero, suc, ◌+◌, ◌≡◌, ◌≤◌, refl, sym, ap, ◌∙◌, ◌⊎◌, inl, inr, Bool, true, false, not, ◌&&◌,
  Bool-cases, List, [], ◌∷◌, ◌++◌, map, Text, length, is_empty, ltb, lt→ltb, if◌then◌else◌, arith,
  All, length-append, subst,
}

-- the lines and the "row_range" of a chunk
pub record RowChunk : Type 0 where
  pub lines : List Text
  pub row_from : ℕ
  pub row_to : ℕ

pub record Buffer : Type 0 where
  pub out : List RowChunk
  pub buf : List Text
  pub first_row : ℕ

-- sum(len(x) + 1 for x in buf)
unfoldable pub total : List Text → ℕ
total [] = 0
total (x ∷ buf) = length x + 1 + total buf

module _ (max_chars : ℕ) (summary : Text) where
  unfoldable pub overflows : List Text → Text → Bool
  unfolding total
  overflows buf line =
      not (is_empty buf) && ltb max_chars (length summary + total buf + length line)

  -- the chunk of the buffer, up to the row `row_to`
  abbrev pub row_chunk : ℕ → Buffer → RowChunk
  row_chunk row_to b = record { lines = b.buf; row_from = b.first_row; row_to = row_to }

  abbrev pub start_next : ℕ → Text → Buffer → Buffer
  start_next before line b = record {
    out = b.out ++ row_chunk before b ∷ [];
    buf = line ∷ [];
    first_row = suc before;
  }

  -- the body of the loop for the row with `before` rows before it
  unfoldable pub add_row : ℕ → Text → Buffer → Buffer
  unfolding overflows
  add_row before line b =
      if overflows b.buf line
      then start_next before line b
      else record b { buf = b.buf ++ line ∷ [] }

  unfoldable pub add_rows : ℕ → List Text → Buffer → Buffer
  unfolding add_row
  add_rows before [] b = b
  add_rows before (line ∷ rest) b = add_rows (suc before) rest (add_row before line b)

  -- the chunk behind the loop; n_rows is the number of rows
  unfoldable pub last_rows : ℕ → Buffer → List RowChunk
  last_rows n_rows b = if is_empty b.buf then b.out else b.out ++ row_chunk n_rows b ∷ []

  unfoldable pub pack_rows : List Text → List RowChunk
  unfolding add_rows last_rows
  pack_rows lines =
      last_rows (length lines) (add_rows 0 lines (record { out = []; buf = []; first_row = 1 }))

  -- The lines of the chunk after the summary: its body has this length.
  unfoldable pub body_length : List Text → ℕ
  unfolding total
  body_length lines = length summary + total lines

  -- One line, or at most one character above the limit.
  unfoldable pub Fits : List Text → Type 0
  unfolding body_length
  Fits lines = (length lines ≤ 1) ⊎ (body_length lines ≤ suc max_chars)

  -- The chunks hold the rows from `first` up to but without `end`, in order and without a gap, and
  -- each of them fits.
  unfoldable pub Tiles : ℕ → List RowChunk → ℕ → List Text → Type 0
  unfolding Fits
  Tiles first [] end lines = (first ≡ end) × (lines ≡ [])
  Tiles first (c ∷ cs) end lines =
      (c.row_from ≡ first)
      × (first + length c.lines ≡ suc c.row_to)
      × Fits c.lines
      × ((rest : List Text) × (lines ≡ c.lines ++ rest) × Tiles (suc c.row_to) cs end rest)
