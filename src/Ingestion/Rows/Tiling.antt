-- ===== src/Ingestion/Rows/Tiling.antt =====
-- The row chunks of a table tile its rows.
use mathlib.Core.List.{append_assoc, append-nil}
use agentic_rag_claude_code.Prelude.{
  ℕ, suc, ◌+◌, ◌≡◌, ◌≤◌, refl, sym, ap, ◌∙◌, inl, inr, false, Bool-cases, List, [], ◌∷◌, ◌++◌, Text,
  length, ltb_false→le, if◌then◌else◌, arith, length-append, subst,
}
use agentic_rag_claude_code.Ingestion.Rows.{
  RowChunk, Buffer, total, overflows, row_chunk, start_next, add_row, add_rows, last_rows,
  pack_rows, body_length, Fits, Tiles,
}

one_more : (f n m b : ℕ) → f + n ≡ suc b → m ≡ n + 1 → f + m ≡ suc (suc b)
one_more f n m b e h = omega arith

plus_zero : (n : ℕ) → n ≡ n + 0
plus_zero n = omega arith

zero_plus : (n : ℕ) → n ≡ 0 + n
zero_plus n = omega arith

plus_suc : (n m : ℕ) → suc n + m ≡ n + suc m
plus_suc n m = omega arith

module _ (max_chars : ℕ) (summary : Text) where
  total-append : (buf : List Text) (x : Text) → total (buf ++ x ∷ []) ≡ total buf + (length x + 1)
  unfolding total
  total-append [] x = omega arith
  total-append (y ∷ buf) x = omega (arith, total-append buf x)

  Tiles-append :
      (first : ℕ) (cs : List RowChunk) (mid : ℕ) (lines : List Text) (c : RowChunk)
      → Tiles max_chars summary first cs mid lines
      → c.row_from ≡ mid
      → mid + length c.lines ≡ suc c.row_to
      → Fits max_chars summary c.lines
      → Tiles max_chars summary first (cs ++ c ∷ []) (suc c.row_to) (lines ++ c.lines)
  unfolding Tiles Fits
  Tiles-append first [] mid lines c (e, l) f n fit = (
    f ∙ sym e,
    ap (λ m. m + length c.lines) e ∙ n,
    fit,
    ([], ap (λ l. l ++ c.lines) l ∙ sym (append-nil c.lines), (refl, refl)),
  )
  Tiles-append first (d ∷ cs) mid lines c (a, b, g, (rest, h, t)) f n fit = (
    a,
    b,
    g,
    (
      rest ++ c.lines,
      ap (λ l. l ++ c.lines) h ∙ append_assoc d.lines rest c.lines,
      Tiles-append (suc d.row_to) cs mid rest c t f n fit,
    ),
  )

  Fits-append :
      (buf : List Text) (line : Text)
      → overflows max_chars summary buf line ≡ false
      → Fits max_chars summary (buf ++ line ∷ [])
  unfolding Fits overflows body_length
  Fits-append [] line o = inl (omega arith)
  Fits-append (x ∷ buf) line o = inr (
      within (ltb_false→le max_chars (length summary + total (x ∷ buf) + length line) o)
        (total-append (x ∷ buf) line))
    where
      within :
          length summary + total (x ∷ buf) + length line ≤ max_chars
          → total ((x ∷ buf) ++ line ∷ []) ≡ total (x ∷ buf) + (length line + 1)
          → length summary + total ((x ∷ buf) ++ line ∷ []) ≤ suc max_chars
      within h e = omega arith

  -- The rows before the current one are in the chunks and in the buffer.
  record IsPacked (before : ℕ) (lines : List Text) (b : Buffer) : Type 0 where
    done : List Text
    tiles : Tiles max_chars summary 1 b.out b.first_row done
    split : lines ≡ done ++ b.buf
    count : b.first_row + length b.buf ≡ suc before
    fits : Fits max_chars summary b.buf

  add_row-IsPacked :
      (before : ℕ) (lines : List Text) (line : Text) (b : Buffer)
      → IsPacked before lines b
      → IsPacked (suc before) (lines ++ line ∷ []) (add_row max_chars summary before line b)
  unfolding add_row Fits
  add_row-IsPacked before lines line b h =
      elim (Bool-cases (overflows max_chars summary b.buf line)) [
        | inl o ↦
            subst
              (λ t. IsPacked (suc before) (lines ++ line ∷ []) (
                if t
                then start_next max_chars summary before line b
                else record b { buf = b.buf ++ line ∷ [] }))
              (sym o)
              (record {
                done = h.done ++ b.buf;
                tiles =
                    Tiles-append 1 b.out b.first_row h.done (row_chunk max_chars summary before b)
                      h.tiles refl h.count h.fits;
                split = ap (λ l. l ++ line ∷ []) h.split;
                count = omega arith;
                fits = inl (omega arith);
              })
        | inr o ↦
            subst
              (λ t. IsPacked (suc before) (lines ++ line ∷ []) (
                if t
                then start_next max_chars summary before line b
                else record b { buf = b.buf ++ line ∷ [] }))
              (sym o)
              (record {
                done = h.done;
                tiles = h.tiles;
                split = ap (λ l. l ++ line ∷ []) h.split ∙ append_assoc h.done b.buf (line ∷ []);
                count =
                    one_more b.first_row (length b.buf) (length (b.buf ++ line ∷ [])) before h.count
                      (length-append b.buf (line ∷ []));
                fits = Fits-append b.buf line o;
              })
      ]

  add_rows-IsPacked :
      (before : ℕ) (lines rest : List Text) (b : Buffer)
      → IsPacked before lines b
      → IsPacked (before + length rest) (lines ++ rest) (add_rows max_chars summary before rest b)
  unfolding add_rows
  add_rows-IsPacked before lines [] b h =
      subst (λ n. IsPacked n (lines ++ []) b) (plus_zero before)
        (subst (λ l. IsPacked before l b) (sym (append-nil lines)) h)
  add_rows-IsPacked before lines (line ∷ rest) b h =
      subst
        (λ n.
          IsPacked n (lines ++ line ∷ rest) (
            add_rows max_chars summary (suc before) rest (add_row max_chars summary before line b)))
        (plus_suc before (length rest))
        (subst
          (λ l. IsPacked (suc before + length rest) l (
            add_rows max_chars summary (suc before) rest (add_row max_chars summary before line b)))
          (append_assoc lines (line ∷ []) rest)
          (add_rows-IsPacked (suc before) (lines ++ line ∷ []) rest
            (add_row max_chars summary before line b) (add_row-IsPacked before lines line b h)))

  closed-Tiles :
      (n : ℕ) (lines : List Text) (out : List RowChunk) (buf : List Text) (first : ℕ)
      → IsPacked n lines (record { out = out; buf = buf; first_row = first })
      → Tiles max_chars summary 1
          (last_rows max_chars summary n (record { out = out; buf = buf; first_row = first }))
          (suc n)
          lines
  unfolding last_rows
  closed-Tiles n lines out [] first h =
      subst (λ e. Tiles max_chars summary 1 out e lines) (plus_zero first ∙ h.count)
        (subst (Tiles max_chars summary 1 out first) (sym (append-nil h.done) ∙ sym h.split)
          h.tiles)
  closed-Tiles n lines out (x ∷ buf) first h =
      subst
        (Tiles max_chars summary 1
          (out
            ++ row_chunk max_chars summary n
                (record { out = out; buf = x ∷ buf; first_row = first })
              ∷ [])
          (suc n))
        (sym h.split)
        (Tiles-append 1 out first h.done
          (row_chunk max_chars summary n (record { out = out; buf = x ∷ buf; first_row = first }))
          h.tiles refl h.count h.fits)

  -- The chunks of the rows of a table hold every row once and in order: their ranges run without a
  -- gap from row 1 to the last row, a chunk's range has as many rows as the chunk has lines, and
  -- the lines of the chunks, one after the other, are the lines of the table. The body of a chunk
  -- of more than one row exceeds the limit by at most one character.
  pub pack_rows-Tiles :
      (lines : List Text)
      → Tiles max_chars summary 1 (pack_rows max_chars summary lines) (suc (length lines)) lines
  unfolding pack_rows Tiles Fits
  pack_rows-Tiles lines =
      let b = add_rows max_chars summary 0 lines (record { out = []; buf = []; first_row = 1 }) in
      closed-Tiles (length lines) lines b.out b.buf b.first_row (
        subst (λ n. IsPacked n lines b) (sym (zero_plus (length lines)))
          (add_rows-IsPacked 0 [] lines (record { out = []; buf = []; first_row = 1 })
            (record {
              done = [];
              tiles = (refl, refl);
              split = refl;
              count = refl;
              fits = inl (omega arith);
            })))
