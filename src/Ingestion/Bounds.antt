-- ===== src/Ingestion/Bounds.antt =====
-- How long the chunks are that `_pack_paragraphs` of app/ingestion/chunker.py makes.
use agentic_rag_claude_code.Prelude.{
  ℕ, ◌+◌, ◌*◌, ◌≤◌, ◌<◌, ◌≡◌, refl, sym, subst, ◌⊎◌, inl, inr, Bool, true, false, not, ◌&&◌, Option,
  none, some, List, [], ◌∷◌, ◌++◌, Text, length, is_empty, take_last, length-append,
  length-take_last-le, All, All-append, ltb, ltb→lt, ltb_false→le, and_right, Bool-cases, arith,
  ◌==◌, if◌then◌else◌,
}
use agentic_rag_claude_code.Characters.{CharTable}
use agentic_rag_claude_code.Ingestion.Paragraphs.{
  paragraph_break, is_blank, Window, last_of, set_last, units, candidate, after_overlap, add_unit,
  add_units, merges, add_tail, finish, pack_units, pack_within,
}
use agentic_rag_claude_code.Ingestion.Cuts.{IsShort, IsUnits, units-IsUnits}

wider : (n m k : ℕ) → n ≤ m → n ≤ k + 2 + m
wider n m k h = omega arith

module _ (t : CharTable) (min_c max_c overlap_c : ℕ) where
  -- The overlap, a paragraph break and a unit.
  IsWindow : Text → Type 0
  IsWindow c = length c ≤ overlap_c + 2 + max_c

  candidate-IsWindow :
      (buf u : Text)
      → IsShort t min_c max_c overlap_c u
      → (not (is_empty buf) && ltb max_c (length (candidate t min_c max_c overlap_c buf u))) ≡ false
      → IsWindow (candidate t min_c max_c overlap_c buf u)
  unfolding candidate IsWindow IsShort
  candidate-IsWindow [] u h o = omega arith
  candidate-IsWindow (x ∷ buf) u h o =
      wider (length (candidate t min_c max_c overlap_c (x ∷ buf) u)) max_c overlap_c
        (ltb_false→le max_c (length (candidate t min_c max_c overlap_c (x ∷ buf) u)) o)

  after_overlap-IsWindow :
      (buf u : Text)
      → IsShort t min_c max_c overlap_c u
      → IsWindow (after_overlap t min_c max_c overlap_c buf u)
  unfolding after_overlap IsWindow IsShort
  after_overlap-IsWindow buf u h =
      behind (if overlap_c == 0 then [] else take_last overlap_c buf) (short_tail (overlap_c == 0))
    where
      short_tail : (b : Bool) → length (if b then [] else take_last overlap_c buf) ≤ overlap_c
      short_tail true = omega arith
      short_tail false = length-take_last-le overlap_c buf

      behind :
          (tail : Text)
          → length tail ≤ overlap_c
          → length (if is_empty tail then u else tail ++ paragraph_break ++ u)
            ≤ overlap_c + 2 + max_c
      behind [] k = omega arith
      behind (x ∷ tail) k = omega (
        arith,
        length-append (x ∷ tail ++ paragraph_break) u,
        length-append (x ∷ tail) paragraph_break,
      )

  record IsFine (w : Window) : Type 0 where
    chunks_fine : All IsWindow w.chunks
    buf_fine : IsWindow w.buf

  add_unit-IsFine :
      (w : Window) (u : Text)
      → IsFine w
      → IsShort t min_c max_c overlap_c u
      → IsFine (add_unit t min_c max_c overlap_c w u)
  unfolding add_unit
  add_unit-IsFine w u h k =
      elim (Bool-cases
        (not (is_empty w.buf) && ltb max_c (length (candidate t min_c max_c overlap_c w.buf u)))) [
          | inl o ↦
              subst
                (λ b. IsFine (
                  if b
                  then record {
                    chunks = w.chunks ++ w.buf ∷ [];
                    buf = after_overlap t min_c max_c overlap_c w.buf u;
                  }
                  else record w { buf = candidate t min_c max_c overlap_c w.buf u }))
                (sym o)
                (record {
                  chunks_fine =
                      All-append IsWindow w.chunks (w.buf ∷ []) h.chunks_fine (h.buf_fine, tt);
                  buf_fine = after_overlap-IsWindow w.buf u k;
                })
          | inr o ↦
              subst
                (λ b. IsFine (
                  if b
                  then record {
                    chunks = w.chunks ++ w.buf ∷ [];
                    buf = after_overlap t min_c max_c overlap_c w.buf u;
                  }
                  else record w { buf = candidate t min_c max_c overlap_c w.buf u }))
                (sym o)
                (record { chunks_fine = h.chunks_fine; buf_fine = candidate-IsWindow w.buf u k o })
        ]

  add_units-IsFine :
      (us : List Text) (w : Window)
      → IsFine w
      → All (IsShort t min_c max_c overlap_c) us
      → IsFine (add_units t min_c max_c overlap_c w us)
  unfolding add_units
  add_units-IsFine [] w h k = h
  add_units-IsFine (u ∷ us) w h k =
      add_units-IsFine us (add_unit t min_c max_c overlap_c w u) (add_unit-IsFine w u h k.0) k.1

  -- A window, or a chunk with a merged tail, which is below 1.2 times the maximum and a paragraph
  -- break.
  unfoldable pub IsBounded : Text → Type 0
  IsBounded c = (length c ≤ overlap_c + 2 + max_c) ⊎ (10 * length c < 12 * max_c + 20)

  windows-IsBounded : (cs : List Text) → All IsWindow cs → All IsBounded cs
  unfolding IsBounded IsWindow
  windows-IsBounded [] h = tt
  windows-IsBounded (c ∷ cs) h = (inl h.0, windows-IsBounded cs h.1)

  set_last-IsBounded :
      (cs : List Text) (c : Text) → All IsBounded cs → IsBounded c → All IsBounded (set_last cs c)
  set_last-IsBounded [] c h k = tt
  set_last-IsBounded (d ∷ []) c h k = (k, tt)
  set_last-IsBounded (d ∷ e ∷ cs) c h k = (h.0, set_last-IsBounded (e ∷ cs) c h.1 k)

  merged-IsBounded :
      (last buf : Text)
      → merges t min_c max_c overlap_c last buf ≡ true
      → IsBounded (last ++ paragraph_break ++ buf)
  unfolding merges IsBounded
  merged-IsBounded last buf h = inr (
      joined
        (ltb→lt (10 * (length last + length buf)) (12 * max_c) (
          and_right (ltb (length buf) min_c) (ltb (10 * (length last + length buf)) (12 * max_c))
            h))
        (length-append (last ++ paragraph_break) buf) (length-append last paragraph_break))
    where
      joined :
          10 * (length last + length buf) < 12 * max_c
          → length (last ++ paragraph_break ++ buf) ≡ length (last ++ paragraph_break) + length buf
          → length (last ++ paragraph_break) ≡ length last + 2
          → 10 * length (last ++ paragraph_break ++ buf) < 12 * max_c + 20
      joined h e f = omega arith

  add_tail-IsBounded :
      (cs : List Text) (buf : Text) (o : Option Text)
      → All IsBounded cs
      → IsBounded buf
      → All IsBounded (add_tail t min_c max_c overlap_c cs buf o)
  unfolding add_tail
  add_tail-IsBounded cs buf none h k = All-append IsBounded cs (buf ∷ []) h (k, tt)
  add_tail-IsBounded cs buf (some last) h k =
      elim (Bool-cases (merges t min_c max_c overlap_c last buf)) [
        | inl o ↦
            subst
              (λ b.
                All IsBounded
                  (if b then set_last cs (last ++ paragraph_break ++ buf) else cs ++ buf ∷ []))
              (sym o)
              (set_last-IsBounded cs (last ++ paragraph_break ++ buf) h
                (merged-IsBounded last buf o))
        | inr o ↦
            subst
              (λ b.
                All IsBounded
                  (if b then set_last cs (last ++ paragraph_break ++ buf) else cs ++ buf ∷ []))
              (sym o) (All-append IsBounded cs (buf ∷ []) h (k, tt))
      ]

  finish-IsBounded : (w : Window) → IsFine w → All IsBounded (finish t min_c max_c overlap_c w)
  unfolding finish IsBounded IsWindow
  finish-IsBounded w h = either (is_blank t w.buf)
    where
      either :
          (b : Bool)
          → All IsBounded (
              if b
              then w.chunks
              else add_tail t min_c max_c overlap_c w.chunks w.buf (last_of w.chunks))
      either true = windows-IsBounded w.chunks h.chunks_fine
      either false =
          add_tail-IsBounded w.chunks w.buf (last_of w.chunks)
            (windows-IsBounded w.chunks h.chunks_fine) (inl h.buf_fine)

  IsPackedWithin : (r : Option (List Text)) → IsUnits t min_c max_c overlap_c r → Type 0
  IsPackedWithin r h =
      (cs : List Text) × (elim r [
        | none ↦ none
        | some us ↦ some (pack_units t min_c max_c overlap_c us)
      ]
        ≡ some cs)
      × All IsBounded cs

  units-IsPackedWithin :
      (r : Option (List Text)) (h : IsUnits t min_c max_c overlap_c r) → IsPackedWithin r h
  unfolding IsPackedWithin IsUnits pack_units IsWindow IsShort
  units-IsPackedWithin none h = elim h [ ]
  units-IsPackedWithin (some us) h = (
    pack_units t min_c max_c overlap_c us,
    refl,
    finish-IsBounded (add_units t min_c max_c overlap_c (record { chunks = []; buf = [] }) us) (
        add_units-IsFine us (record { chunks = []; buf = [] })
          (record { chunks_fine = tt; buf_fine = omega arith }) h),
  )

  -- Where the overlap is smaller than the maximum, the packing of any paragraphs ends with a result,
  -- and each of its chunks has at most the maximum, a paragraph break and the overlap, or, with a
  -- merged tail, less than 1.2 times the maximum and a paragraph break.
  pub pack_within-IsBounded :
      (paragraphs : List Text)
      → overlap_c < max_c
      → (cs : List Text) × (pack_within t min_c max_c overlap_c paragraphs ≡ some cs)
        × All IsBounded cs
  unfolding pack_within IsPackedWithin
  pack_within-IsBounded paragraphs o =
      units-IsPackedWithin (units t min_c max_c overlap_c paragraphs)
        (units-IsUnits t min_c max_c overlap_c paragraphs o)
