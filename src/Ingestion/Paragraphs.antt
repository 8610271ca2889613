-- ===== src/Ingestion/Paragraphs.antt =====
-- `_pack_paragraphs` of app/ingestion/chunker.py. max_c, min_c and overlap_c are its three limits in
-- characters; `1.2` is kept as 12 / 10. Where overlap_c is max_c or more, the source's loop over a
-- paragraph need not end, and the model has no result.
use agentic_rag_claude_code.Prelude.{
  ℕ, zero, suc, ◌+◌, ◌-◌, ◌*◌, ◌/◌, Bool, not, ◌&&◌, Option, none, some, List, [], ◌∷◌, ◌++◌, Text,
  length, is_empty, take, drop, take_last, ltb, ◌==◌, if◌then◌else◌,
}
use agentic_rag_claude_code.Characters.{CharTable, strip}
use agentic_rag_claude_code.Context.Estimate.{chars_of_tokens}
use agentic_rag_claude_code.Settings.{Settings}

-- "\n\n"
abbrev pub paragraph_break : Text
paragraph_break = 10 ∷ 10 ∷ []

abbrev pub is_blank : CharTable → Text → Bool
is_blank t p = is_empty (strip t p)

abbrev pub cons_unit : Text → Option (List Text × Text) → Option (List Text × Text)
cons_unit u none = none
cons_unit u (some (us, p)) = some (u ∷ us, p)

-- chunks and buf of the second loop
pub record Window : Type 0 where
  pub chunks : List Text
  pub buf : Text

abbrev pub last_of : List Text → Option Text
last_of [] = none
last_of (c ∷ []) = some c
last_of (c ∷ d ∷ cs) = last_of (d ∷ cs)

-- chunks[-1] = c
abbrev pub set_last : List Text → Text → List Text
set_last [] c = []
set_last (d ∷ []) c = c ∷ []
set_last (d ∷ e ∷ cs) c = d ∷ set_last (e ∷ cs) c

module _ (t : CharTable) (min_c max_c overlap_c : ℕ) where
  -- while len(p) > max_c: the units cut off, and the rest of p
  unfoldable pub hard_split : ℕ → Text → Option (List Text × Text)
  hard_split zero p = none
  hard_split (suc fuel) p =
      let rest = hard_split fuel (drop (max_c - overlap_c) p) in
      if ltb max_c (length p) then cons_unit (take max_c p) rest else some ([], p)

  abbrev pub with_rest : List Text × Text → List Text
  with_rest (us, p) = us ++ (if is_blank t p then [] else p ∷ [])

  abbrev pub add_cut : Option (List Text × Text) → Option (List Text) → Option (List Text)
  add_cut none rest = none
  add_cut (some cut) none = none
  add_cut (some cut) (some rest) = some (with_rest cut ++ rest)

  -- The units of the paragraphs; a round of the loop takes one character off at least.
  unfoldable pub units : List Text → Option (List Text)
  unfolding hard_split
  units [] = some []
  units (p ∷ ps) = add_cut (hard_split (suc (length p)) p) (units ps)

  unfoldable pub candidate : Text → Text → Text
  candidate buf unit = if is_empty buf then unit else buf ++ paragraph_break ++ unit

  unfoldable pub after_overlap : Text → Text → Text
  after_overlap buf unit =
      let tail = if overlap_c == 0 then [] else take_last overlap_c buf in
      if is_empty tail then unit else tail ++ paragraph_break ++ unit

  unfoldable pub add_unit : Window → Text → Window
  unfolding candidate after_overlap
  add_unit w unit =
      if not (is_empty w.buf) && ltb max_c (length (candidate w.buf unit))
      then record { chunks = w.chunks ++ w.buf ∷ []; buf = after_overlap w.buf unit }
      else record w { buf = candidate w.buf unit }

  unfoldable pub add_units : Window → List Text → Window
  unfolding add_unit
  add_units w [] = w
  add_units w (u ∷ us) = add_units (add_unit w u) us

  -- The tail is merged into the chunk before it, or is a chunk of its own.
  unfoldable pub merges : Text → Text → Bool
  merges last buf = ltb (length buf) min_c && ltb (10 * (length last + length buf)) (12 * max_c)

  unfoldable pub add_tail : List Text → Text → Option Text → List Text
  unfolding merges
  add_tail chunks buf none = chunks ++ buf ∷ []
  add_tail chunks buf (some last) =
      if merges last buf
      then set_last chunks (last ++ paragraph_break ++ buf)
      else chunks ++ buf ∷ []

  unfoldable pub finish : Window → List Text
  unfolding add_tail
  finish w = if is_blank t w.buf then w.chunks else add_tail w.chunks w.buf (last_of w.chunks)

  unfoldable pub pack_units : List Text → List Text
  unfolding finish add_units
  pack_units us = finish (add_units (record { chunks = []; buf = [] }) us)

  unfoldable pub pack_within : List Text → Option (List Text)
  unfolding units pack_units
  pack_within paragraphs = elim (units paragraphs) [ none ↦ none | some us ↦ some (pack_units us) ]

-- with the limits of the settings
unfoldable pub pack_paragraphs : CharTable → Settings → List Text → Option (List Text)
unfolding pack_within
pack_paragraphs t s paragraphs =
    let max_c = chars_of_tokens s.chunk_max_tokens in
    pack_within t (chars_of_tokens s.chunk_min_tokens) max_c (max_c * s.chunk_overlap_percent / 100)
      paragraphs
