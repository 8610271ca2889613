-- ===== src/Graph/NativeMarkers.antt =====
-- `normalize_markers` of app/graph/citations.py: 【1†…】 becomes [1]. The pattern
-- 【\s*(\d+)\s*(?:†[^】]*)?】 leaves no choice once its opening bracket is met, since no character is
-- two of white space, digit, † and 】; so it is read forwards.
use Prim.Native.Nat.{◌-◌}
use agentic_rag_claude_code.Prelude.{
  ℕ, zero, suc, Option, none, some, [], ◌∷◌, ◌++◌, Text, length, is_empty, ◌==◌, if◌then◌else◌,
  is_some,
}
use agentic_rag_claude_code.Characters.{CharTable}

abbrev pub native_open : ℕ
native_open = 0x3010

abbrev pub native_close : ℕ
native_close = 0x3011

abbrev pub dagger : ℕ
dagger = 0x2020

module _ (table : CharTable) where
  -- \s*
  skip_space : Text → Text
  skip_space [] = []
  skip_space (c ∷ t) = let rest = skip_space t in if table.is_space c then rest else c ∷ t

  -- \d+, the digits and what follows them
  take_digits : Text → Text × Text
  take_digits [] = ([], [])
  take_digits (c ∷ t) =
      let (ds, rest) = take_digits t in
      if is_some (table.decimal c) then (c ∷ ds, rest) else ([], c ∷ t)

  -- [^】]*】, and what follows
  through_close : Text → Option Text
  through_close [] = none
  through_close (c ∷ t) = let rest = through_close t in if c == native_close then some t else rest

  -- (?:†[^】]*)?】
  tail_match : Text → Option Text
  unfolding through_close
  tail_match [] = none
  tail_match (c ∷ t) =
      if c == dagger then through_close t else if c == native_close then some t else none

  -- the pattern behind its opening bracket: the digits, and the text behind the match
  native_match : Text → Option (Text × Text)
  unfolding skip_space take_digits tail_match
  native_match t =
      let (ds, rest) = take_digits (skip_space t) in
      if is_empty ds
      then none
      else elim (tail_match (skip_space rest)) [ none ↦ none | some behind ↦ some (ds, behind) ]

  -- the substitution from left to right; `skip` characters of a match are still to be passed over
  substitute : ℕ → Text → Text
  unfolding native_match
  substitute skip [] = []
  substitute (suc skip) (c ∷ t) = substitute skip t
  substitute zero (c ∷ t) =
      let kept = c ∷ substitute zero t in
      if c == native_open
      then elim (native_match t) [
        | none ↦ kept
        | some (ds, behind) ↦ b'[' ∷ ds ++ b']' ∷ substitute (length t - length behind) t
      ]
      else kept

  unfoldable pub normalize_markers : Text → Text
  unfolding substitute
  normalize_markers answer = substitute zero answer
