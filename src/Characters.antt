-- ===== src/Characters.antt =====
-- What the program takes from Python's tables of characters: the value of a decimal digit (`\d` and
-- `int`), and white space (`str.isspace`, `strip`, `\s`). They are parameters; `ascii` is a table
-- for the examples.
pub mod Strip
use Prim.Native.Nat.{◌-◌}
use mathlib.Core.List.{reverse}
use agentic_rag_claude_code.Prelude.{
  ℕ, ◌≡◌, Bool, ◌&&◌, ◌||◌, Option, none, some, [], ◌∷◌, Text, leb, ◌==◌, refl, if◌then◌else◌, elem,
  is_empty, List,
}

pub record CharTable : Type 0 where
  pub decimal : ℕ → Option ℕ
  pub is_space : ℕ → Bool

-- The brackets of a citation marker are no digits.
pub record HasPlainBrackets (table : CharTable) : Type 0 where
  pub opening : table.decimal b'[' ≡ none
  pub closing : table.decimal b']' ≡ none

unfoldable pub lstrip : CharTable → Text → Text
lstrip table [] = []
lstrip table (c ∷ t) = let rest = lstrip table t in if table.is_space c then rest else c ∷ t

-- str.strip()
unfoldable pub strip : CharTable → Text → Text
unfolding lstrip
strip table t = reverse (lstrip table (reverse (lstrip table t)))

-- str.strip(chars)
abbrev pub lstrip_chars : Text → Text → Text
lstrip_chars chars [] = []
lstrip_chars chars (c ∷ t) = let rest = lstrip_chars chars t in if elem c chars then rest else c ∷ t

unfoldable pub strip_chars : Text → Text → Text
strip_chars chars t = reverse (lstrip_chars chars (reverse (lstrip_chars chars t)))

abbrev pub ascii : CharTable
ascii = record {
  decimal = λ c. if leb b'0' c && leb c b'9' then some (c - b'0') else none;
  is_space = λ c. c == 32 || leb 9 c && leb c 13;
}

pub ascii-HasPlainBrackets : HasPlainBrackets ascii
ascii-HasPlainBrackets = record { opening = refl; closing = refl }
