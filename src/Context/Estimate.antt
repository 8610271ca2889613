-- ===== src/Context/Estimate.antt =====
-- `estimate_tokens` of app/ingestion/chunker.py and `_truncate_to_budget` of
-- app/context/assembler.py. 3.8 characters make a token, so `len / 3.8` is `10 * len / 38`; since
-- 10 * len is even and 38 k + 19 is odd, no length falls half way between two whole numbers, and
-- `round` is the floor of (10 * len + 19) / 38.
use Prim.Native.Nat.{max}
use agentic_rag_claude_code.Prelude.{
  ℕ, ◌+◌, ◌*◌, ◌/◌, ◌≤◌, Text, length, take, length-take-le, arith,
}

-- max(1, round(n / 3.8)) for a text of `n` characters
unfoldable pub tokens_of_length : ℕ → ℕ
tokens_of_length n = max 1 ((10 * n + 19) / 38)

unfoldable pub estimate_tokens : Text → ℕ
unfolding tokens_of_length
estimate_tokens text = tokens_of_length (length text)

-- int(budget_tokens * 3.8)
abbrev pub chars_of_tokens : ℕ → ℕ
chars_of_tokens budget_tokens = 38 * budget_tokens / 10

unfoldable pub truncate_to_budget : Text → ℕ → Text
truncate_to_budget text budget_tokens = take (chars_of_tokens budget_tokens) text

pub estimate_tokens_pos : (text : Text) → 1 ≤ estimate_tokens text
unfolding estimate_tokens
estimate_tokens_pos text = omega arith

-- A longer text costs no fewer tokens.
pub estimate_tokens_mono :
    (s t : Text) → length s ≤ length t → estimate_tokens s ≤ estimate_tokens t
unfolding estimate_tokens
estimate_tokens_mono s t h = omega arith

-- The truncation inverts the estimate: whatever the text, the part that is kept fits a positive budget.
pub estimate_tokens-truncate_to_budget :
    (text : Text) (budget : ℕ)
    → 1 ≤ budget
    → estimate_tokens (truncate_to_budget text budget) ≤ budget
unfolding estimate_tokens truncate_to_budget
estimate_tokens-truncate_to_budget text budget h =
    omega (arith, length-take-le (chars_of_tokens budget) text)
