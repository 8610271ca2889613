-- ===== src/Gaps/Classify.antt =====
-- `classify_answer` and `normalize_question` of app/services/knowledge_gaps.py. `lower` is str.lower.
use agentic_rag_claude_code.Prelude.{
  ℕ, Bool, false, ◌||◌, Option, none, some, List, [], ◌∷◌, Text, codes, text_eq, is_empty, is_infix,
  take, get_or_else, ◌==◌, if◌then◌else◌,
}
use agentic_rag_claude_code.Characters.{CharTable, strip, strip_chars}
use agentic_rag_claude_code.Citations.{insufficient_answer}

pub data Kind : Type 0 where
  no_evidence declined negative_feedback : Kind

abbrev pub decline_markers : List Text
decline_markers =
    codes "enthält keine"
    ∷ codes "enthält keinen"
    ∷ codes "enthalten keine"
    ∷ codes "enthält nicht"
    ∷ codes "keine angaben"
    ∷ codes "keine information"
    ∷ codes "keinen hinweis"
    ∷ codes "keine hinweise"
    ∷ codes "nicht enthalten"
    ∷ codes "nicht beantworten"
    ∷ codes "nicht beantwortet"
    ∷ codes "liegen keine"
    ∷ codes "keine daten"
    ∷ codes "keine relevanten"
    ∷ codes "keine spezifische"
    ∷ codes "keine konkrete"
    ∷ codes "nicht direkt in den"
    ∷ codes "nicht direkt aus den"
    ∷ codes "kann nicht direkt"
    ∷ codes "nicht abgeleitet"
    ∷ codes "nicht nachvollzie"
    ∷ codes "es fehlt ein"
    ∷ codes "es fehlen"
    ∷ codes "keine antwort"
    ∷ codes "keine genauen"
    ∷ codes "kann ich keine"
    ∷ codes "steht nicht in"
    ∷ codes "nicht in den gegebenen"
    ∷ codes "nicht in den genannten"
    ∷ codes "nicht im angegebenen"
    ∷ codes "nicht im gegebenen"
    ∷ codes "nicht im kontext"
    ∷ codes "nicht erwähnt"
    ∷ codes "nicht direkt belegt"
    ∷ codes "beantwortbar"
    ∷ codes "beziehen sich nicht auf"
    ∷ codes "bezieht sich nicht auf"
    ∷ codes "does not contain"
    ∷ codes "do not contain"
    ∷ codes "doesn't contain"
    ∷ codes "don't contain"
    ∷ codes "no information"
    ∷ codes "no specific information"
    ∷ codes "cannot be answered"
    ∷ codes "can't be answered"
    ∷ codes "not mention"
    ∷ codes "no answer can be"
    ∷ codes "no relevant"
    ∷ codes "not provided in"
    ∷ codes "does not specify"
    ∷ codes "do not specify"
    ∷ codes "not specified in"
    ∷ codes "there is no mention"
    ∷ codes "there is no specific"
    ∷ codes "not available in the"
    ∷ codes "not in the provided"
    ∷ []

abbrev pub any_infix : List Text → Text → Bool
any_infix [] t = false
any_infix (s ∷ ss) t = is_infix s t || any_infix ss t

-- _HEAD_CHARS
abbrev pub head_chars : ℕ
head_chars = 240

-- the characters that a question loses at its ends
abbrev pub trimmed_chars : Text
trimmed_chars = codes " ?!.,;:\"'„“”"

abbrev pub past_space : Text → Text
past_space [] = []
past_space (c ∷ t) = if c == 32 then t else c ∷ t

module _ (table : CharTable) (lower : Text → Text) where
  unfoldable pub classify_answer : Option Text → Option Kind
  classify_answer answer =
      let text = strip table (get_or_else answer []) in
      if is_empty text || text_eq text insufficient_answer
      then some no_evidence
      else if any_infix decline_markers (lower (take head_chars text))
      then some declined
      else none

  -- re.sub(r"\s+", " ", text): a space in front of a space takes its place
  abbrev pub collapse : Text → Text
  collapse [] = []
  collapse (c ∷ t) =
      let rest = collapse t in if table.is_space c then 32 ∷ past_space rest else c ∷ rest

  unfoldable pub normalize_question : Text → Text
  unfolding strip_chars
  normalize_question question = strip_chars trimmed_chars (strip table (collapse (lower question)))
