-- ===== src/Tests/Gaps.antt =====
-- The report of unanswered questions on a few messages.
use agentic_rag_claude_code.Prelude.{ℕ, ◌≡◌, refl, none, some, List, [], ◌∷◌, map, Text, codes}
use agentic_rag_claude_code.Characters.{ascii, strip}
use agentic_rag_claude_code.Citations.{insufficient_answer}
use agentic_rag_claude_code.Chat.Rows.{MessageRole, user, assistant, up, down}
use agentic_rag_claude_code.Gaps.Classify.{
  no_evidence, declined, negative_feedback, classify_answer, normalize_question,
}
use agentic_rag_claude_code.Gaps.Report.{MessageRow, FeedbackRow, build_report}
use agentic_rag_claude_code.Gaps.Tally.{IsConsistent, build_report-IsConsistent}

abbrev as_is : Text → Text
as_is t = t

abbrev message : ℕ → ℕ → MessageRole → Text → MessageRow
message i conversation role content = record {
  id = i;
  session_id = conversation;
  role = role;
  content = content;
  created_at = i;
  user_id = conversation;
}

-- one question in two conversations, asked again in the first, and an answered one
abbrev messages : List MessageRow
messages =
    message 1 7 user (codes "who  is it?")
    ∷ message 2 7 assistant insufficient_answer
    ∷ message 3 7 user (codes "who is it")
    ∷ message 4 7 assistant (codes "they do not mention him")
    ∷ message 5 7 assistant (codes "no question stands before this")
    ∷ message 6 8 user (codes " who is it ?")
    ∷ message 7 8 assistant (codes "him")
    ∷ message 8 8 user (codes "and when?")
    ∷ message 9 8 assistant (codes "then")
    ∷ []

abbrev feedback : List FeedbackRow
feedback =
    record { message_id = 7; rating = down; reason = some (codes " wrong ") }
    ∷ record { message_id = 9; rating = up; reason = none }
    ∷ []

classified :
    map
      (λ (a : Text). classify_answer ascii as_is (some a))
      ([] ∷ codes "we have no information" ∷ codes "him" ∷ [])
    ≡ some no_evidence ∷ some declined ∷ none ∷ []
unfolding classify_answer strip
classified = refl

normalized : normalize_question ascii as_is (codes "  who   is it ?! ") ≡ codes "who is it"
unfolding normalize_question strip
normalized = refl

reported : build_report ascii as_is feedback 5 messages ≡ record {
  total_questions = 4;
  gap_questions = 3;
  negative_feedback = 1;
  items =
      record {
        question = codes " who is it ?";
        count = 3;
        users = 2;
        last_asked = 7;
        kinds = no_evidence ∷ declined ∷ negative_feedback ∷ [];
        sample_answer = codes "him";
        feedback_reasons = codes "wrong" ∷ [];
      }
      ∷ [];
}
unfolding build_report strip
reported = refl

build_report-IsConsistent_example : IsConsistent 5 (build_report ascii as_is feedback 5 messages)
build_report-IsConsistent_example = build_report-IsConsistent ascii as_is feedback 5 messages
