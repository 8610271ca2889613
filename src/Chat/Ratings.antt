-- ===== src/Chat/Ratings.antt =====
-- The ratings of app/api/chat.py: `message_feedback` updates or adds the one row of a message and a user.
use agentic_rag_claude_code.Prelude.{
  ℕ, ◌≡◌, Bool, true, Option, none, some, List, [], ◌∷◌, Text, find_if, ◌==◌, if◌then◌else◌,
}
use agentic_rag_claude_code.Access.Rbac.{User}
use agentic_rag_claude_code.Chat.Rows.{
  ChatMessage, ChatSession, MessageFeedback, Rating, Chats, is_assistant,
}
use agentic_rag_claude_code.Chat.Conversations.{find_session, is_by, rating_of, upsert}

-- No two rows are of one message and one user.
abbrev pub IsSingle : List MessageFeedback → Type 0
IsSingle [] = Unit
IsSingle (f ∷ fs) = (find_if (is_by f.message_id f.user_id) fs ≡ none) × IsSingle fs

-- what `is_by` tests of two keys
abbrev pub IsOther : ℕ → ℕ → ℕ → ℕ → Type 0
IsOther k i k' i' = k ≡ k' → i ≡ i' → ⊥

module _ (k : ℕ) (u : User) (rating : Rating) (reason : Option Text) where
  abbrev row : MessageFeedback
  row = record { message_id = k; user_id = u.id; rating = rating; reason = reason }

  abbrev rows : List MessageFeedback → List MessageFeedback
  rows fs = upsert k u rating reason fs

  abbrev updated : Bool → MessageFeedback → List MessageFeedback → List MessageFeedback
  updated b f fs = if b then record f { rating = rating; reason = reason } ∷ fs else f ∷ rows fs

pub record IsRated (k : ℕ) (u : User) (rating : Rating) (w v : Chats) : Type 0 where
  pub message : ChatMessage
  pub session : ChatSession
  pub of_message : find_if (λ (m : ChatMessage). m.id == k) w.messages ≡ some message
  pub of_session : find_session message.session_id w.sessions ≡ some session
  pub owned : session.user_id ≡ u.id
  pub is_answer : is_assistant message.role ≡ true
  pub rated : rating_of k u v.feedback ≡ some rating
  pub others :
      (k' : ℕ) (u' : User)
      → IsOther k u.id k' u'.id
      → rating_of k' u' v.feedback ≡ rating_of k' u' w.feedback
  pub single : IsSingle v.feedback
