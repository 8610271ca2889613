-- ===== src/Chat/Rows.antt =====
-- The rows of app/models/chat.py, and what app/api/chat.py answers.
use agentic_rag_claude_code.Prelude.{ℕ, Bool, true, false, Option, List, Text}
use agentic_rag_claude_code.Access.Rbac.{Document, Tables}
use agentic_rag_claude_code.Citations.{Citation}
use agentic_rag_claude_code.Graph.State.{Intent}

pub data MessageRole : Type 0 where
  user assistant system : MessageRole

abbrev pub is_assistant : MessageRole → Bool
is_assistant user = false
is_assistant assistant = true
is_assistant system = false

pub record ChatSession : Type 0 where
  pub id : ℕ
  pub user_id : ℕ
  pub title : Option Text

pub record ChatMessage : Type 0 where
  pub id : ℕ
  pub session_id : ℕ
  pub role : MessageRole
  pub content : Text
  pub citations : Option (List Citation)

-- the rating "up" or "down"
pub data Rating : Type 0 where
  up down : Rating

pub record MessageFeedback : Type 0 where
  pub message_id : ℕ
  pub user_id : ℕ
  pub rating : Rating
  pub reason : Option Text

pub data AuditAction : Type 0 where
  generation conversation_delete : AuditAction

pub record AuditLog : Type 0 where
  pub action : AuditAction
  pub user_id : ℕ
  pub resource_id : ℕ

-- The rows: sessions and audit entries with the newest first, messages with the oldest first.
pub record Chats : Type 0 where
  pub tables : Tables
  pub documents : List Document
  pub sessions : List ChatSession
  pub messages : List ChatMessage
  pub feedback : List MessageFeedback
  pub audit : List AuditLog

pub data ChatError : Type 0 where
  session_not_found message_not_found not_an_answer llm_unavailable timed_out recursion_error :
      ChatError

-- A citation as a reopened conversation shows it: whole, or its marker only.
pub data ShownCitation : Type 0 where
  whole : Citation → ShownCitation
  revoked : Option ℕ → ShownCitation

pub record ChatMessageOut : Type 0 where
  pub id : ℕ
  pub role : MessageRole
  pub content : Text
  pub feedback : Option Rating
  pub citations : Option (List ShownCitation)

pub record ChatSessionDetail : Type 0 where
  pub id : ℕ
  pub title : Option Text
  pub messages : List ChatMessageOut

pub record ChatTurnResponse : Type 0 where
  pub session_id : ℕ
  pub message_id : ℕ
  pub answer : Text
  pub citations : List Citation
  pub route : Option Intent
  pub cache_hit : Bool
  pub insufficient : Bool
