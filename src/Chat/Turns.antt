-- ===== src/Chat/Turns.antt =====
-- `chat` of app/api/chat.py: one turn of the agent graph in a conversation. Its rate limit is the
-- dependency of app/core/ratelimit.py, which Access/Quota models.
use agentic_rag_claude_code.Prelude.{
  ℕ, Bool, Option, none, some, List, [], ◌∷◌, ◌++◌, Text, take, ◌==◌, if◌then◌else◌, Result, ok,
  raise,
}
use agentic_rag_claude_code.Settings.{Settings}
use agentic_rag_claude_code.Access.Rbac.{User, accessible_collection_ids}
use agentic_rag_claude_code.Citations.{Citation}
use agentic_rag_claude_code.Graph.State.{GraphState, CacheWrite, EvalJob, World}
use agentic_rag_claude_code.Graph.Services.{Services}
use agentic_rag_claude_code.Graph.Builder.{turn}
use agentic_rag_claude_code.Chat.Rows.{
  MessageRole, ChatSession, ChatMessage, generation, Chats, ChatError, llm_unavailable, timed_out,
  recursion_error, ChatTurnResponse,
}
use agentic_rag_claude_code.Chat.Conversations.{owned_session, create_session}

-- The rows, the checkpoints by thread, and what the runs of the graph write.
pub record ChatState : Type 0 where
  pub chats : Chats
  pub threads : ℕ → GraphState
  pub stored : List CacheWrite
  pub queued : List EvalJob

pub record ChatRequest : Type 0 where
  pub message : Text
  pub session_id : Option ℕ

-- The UUIDs of the call.
pub record FreshIds : Type 0 where
  pub session : ℕ
  pub question : ℕ
  pub answer : ℕ
  pub request : ℕ

abbrev pub thread : ℕ → ChatState → World
thread i w = record { state = w.threads i; stored = w.stored; queued = w.queued }

abbrev pub with_thread : ℕ → World → ChatState → ChatState
with_thread i run w = record w {
  threads = λ j. if j == i then run.state else w.threads j;
  stored = run.stored;
  queued = run.queued;
}

abbrev pub add_message : ChatMessage → ChatState → ChatState
add_message m w = record w { chats = record w.chats { messages = w.chats.messages ++ m ∷ [] } }

-- result.get("citations") or None
abbrev pub or_null : List Citation → Option (List Citation)
or_null [] = none
or_null (c ∷ cs) = some (c ∷ cs)

-- The session of the request: one of the user's, or a new one.
unfoldable pub session_for :
    ChatRequest → FreshIds → User → Chats → Result ChatError (ChatSession × Chats)
unfolding owned_session create_session
session_for body ids u w = elim body.session_id [
  | none ↦ ok (create_session ids.session (some (take 80 body.message)) u w)
  | some i ↦ elim (owned_session i u w) [ ok session ↦ ok (session, w) | raise e ↦ raise e ]
]

abbrev pub answer_row : FreshIds → ℕ → World → ChatMessage
answer_row ids i run = record {
  id = ids.answer;
  session_id = i;
  role = MessageRole.assistant;
  content = run.answer;
  citations = or_null run.citations;
}

abbrev pub record_generation : User → ℕ → ChatState → ChatState
record_generation u i w = record w {
  chats = record w.chats {
    audit = record { action = generation; user_id = u.id; resource_id = i } ∷ w.chats.audit;
  };
}

-- the answer, its row and its audit entry
abbrev pub answered : FreshIds → User → ℕ → World → ChatState → ChatTurnResponse × ChatState
answered ids u i run w = (
  record {
    session_id = i;
    message_id = ids.answer;
    answer = run.answer;
    citations = run.citations;
    route = run.route;
    cache_hit = run.cache_hit;
    insufficient = run.insufficient;
  },
  record_generation u i (add_message (answer_row ids i run) (with_thread i run w)),
)

abbrev pub question_row : FreshIds → ℕ → Text → ChatMessage
question_row ids i message = record {
  id = ids.question;
  session_id = i;
  role = MessageRole.user;
  content = message;
  citations = none;
}

module _ (s : Settings) (v : Services) where
  -- `late` is what the run has written where it takes longer than max_request_duration_s.
  unfoldable pub run_turn :
      Option World
      → ChatRequest
      → FreshIds
      → User
      → ℕ
      → ChatState
      → Result ChatError ChatTurnResponse × ChatState
  unfolding turn accessible_collection_ids
  run_turn late body ids u i w =
      let allowed = accessible_collection_ids w.chats.tables u in
      let w1 = add_message (question_row ids i body.message) w in
      elim late [
        | some run ↦ (raise timed_out, with_thread i run w1)
        | none ↦ elim (turn s v body.message allowed ids.request (thread i w1)) [
          | none ↦ (raise recursion_error, w1)
          | some run ↦ let (response, w2) = answered ids u i run w1 in (ok response, w2)
        ]
      ]

  unfoldable pub chat :
      Bool
      → Option World
      → ChatRequest
      → FreshIds
      → User
      → ChatState
      → Result ChatError ChatTurnResponse × ChatState
  unfolding run_turn session_for
  chat llm_available late body ids u w =
      if llm_available
      then elim (session_for body ids u w.chats) [
        | raise e ↦ (raise e, w)
        | ok found ↦ run_turn late body ids u found.0.id (record w { chats = found.1 })
      ]
      else (raise llm_unavailable, w)
