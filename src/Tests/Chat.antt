-- ===== src/Tests/Chat.antt =====
-- Conversations on concrete rows, and the examples of their theorems.
use agentic_rag_claude_code.Prelude.{
  ℕ, ◌≡◌, ◌≢◌, refl, ap, true, Option, none, some, [], ◌∷◌, codes, ok, raise, take, ◌>>=◌, or_raise,
  ◌>>◌, require, false,
}
use agentic_rag_claude_code.Settings.{defaults}
use agentic_rag_claude_code.Access.Rbac.{Role, User, Document, indexed, accessible_collection_ids}
use agentic_rag_claude_code.Ingestion.FileType.{txt}
use agentic_rag_claude_code.Citations.{Citation}
use agentic_rag_claude_code.Graph.State.{World, no_state}
use agentic_rag_claude_code.Chat.Rows.{
  MessageRole, ChatMessage, up, down, Chats, session_not_found, recursion_error, whole, revoked,
  ChatSessionDetail, ChatTurnResponse,
}
use agentic_rag_claude_code.Chat.Conversations.{get_session, create_session, delete_session}
use agentic_rag_claude_code.Chat.Histories.{IsHistory, get_session-IsHistory}
use agentic_rag_claude_code.Chat.Turns.{
  ChatState, ChatRequest, FreshIds, add_message, question_row, answered, chat,
}
use agentic_rag_claude_code.Chat.Answers.{IsAnswer, chat-IsAnswer}
use agentic_rag_claude_code.Chat.Kept.{IsKept, ok_or_same}
use agentic_rag_claude_code.Chat.Isolation.{start, created, deleted, Steps-IsKept}
use agentic_rag_claude_code.Tests.Graph.{services, question, end_of, ends}

abbrev asker : User
asker = record {
  id = 1;
  role = Role.user;
  department_id = some 3;
  is_active = true;
  email = codes "a";
  hashed_password = [];
}

abbrev other : User
other = record asker { id = 2 }

abbrev document : ℕ → ℕ → Document
document id collection_id = record {
  id = id;
  collection_id = collection_id;
  filename = codes "a.txt";
  file_type = txt;
  content_hash = id;
  status = indexed;
  error = none;
  uploaded_by_id = none;
}

abbrev citation : ℕ → ℕ → Citation
citation n id = record {
  is_bare = false;
  marker = n;
  document_id = id;
  chunk_id = 90;
  page_number = none;
  chunk_type = codes "text";
  file_name = none;
  section_title = none;
  content = codes "a passage";
  image_uri = none;
}

abbrev answer : ChatMessage
answer = record {
  id = 61;
  session_id = 50;
  role = MessageRole.assistant;
  content = codes "At eight [1] [2]";
  citations = some (citation 1 5 ∷ citation 2 6 ∷ []);
}

-- The answer cites a document of a collection of the asker's department and one of another.
abbrev rows : Chats
rows = record {
  tables = record {
    collections =
        record { id = 7; name = codes "c"; department_id = some 3 }
        ∷ record { id = 8; name = codes "c"; department_id = some 4 }
        ∷ [];
    permissions = [];
  };
  documents = document 5 7 ∷ document 6 8 ∷ [];
  sessions =
      record { id = 50; user_id = 1; title = none }
      ∷ record { id = 51; user_id = 2; title = none }
      ∷ [];
  messages = answer ∷ [];
  feedback = record { message_id = 61; user_id = 2; rating = up; reason = none } ∷ [];
  audit = [];
}

abbrev detail : ChatSessionDetail
detail = record {
  id = 50;
  title = none;
  messages =
      record {
        id = 61;
        role = MessageRole.assistant;
        content = codes "At eight [1] [2]";
        feedback = none;
        citations = some (whole (citation 1 5) ∷ revoked (some 2) ∷ []);
      }
      ∷ [];
}

reopened : get_session 50 asker rows ≡ ok detail
unfolding get_session accessible_collection_ids ◌>>=◌ or_raise ◌>>◌ require
reopened = refl

get_session-IsHistory_example : IsHistory 50 asker rows detail
get_session-IsHistory_example = get_session-IsHistory 50 asker rows detail reopened

not_owned : get_session 51 asker rows ≡ raise session_not_found
unfolding get_session ◌>>=◌ or_raise ◌>>◌ require
not_owned = refl

abbrev rated_rows : Chats
rated_rows = record rows {
  feedback =
      record { message_id = 61; user_id = 2; rating = up; reason = none }
      ∷ record { message_id = 61; user_id = 1; rating = down; reason = none }
      ∷ [];
}

abbrev state : ChatState
state = record { chats = rows; threads = λ i. no_state; stored = []; queued = [] }

apart : other.id ≢ asker.id
apart e = cc

-- The other user makes a conversation and deletes one.
abbrev after_two : ChatState
after_two =
    let one : ChatState = record state { chats = (create_session 52 none other rows).1 } in
    record one { chats = ok_or_same one.chats (delete_session 51 other one.chats) }

Steps-IsKept_example : IsKept 50 asker rows after_two.chats
Steps-IsKept_example = Steps-IsKept defaults (services true) 50 asker state after_two (
    deleted 51 other (record state { chats = (create_session 52 none other rows).1 }) apart
      (created 52 none other state apart refl start))

abbrev request : ChatRequest
request = record { message = question; session_id = none }

abbrev ids : FreshIds
ids = record { session = 70; question = 71; answer = 72; request = 1 }

abbrev asked : ChatState
asked =
    add_message (question_row ids 70 question)
      (record state { chats = (create_session 70 (some (take 80 question)) asker rows).1 })

abbrev reply : ChatTurnResponse × ChatState
reply = answered ids asker 70 (end_of true) asked

answers : chat defaults (services true) true none request ids asker state ≡ (ok reply.0, reply.1)
unfolding chat accessible_collection_ids
answers =
    ap
      (λ (o : Option World). elim o [
        | none ↦ (raise recursion_error, asked)
        | some run ↦ let (response, w2) = answered ids asker 70 run asked in (ok response, w2)
      ])
      (ends true)

chat-IsAnswer_example : IsAnswer defaults (services true) request ids asker state reply.1 reply.0
chat-IsAnswer_example =
    chat-IsAnswer defaults (services true) true none request ids asker state reply.1 reply.0 answers
      refl
