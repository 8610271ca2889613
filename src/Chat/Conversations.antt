-- ===== src/Chat/Conversations.antt =====
-- The endpoints of app/api/chat.py for sessions and feedback.
use agentic_rag_claude_code.Prelude.{
  ℕ, Bool, not, ◌&&◌, Option, none, some, List, [], ◌∷◌, ◌++◌, map, Text, elem, is_empty, filter_by,
  find_if, ◌==◌, if◌then◌else◌, Result, ok, ◌>>=◌, ◌>>◌, require, or_raise,
}
use agentic_rag_claude_code.Access.Rbac.{User, Document, accessible_collection_ids}
use agentic_rag_claude_code.Citations.{Citation, get_marker}
use agentic_rag_claude_code.Chat.Rows.{
  is_assistant, ChatSession, ChatMessage, Rating, MessageFeedback, conversation_delete, Chats,
  ChatError, session_not_found, message_not_found, not_an_answer, ShownCitation, whole, revoked,
  ChatMessageOut, ChatSessionDetail,
}

abbrev pub find_session : ℕ → List ChatSession → Option ChatSession
find_session i sessions = find_if (λ (s : ChatSession). s.id == i) sessions

-- _owned_session
unfoldable pub owned_session : ℕ → User → Chats → Result ChatError ChatSession
owned_session i u w = do
  session ← or_raise (find_session i w.sessions) session_not_found
  require (session.user_id == u.id) session_not_found
  ok session

unfoldable pub create_session : ℕ → Option Text → User → Chats → ChatSession × Chats
create_session id title u w =
    let session : ChatSession = record { id = id; user_id = u.id; title = title } in
    (session, record w { sessions = session ∷ w.sessions })

unfoldable pub list_sessions : User → Chats → List ChatSession
list_sessions u w = filter_by (λ (s : ChatSession). s.user_id == u.id) w.sessions

-- select(ChatMessage).where(ChatMessage.session_id == session.id)
abbrev pub messages_of : ℕ → List ChatMessage → List ChatMessage
messages_of i messages = filter_by (λ (m : ChatMessage). m.session_id == i) messages

abbrev pub ids_of : List ChatMessage → List ℕ
ids_of ms = map (λ (m : ChatMessage). m.id) ms

-- The rows of messages and of feedback go with the row of the session.
abbrev pub drop_session : ℕ → User → Chats → Chats
drop_session i u w = record w {
  sessions = filter_by (λ (s : ChatSession). not (s.id == i)) w.sessions;
  messages = filter_by (λ (m : ChatMessage). not (m.session_id == i)) w.messages;
  feedback =
      filter_by
        (λ (f : MessageFeedback). not (elem f.message_id (ids_of (messages_of i w.messages))))
        w.feedback;
  audit = record { action = conversation_delete; user_id = u.id; resource_id = i } ∷ w.audit;
}

unfoldable pub delete_session : ℕ → User → Chats → Result ChatError Chats
unfolding owned_session
delete_session i u w = do session ← owned_session i u w; ok (drop_session i u w)

-- the documents that messages cite
abbrev pub cited_in : Option (List Citation) → List ℕ
cited_in none = []
cited_in (some cs) = map (λ (c : Citation). c.document_id) cs

abbrev pub cited : List ChatMessage → List ℕ
cited [] = []
cited (m ∷ ms) = cited_in m.citations ++ cited ms

-- _readable_document_ids
unfoldable pub readable_document_ids : User → List ChatMessage → Chats → List ℕ
unfolding accessible_collection_ids
readable_document_ids u ms w =
    let cited_ids = cited ms in
    let allowed = accessible_collection_ids w.tables u in
    if is_empty cited_ids
    then []
    else if is_empty allowed
    then []
    else map (λ (d : Document). d.id)
        (filter_by (λ (d : Document). elem d.id cited_ids && elem d.collection_id allowed)
          w.documents)

abbrev pub shown : List ℕ → Citation → ShownCitation
shown readable c = if elem c.document_id readable then whole c else revoked (get_marker c)

-- _visible_citations
abbrev pub visible_citations : Option (List Citation) → List ℕ → Option (List ShownCitation)
visible_citations none readable = none
visible_citations (some cs) readable = some (map (shown readable) cs)

-- the user's rating of a message
abbrev pub is_by : ℕ → ℕ → MessageFeedback → Bool
is_by message_id user_id f = f.message_id == message_id && f.user_id == user_id

abbrev pub rating_in : Option MessageFeedback → Option Rating
rating_in none = none
rating_in (some f) = some f.rating

abbrev pub rating_of : ℕ → User → List MessageFeedback → Option Rating
rating_of message_id u feedback = rating_in (find_if (is_by message_id u.id) feedback)

abbrev pub message_out : User → List MessageFeedback → List ℕ → ChatMessage → ChatMessageOut
message_out u feedback readable m = record {
  id = m.id;
  role = m.role;
  content = m.content;
  feedback = rating_of m.id u feedback;
  citations = visible_citations m.citations readable;
}

unfoldable pub get_session : ℕ → User → Chats → Result ChatError ChatSessionDetail
unfolding owned_session readable_document_ids
get_session i u w = do
  session ← owned_session i u w
  ok (record {
    id = session.id;
    title = session.title;
    messages =
        map
          (message_out u w.feedback (readable_document_ids u (messages_of session.id w.messages) w))
          (messages_of session.id w.messages);
  })

-- the row of the user is updated, or a new one is added
abbrev pub upsert : ℕ → User → Rating → Option Text → List MessageFeedback → List MessageFeedback
upsert message_id u rating reason [] =
    record { message_id = message_id; user_id = u.id; rating = rating; reason = reason } ∷ []
upsert message_id u rating reason (f ∷ fs) =
    let rest = upsert message_id u rating reason fs in
    if is_by message_id u.id f then record f { rating = rating; reason = reason } ∷ fs else f ∷ rest

unfoldable pub message_feedback : ℕ → Rating → Option Text → User → Chats → Result ChatError Chats
message_feedback message_id rating reason u w = do
  message ←
      or_raise (find_if (λ (m : ChatMessage). m.id == message_id) w.messages) message_not_found
  session ← or_raise (find_session message.session_id w.sessions) message_not_found
  require (session.user_id == u.id) message_not_found
  require (is_assistant message.role) not_an_answer
  ok (record w { feedback = upsert message_id u rating reason w.feedback })
