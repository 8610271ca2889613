-- ===== src/Chat/Isolation.antt =====
-- No request of another user of app/api/chat.py touches a user's conversations.
use agentic_rag_claude_code.Prelude.{
  ℕ, ◌≡◌, ◌≢◌, refl, sym, subst, ◌∙◌, Bool, true, false, Option, none, some, Text, take, Result, ok,
  raise, ok-injective,
}
use agentic_rag_claude_code.Settings.{Settings}
use agentic_rag_claude_code.Access.Rbac.{User, accessible_collection_ids}
use agentic_rag_claude_code.Graph.State.{World}
use agentic_rag_claude_code.Graph.Services.{Services}
use agentic_rag_claude_code.Graph.Builder.{turn}
use agentic_rag_claude_code.Chat.Rows.{
  ChatSession, Rating, Chats, ChatError, recursion_error, ChatTurnResponse,
}
use agentic_rag_claude_code.Chat.Conversations.{
  find_session, owned_session, create_session, messages_of, delete_session, message_feedback,
}
use agentic_rag_claude_code.Chat.Turns.{
  ChatState, ChatRequest, FreshIds, thread, add_message, session_for, question_row, answer_row,
  answered, run_turn, chat,
}
use agentic_rag_claude_code.Chat.Answers.{session_for-IsSession}
use agentic_rag_claude_code.Chat.Kept.{
  IsKept, IsKeptRow, chats_after, find_session-apart, create_session-IsKept, ok_or_same,
  delete_session-IsKept, message_feedback-IsKept, messages_of-append,
}

module _ (s : Settings) (v : Services) where
  -- A run in another session adds its messages there.
  run_turn-IsKept :
      (i j : ℕ) (late : Option World) (body : ChatRequest) (ids : FreshIds) (u o : User)
      (w : ChatState)
      → j ≢ i
      → IsKept i u w.chats (run_turn s v late body ids o j w).1.chats
  unfolding run_turn
  run_turn-IsKept i j (some run) body ids u o w n x f e =
      (f, messages_of-append i w.chats.messages (question_row ids j body.message) n)
  run_turn-IsKept i j none body ids u o w n x f e =
      which (
        turn s v body.message (accessible_collection_ids w.chats.tables o) ids.request (thread j w))
    where
      w1 : ChatState
      w1 = add_message (question_row ids j body.message) w

      asked : messages_of i w1.chats.messages ≡ messages_of i w.chats.messages
      asked = messages_of-append i w.chats.messages (question_row ids j body.message) n

      which :
          (r : Option World)
          → IsKeptRow i x w.chats (
              chats_after (elim r [
                | none ↦ (raise recursion_error, w1)
                | some run ↦ let (response, w2) = answered ids o j run w1 in (ok response, w2)
              ]))
      which none = (f, asked)
      which (some run) =
          (f, messages_of-append i w1.chats.messages (answer_row ids j run) n ∙ asked)

  -- The session of the request is another one, and the conversation stands.
  session_for-IsKept :
      (i : ℕ) (body : ChatRequest) (ids : FreshIds) (u o : User) (w : Chats)
      (found : ChatSession × Chats)
      → find_session ids.session w.sessions ≡ none
      → session_for body ids o w ≡ ok found
      → IsKept i u w found.1
  unfolding session_for
  session_for-IsKept i body ids u o w found fresh h = which body.session_id h
    where
      which :
          (b : Option ℕ)
          → ◌≡◌ {A = Result ChatError (ChatSession × Chats)}
              (elim b [
                | none ↦ ok (create_session ids.session (some (take 80 body.message)) o w)
                | some i ↦ elim (owned_session i o w) [
                  | ok session ↦ ok (session, w)
                  | raise e ↦ raise e
                ]
              ])
              (ok found)
          → IsKept i u w found.1
      which none k =
          subst (λ (found : ChatSession × Chats). IsKept i u w found.1) (ok-injective k)
            (create_session-IsKept i ids.session (some (take 80 body.message)) u o w fresh)
      which (some j) k = same (owned_session j o w) k
        where
          same :
              (r : Result ChatError ChatSession)
              → ◌≡◌ {A = Result ChatError (ChatSession × Chats)}
                  (elim r [ ok session ↦ ok (session, w) | raise e ↦ raise e ])
                  (ok found)
              → IsKept i u w found.1
          same (ok y) k =
              subst (λ (found : ChatSession × Chats). IsKept i u w found.1) (ok-injective k)
                (λ x f e. (f, refl))
          same (raise e) k = absurd (cc k)

  chat-IsKept :
      (i : ℕ) (llm_available : Bool) (late : Option World) (body : ChatRequest) (ids : FreshIds)
      (u o : User) (w : ChatState)
      → o.id ≢ u.id
      → find_session ids.session w.chats.sessions ≡ none
      → IsKept i u w.chats (chat s v llm_available late body ids o w).1.chats
  unfolding chat
  chat-IsKept i false late body ids u o w n fresh x f e = (f, refl)
  chat-IsKept i true late body ids u o w n fresh x f e = which (session_for body ids o w.chats) refl
    where
      which :
          (r : Result ChatError (ChatSession × Chats))
          → session_for body ids o w.chats ≡ r
          → IsKeptRow i x w.chats (
              chats_after (elim r [
                | raise e ↦ (raise e, w)
                | ok found ↦ run_turn s v late body ids o found.0.id (record w { chats = found.1 })
              ]))
      which (raise e) q = (f, refl)
      which (ok found) q =
          let k = session_for-IsSession body ids o w.chats found q in
          let (f1, m1) = session_for-IsKept i body ids u o w.chats found fresh q x f e in
          let apart =
            find_session-apart i found.0.id u o found.1.sessions x found.0 n f1 e k.stands
              k.owned in
          let (f2, m2) =
            run_turn-IsKept i found.0.id late body ids u o (record w { chats = found.1 })
              (λ p. apart (sym p)) x f1 e in
          (f2, m2 ∙ m1)

  abbrev pub chatted_state : Result ChatError ChatTurnResponse × ChatState → ChatState
  chatted_state r = r.1

  -- Requests of the users other than u. UUIDs of new sessions are those of no session yet.
  pub data Steps (u : User) (w : ChatState) : ChatState → Type 0 where
    start : Steps u w w
    created :
        (id : ℕ) (title : Option Text) (o : User) (w' : ChatState)
        → o.id ≢ u.id
        → find_session id w'.chats.sessions ≡ none
        → Steps u w w'
        → Steps u w (record w' { chats = (create_session id title o w'.chats).1 })
    deleted :
        (j : ℕ) (o : User) (w' : ChatState)
        → o.id ≢ u.id
        → Steps u w w'
        → Steps u w (record w' { chats = ok_or_same w'.chats (delete_session j o w'.chats) })
    rated :
        (k : ℕ) (rating : Rating) (reason : Option Text) (o : User) (w' : ChatState)
        → o.id ≢ u.id
        → Steps u w w'
        → Steps u w (record w' {
          chats = ok_or_same w'.chats (message_feedback k rating reason o w'.chats);
        })
    chatted :
        (llm_available : Bool) (late : Option World) (body : ChatRequest) (ids : FreshIds)
        (o : User) (w' : ChatState)
        → o.id ≢ u.id
        → find_session ids.session w'.chats.sessions ≡ none
        → Steps u w w'
        → Steps u w (chatted_state (chat s v llm_available late body ids o w'))

  IsKept-trans :
      (i : ℕ) (u : User) (a b c : Chats) → IsKept i u a b → IsKept i u b c → IsKept i u a c
  IsKept-trans i u a b c h k x f e =
      let (f1, m1) = h x f e in let (f2, m2) = k x f1 e in (f2, m2 ∙ m1)

  -- Whatever other users ask, in any order, to create, delete, rate or continue a conversation, each
  -- conversation of a user stands as it did, with the same messages.
  pub Steps-IsKept :
      (i : ℕ) (u : User) (w w' : ChatState) → Steps u w w' → IsKept i u w.chats w'.chats
  Steps-IsKept i u w w' start = λ x f e. (f, refl)
  Steps-IsKept i u w _ (created id title o w' n fresh p) =
      IsKept-trans i u w.chats w'.chats (create_session id title o w'.chats).1
        (Steps-IsKept i u w w' p) (create_session-IsKept i id title u o w'.chats fresh)
  Steps-IsKept i u w _ (deleted j o w' n p) =
      IsKept-trans i u w.chats w'.chats (ok_or_same w'.chats (delete_session j o w'.chats))
        (Steps-IsKept i u w w' p) (delete_session-IsKept i j u o w'.chats n)
  Steps-IsKept i u w _ (rated k rating reason o w' n p) =
      IsKept-trans i u w.chats w'.chats
        (ok_or_same w'.chats (message_feedback k rating reason o w'.chats))
        (Steps-IsKept i u w w' p) (message_feedback-IsKept i k rating reason u o w'.chats)
  Steps-IsKept i u w _ (chatted l late body ids o w' n fresh p) =
      IsKept-trans i u w.chats w'.chats (chat s v l late body ids o w').1.chats
        (Steps-IsKept i u w w' p) (chat-IsKept i l late body ids u o w' n fresh)
