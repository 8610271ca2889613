-- ===== src/Chat/Answers.antt =====
-- What a turn of app/api/chat.py answers and keeps, from the graph's turn and the rules of access.
use agentic_rag_claude_code.Prelude.{
  ℕ, ◌≡◌, refl, sym, ap, subst, ◌⊎◌, inl, inr, Bool, true, false, Option, none, some, List, [], ◌∷◌,
  ◌++◌, In, All, All_of_In, All-In, take, ◌==◌, ==_iff, ==_refl, Result, ok, raise, ok-injective,
  find_if-holds, if◌then◌else◌,
}
use agentic_rag_claude_code.Settings.{Settings}
use agentic_rag_claude_code.Access.Rbac.{User, Tables, accessible_collection_ids}
use agentic_rag_claude_code.Access.Readable.{Readable, accessible_collection_ids_iff}
use agentic_rag_claude_code.Chunks.{Chunk}
use agentic_rag_claude_code.Citations.{Citation, citation_of}
use agentic_rag_claude_code.Graph.State.{World}
use agentic_rag_claude_code.Graph.Services.{Services}
use agentic_rag_claude_code.Graph.Builder.{turn}
use agentic_rag_claude_code.Context.Assembler.Acl.{IsPart}
use agentic_rag_claude_code.Graph.Scope.{IsFrom, Cited, from_cache, from_scope, turn-Cited}
use agentic_rag_claude_code.Chat.Rows.{
  ChatSession, Chats, ChatError, recursion_error, ChatTurnResponse,
}
use agentic_rag_claude_code.Chat.Conversations.{find_session, owned_session, create_session}
use agentic_rag_claude_code.Chat.Histories.{owned_session-inv}
use agentic_rag_claude_code.Chat.Turns.{
  ChatState, ChatRequest, FreshIds, thread, add_message, session_for, question_row, answer_row,
  answered, run_turn, chat,
}

-- The citation copies one of the chunks, with its content or what a truncation leaves of it, and the rules
-- of access let the user read the collection of the chunk.
pub record IsReadableCitation (tables : Tables) (u : User) (chunks : List Chunk) (c : Citation)
    : Type 0 where
  pub source : Chunk
  pub listed : In source chunks
  pub readable : Readable tables u source.collection_id
  pub part : IsPart source.content c.content
  pub copied : c ≡ citation_of c.marker (record source { content = c.content })

IsFrom-IsReadableCitation :
    (tables : Tables) (u : User) (chunks : List Chunk) (c : Citation)
    → IsFrom (accessible_collection_ids tables u) chunks c
    → IsReadableCitation tables u chunks c
IsFrom-IsReadableCitation tables u chunks c h = record {
  source = h.source;
  listed = h.listed;
  readable = (accessible_collection_ids_iff tables u h.source.collection_id).0 h.permitted;
  part = h.part;
  copied = h.copied;
}

-- An answer: of a conversation of the user, as the graph's turn `run` on its thread left it, with the
-- question and the answer kept behind its messages, and with readable citations unless it came from the
-- cache.
pub record IsAnswer (s : Settings) (v : Services) (body : ChatRequest) (ids : FreshIds) (u : User)
    (w w' : ChatState) (r : ChatTurnResponse) : Type 0 where
  pub session : ChatSession
  pub found : find_session r.session_id w'.chats.sessions ≡ some session
  pub owned : session.user_id ≡ u.id
  pub run : World
  pub ran :
      turn s v body.message
        (accessible_collection_ids w.chats.tables u)
        ids.request
        (thread r.session_id w)
      ≡ some run
  pub same_answer : r.answer ≡ run.answer
  pub same_citations : r.citations ≡ run.citations
  pub kept :
      w'.chats.messages
      ≡ (w.chats.messages ++ question_row ids r.session_id body.message ∷ [])
        ++ answer_row ids r.session_id run ∷ []
  pub sources :
      (r.cache_hit ≡ true) ⊎ All (IsReadableCitation w.chats.tables u run.chunks) r.citations

-- The session of a request is the user's, and no other row changes.
pub record IsSession (u : User) (w : Chats) (found : ChatSession × Chats) : Type 0 where
  pub stands : find_session found.0.id found.1.sessions ≡ some found.0
  pub owned : found.0.user_id ≡ u.id
  pub same_messages : found.1.messages ≡ w.messages
  pub same_tables : found.1.tables ≡ w.tables

find_session-id :
    (i : ℕ) (l : List ChatSession) (x : ChatSession) → find_session i l ≡ some x → x.id ≡ i
find_session-id i l x h = (==_iff x.id i).0 (find_if-holds (λ (s : ChatSession). s.id == i) l x h)

pub session_for-IsSession :
    (body : ChatRequest) (ids : FreshIds) (u : User) (w : Chats) (found : ChatSession × Chats)
    → session_for body ids u w ≡ ok found
    → IsSession u w found
unfolding session_for create_session
session_for-IsSession body ids u w found = which body.session_id
  where
    owned_one :
        (i : ℕ) (r : Result ChatError ChatSession)
        → owned_session i u w ≡ r
        → ◌≡◌ {A = Result ChatError (ChatSession × Chats)}
            (elim r [ ok session ↦ ok (session, w) | raise e ↦ raise e ])
            (ok found)
        → IsSession u w found
    owned_one i (ok x) e h =
        let (f, o) = owned_session-inv i u w x e in
        subst (IsSession u w) (ok-injective h) (record {
          stands =
              subst (λ j. find_session j w.sessions ≡ some x)
                (sym (find_session-id i w.sessions x f)) f;
          owned = o;
          same_messages = refl;
          same_tables = refl;
        })
    owned_one i (raise x) e h = absurd (cc h)

    which :
        (o : Option ℕ)
        → ◌≡◌ {A = Result ChatError (ChatSession × Chats)}
            (elim o [
              | none ↦ ok (create_session ids.session (some (take 80 body.message)) u w)
              | some i ↦ elim (owned_session i u w) [
                | ok session ↦ ok (session, w)
                | raise e ↦ raise e
              ]
            ])
            (ok found)
        → IsSession u w found
    which none h = subst (IsSession u w) (ok-injective h) (record {
      stands =
          ap
            (λ b.
              if b
              then some (create_session ids.session (some (take 80 body.message)) u w).0
              else find_session ids.session w.sessions)
            (==_refl ids.session);
      owned = refl;
      same_messages = refl;
      same_tables = refl;
    })
    which (some i) h = owned_one i (owned_session i u w) refl h

module _ (s : Settings) (v : Services) where
  abbrev Reply : Type 0
  Reply = Result ChatError ChatTurnResponse × ChatState

  abbrev answer_of :
      FreshIds → User → ℕ → World → ChatRequest → ChatState → ChatTurnResponse × ChatState
  answer_of ids u i run body w =
      answered ids u i run (add_message (question_row ids i body.message) w)

  run_turn-inv :
      (late : Option World) (body : ChatRequest) (ids : FreshIds) (u : User) (i : ℕ)
      (w w' : ChatState) (r : ChatTurnResponse)
      → run_turn s v late body ids u i w ≡ (ok r, w')
      → (run : World) × (turn s v body.message
            (accessible_collection_ids w.chats.tables u)
            ids.request
            (thread i w)
          ≡ some run)
        × ((answer_of ids u i run body w).0 ≡ r)
        × ((answer_of ids u i run body w).1 ≡ w')
  unfolding run_turn
  run_turn-inv (some run) body ids u i w w' r h = absurd (cc (ap (λ (a : Reply). a.0) h))
  run_turn-inv none body ids u i w w' r h =
      which
        (turn s v body.message (accessible_collection_ids w.chats.tables u) ids.request
          (thread i w))
        refl h
    where
      which :
          (o : Option World)
          → turn s v body.message
              (accessible_collection_ids w.chats.tables u)
              ids.request
              (thread i w)
            ≡ o
          → ◌≡◌ {A = Reply}
              (elim o [
                | none ↦ (raise recursion_error, add_message (question_row ids i body.message) w)
                | some run ↦ let (response, w2) = answer_of ids u i run body w in (ok response, w2)
              ])
              (ok r, w')
          → (run : World) × (turn s v body.message
                (accessible_collection_ids w.chats.tables u)
                ids.request
                (thread i w)
              ≡ some run)
            × ((answer_of ids u i run body w).0 ≡ r)
            × ((answer_of ids u i run body w).1 ≡ w')
      which none e k = absurd (cc (ap (λ (a : Reply). a.0) k))
      which (some run) e k =
          (run, e, ok-injective (ap (λ (a : Reply). a.0) k), ap (λ (a : Reply). a.1) k)

  sources-readable :
      (tables : Tables) (u : User) (run : World)
      → Cited (accessible_collection_ids tables u) run
      → (run.cache_hit ≡ true) ⊎ All (IsReadableCitation tables u run.chunks) run.citations
  sources-readable tables u run (from_cache c) = inl c
  sources-readable tables u run (from_scope a) = inr (
      All_of_In (IsReadableCitation tables u run.chunks) run.citations (λ c m.
        IsFrom-IsReadableCitation tables u run.chunks c
          (All-In (IsFrom (accessible_collection_ids tables u) run.chunks) c run.citations a m)))

  -- The answer that a run in the session of the request gives.
  answer_of-IsAnswer :
      (body : ChatRequest) (ids : FreshIds) (u : User) (w : ChatState) (found : ChatSession × Chats)
      (run : World)
      → IsSession u w.chats found
      → (w.threads found.0.id).citations ≡ []
      → turn s v body.message
          (accessible_collection_ids found.1.tables u)
          ids.request
          (thread found.0.id w)
        ≡ some run
      → IsAnswer s v body ids u w
          (answer_of ids u found.0.id run body (record w { chats = found.1 })).1
          (answer_of ids u found.0.id run body (record w { chats = found.1 })).0
  answer_of-IsAnswer body ids u w found run f none_yet t = record {
    session = found.0;
    found = f.stands;
    owned = f.owned;
    run = run;
    ran =
        subst
          (λ tables.
            turn s v body.message (accessible_collection_ids tables u) ids.request
              (thread found.0.id w)
            ≡ some run)
          f.same_tables t;
    same_answer = refl;
    same_citations = refl;
    kept =
        ap
          (λ ms.
            (ms ++ question_row ids found.0.id body.message ∷ [])
            ++ answer_row ids found.0.id run ∷ [])
          f.same_messages;
    sources =
        subst
          (λ tables.
            (run.cache_hit ≡ true) ⊎ All (IsReadableCitation tables u run.chunks) run.citations)
          f.same_tables
          (sources-readable found.1.tables u run (
            turn-Cited s v body.message (accessible_collection_ids found.1.tables u) ids.request
              (thread found.0.id w) run none_yet t));
  }

  -- An answer to a chat request is of a conversation of the asker's own, and the question and the answer
  -- are kept behind its earlier messages. In a thread without citations yet, the answer came from the
  -- cache, or each of its citations copies one of the chunks in the state that the graph's turn left, of a
  -- collection that the rules of access let the asker read.
  pub chat-IsAnswer :
      (llm_available : Bool) (late : Option World) (body : ChatRequest) (ids : FreshIds) (u : User)
      (w w' : ChatState) (r : ChatTurnResponse)
      → chat s v llm_available late body ids u w ≡ (ok r, w')
      → (w.threads r.session_id).citations ≡ []
      → IsAnswer s v body ids u w w' r
  unfolding chat
  chat-IsAnswer false late body ids u w w' r h none_yet = absurd (cc (ap (λ (a : Reply). a.0) h))
  chat-IsAnswer true late body ids u w w' r h none_yet =
      which (session_for body ids u w.chats) refl h
    where
      which :
          (o : Result ChatError (ChatSession × Chats))
          → session_for body ids u w.chats ≡ o
          → ◌≡◌ {A = Reply}
              (elim o [
                | raise e ↦ (raise e, w)
                | ok found ↦ run_turn s v late body ids u found.0.id (record w { chats = found.1 })
              ])
              (ok r, w')
          → IsAnswer s v body ids u w w' r
      which (raise e) q k = absurd (cc (ap (λ (a : Reply). a.0) k))
      which (ok found) q k =
          let (run, t, e0, e1) =
            run_turn-inv late body ids u found.0.id (record w { chats = found.1 }) w' r k in
          subst (λ w'. IsAnswer s v body ids u w w' r) e1
            (subst
              (λ r.
                IsAnswer s v body ids u w
                  (answer_of ids u found.0.id run body (record w { chats = found.1 })).1 r)
              e0
              (answer_of-IsAnswer body ids u w found run
                (session_for-IsSession body ids u w.chats found q)
                (subst (λ (r : ChatTurnResponse). (w.threads r.session_id).citations ≡ []) (sym e0)
                  none_yet)
                t))
