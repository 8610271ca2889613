-- ===== src/Chat/Histories.antt =====
-- What a reopened conversation of app/api/chat.py shows of its citations.
use agentic_rag_claude_code.Prelude.{
  ℕ, ◌≡◌, refl, sym, ap, subst, ◌∙◌, inl, inr, Bool, true, false, ◌&&◌, and_right, Option, none,
  some, List, [], ◌∷◌, map, elem, elem→In, In→elem, In, In-append_left, In-append_right, is_empty,
  filter_by, filter_by-none, In-filter_by_sound, In-filter_by_complete, In-map_sound,
  In-map_complete, All2, All2-map, ==_iff, if◌then◌else◌, ok, ok-injective, bind-inv, or_raise-inv,
  require-inv, and_false, and_intro,
}
use agentic_rag_claude_code.Access.Rbac.{User, Document, accessible_collection_ids}
use agentic_rag_claude_code.Access.Readable.{Readable, accessible_collection_ids_iff}
use agentic_rag_claude_code.Citations.{Citation, get_marker}
use agentic_rag_claude_code.Chat.Rows.{
  ChatSession, ChatMessage, Chats, ShownCitation, whole, revoked, ChatMessageOut, ChatSessionDetail,
}
use agentic_rag_claude_code.Chat.Conversations.{
  find_session, owned_session, messages_of, cited_in, cited, readable_document_ids, shown,
  visible_citations, rating_of, message_out, get_session,
}

-- A document of this id exists in a collection that the user may read now.
abbrev pub MayRead : Chats → User → ℕ → Type 0
MayRead w u i = (d : Document) × In d w.documents × (d.id ≡ i) × Readable w.tables u d.collection_id

-- A citation is shown whole exactly where its document is readable now, else by its marker.
abbrev pub IsShown : Chats → User → Citation → ShownCitation → Type 0
IsShown w u c (whole d) = (d ≡ c) × MayRead w u c.document_id
IsShown w u c (revoked n) = (n ≡ get_marker c) × ¬ MayRead w u c.document_id

abbrev pub AreShown : Chats → User → Option (List Citation) → Option (List ShownCitation) → Type 0
AreShown w u none none = Unit
AreShown w u none (some xs) = ⊥
AreShown w u (some cs) none = ⊥
AreShown w u (some cs) (some xs) = All2 (IsShown w u) cs xs

pub record IsMessageOf (w : Chats) (u : User) (m : ChatMessage) (out : ChatMessageOut)
    : Type 0 where
  pub same_id : out.id ≡ m.id
  pub same_role : out.role ≡ m.role
  pub same_content : out.content ≡ m.content
  pub own_rating : out.feedback ≡ rating_of m.id u w.feedback
  pub citations_shown : AreShown w u m.citations out.citations

-- The reply to a request for a conversation.
pub record IsHistory (i : ℕ) (u : User) (w : Chats) (detail : ChatSessionDetail) : Type 0 where
  pub session : ChatSession
  pub found : find_session i w.sessions ≡ some session
  pub owned : session.user_id ≡ u.id
  pub messages_shown : All2 (IsMessageOf w u) (messages_of session.id w.messages) detail.messages

In-cited :
    (m : ChatMessage) (cs : List Citation) (c : Citation) (ms : List ChatMessage)
    → In m ms
    → m.citations ≡ some cs
    → In c cs
    → In c.document_id (cited ms)
In-cited m cs c [] l e k = elim l [ ]
In-cited m cs c (n ∷ ms) (inl p) e k =
    In-append_left c.document_id (cited_in n.citations) (cited ms) (
      subst (λ o. In c.document_id (cited_in o)) (sym e ∙ ap (λ (m : ChatMessage). m.citations) p)
        (In-map_complete (λ (c : Citation). c.document_id) c cs k))
In-cited m cs c (n ∷ ms) (inr l) e k =
    In-append_right c.document_id (cited_in n.citations) (cited ms) (In-cited m cs c ms l e k)

module _ (w : Chats) (u : User) (ms : List ChatMessage) where
  abbrev is_readable : List ℕ → List ℕ → Document → Bool
  is_readable cs allowed d = elem d.id cs && elem d.collection_id allowed

  abbrev rows : List ℕ → List ℕ → List ℕ
  rows cs allowed = map (λ (d : Document). d.id) (filter_by (is_readable cs allowed) w.documents)

  readable-rows :
      readable_document_ids u ms w ≡ rows (cited ms) (accessible_collection_ids w.tables u)
  unfolding readable_document_ids
  readable-rows = pick (cited ms) (accessible_collection_ids w.tables u)
    where
      pick :
          (cs allowed : List ℕ)
          → (if is_empty cs then [] else if is_empty allowed then [] else rows cs allowed)
            ≡ rows cs allowed
      pick [] allowed = sym (
          ap (λ l. map (λ (d : Document). d.id) l)
            (filter_by-none (is_readable [] allowed) w.documents (λ d. refl)))
      pick (c ∷ cs) [] = sym (
          ap (λ l. map (λ (d : Document). d.id) l)
            (filter_by-none (is_readable (c ∷ cs) []) w.documents
              (λ d. and_false (elem d.id (c ∷ cs)))))
      pick (c ∷ cs) (a ∷ allowed) = refl

  readable_sound : (i : ℕ) → In i (readable_document_ids u ms w) → MayRead w u i
  readable_sound i m =
      let (d, n, e) = In-map_sound (λ (d : Document). d.id) i kept (subst (In i) readable-rows m) in
      let (l, t) = In-filter_by_sound p d w.documents n in
      (
        d,
        l,
        e,
        (accessible_collection_ids_iff w.tables u d.collection_id).0 (
            elem→In d.collection_id allowed
              (and_right (elem d.id (cited ms)) (elem d.collection_id allowed) t)),
      )
    where
      allowed : List ℕ
      allowed = accessible_collection_ids w.tables u

      p : Document → Bool
      p = is_readable (cited ms) allowed

      kept : List Document
      kept = filter_by p w.documents

  readable_complete :
      (i : ℕ) → In i (cited ms) → MayRead w u i → In i (readable_document_ids u ms w)
  readable_complete i c (d, l, e, r) =
      subst (λ j. In j (readable_document_ids u ms w)) e
        (subst (In d.id) (sym readable-rows) (
          In-map_complete (λ (d : Document). d.id) d
            (filter_by (is_readable (cited ms) allowed) w.documents)
            (In-filter_by_complete (is_readable (cited ms) allowed) d w.documents l (
              and_intro (elem d.id (cited ms)) (elem d.collection_id allowed)
                (In→elem d.id (cited ms) (subst (λ j. In j (cited ms)) (sym e) c))
                (In→elem d.collection_id allowed
                  ((accessible_collection_ids_iff w.tables u d.collection_id).1 r))))))
    where
      allowed : List ℕ
      allowed = accessible_collection_ids w.tables u

  shown-IsShown :
      (c : Citation)
      → In c.document_id (cited ms)
      → IsShown w u c (shown (readable_document_ids u ms w) c)
  shown-IsShown c m = which (elem c.document_id readable) refl
    where
      readable : List ℕ
      readable = readable_document_ids u ms w

      which :
          (b : Bool)
          → elem c.document_id readable ≡ b
          → IsShown w u c (if b then whole c else revoked (get_marker c))
      which true e = (refl, readable_sound c.document_id (elem→In c.document_id readable e))
      which false e = (
        refl,
        λ r. absurd (cc (e, In→elem c.document_id readable (readable_complete c.document_id m r))),
      )

  visible-AreShown :
      (m : ChatMessage) (o : Option (List Citation))
      → In m ms
      → m.citations ≡ o
      → AreShown w u o (visible_citations o (readable_document_ids u ms w))
  visible-AreShown m none l e = tt
  visible-AreShown m (some cs) l e =
      All2-map (IsShown w u) (shown (readable_document_ids u ms w)) cs
        (λ c k. shown-IsShown c (In-cited m cs c ms l e k))

  message_out-IsMessageOf :
      (m : ChatMessage)
      → In m ms
      → IsMessageOf w u m (message_out u w.feedback (readable_document_ids u ms w) m)
  message_out-IsMessageOf m l = record {
    same_id = refl;
    same_role = refl;
    same_content = refl;
    own_rating = refl;
    citations_shown = visible-AreShown m m.citations l refl;
  }

pub owned_session-inv :
    (i : ℕ) (u : User) (w : Chats) (session : ChatSession)
    → owned_session i u w ≡ ok session
    → (find_session i w.sessions ≡ some session) × (session.user_id ≡ u.id)
unfolding owned_session
owned_session-inv i u w session h =
    let (s, h1, k1) = or_raise-inv _ _ _ h in
    let (h2, k2) = require-inv _ _ _ k1 in
    let e = ok-injective k2 in
    (
      h1 ∙ ap (λ s. some s) e,
      ap (λ (s : ChatSession). s.user_id) (sym e) ∙ (==_iff s.user_id u.id).0 h2,
    )

-- A conversation that is reopened is the user's own; it shows each of its messages in order with the
-- user's own rating. A citation is shown whole exactly where a document of its id is in a collection
-- that the rules of access let the user read now, whatever was readable when the answer was given, and
-- else by its marker alone; a grant on the document itself does not count.
pub get_session-IsHistory :
    (i : ℕ) (u : User) (w : Chats) (detail : ChatSessionDetail)
    → get_session i u w ≡ ok detail
    → IsHistory i u w detail
unfolding get_session
get_session-IsHistory i u w detail h =
    let (session, h1, k1) = bind-inv _ _ h in
    let (found, owned) = owned_session-inv i u w session h1 in
    let ms = messages_of session.id w.messages in
    record {
      session = session;
      found = found;
      owned = owned;
      messages_shown =
          subst (λ (d : ChatSessionDetail). All2 (IsMessageOf w u) ms d.messages) (ok-injective k1)
            (All2-map (IsMessageOf w u) (message_out u w.feedback (readable_document_ids u ms w)) ms
              (message_out-IsMessageOf w u ms));
    }
