-- ===== src/Chat/Kept.antt =====
-- What the operations on one conversation of app/api/chat.py leave of another.
use agentic_rag_claude_code.Prelude.{
  ℕ, ◌≡◌, ◌≢◌, refl, sym, ap, ◌∙◌, Bool, true, false, not, Option, none, some, some-injective, List,
  [], ◌∷◌, ◌++◌, Text, find_if-filter_by, filter_by-filter_by, filter_by-append, ◌==◌, ==_iff,
  arith, if◌then◌else◌, Result, ok, raise, ok-injective, or_raise-inv, require-inv, ◌>>=◌,
}
use mathlib.Core.List.{append-nil}
use agentic_rag_claude_code.Access.Rbac.{User}
use agentic_rag_claude_code.Chat.Rows.{
  ChatSession, ChatMessage, Rating, Chats, ChatError, ChatTurnResponse,
}
use agentic_rag_claude_code.Chat.Conversations.{
  find_session, owned_session, create_session, messages_of, drop_session, delete_session,
  message_feedback,
}
use agentic_rag_claude_code.Chat.Histories.{owned_session-inv}
use agentic_rag_claude_code.Chat.Turns.{ChatState}

-- The conversation i of user u stands as it did, with the same messages.
abbrev pub IsKept : ℕ → User → Chats → Chats → Type 0
IsKept i u w v =
    (x : ChatSession)
    → find_session i w.sessions ≡ some x
    → x.user_id ≡ u.id
    → (find_session i v.sessions ≡ some x) × (messages_of i v.messages ≡ messages_of i w.messages)

abbrev pub IsKeptRow : ℕ → ChatSession → Chats → Chats → Type 0
IsKeptRow i x w v =
    (find_session i v.sessions ≡ some x) × (messages_of i v.messages ≡ messages_of i w.messages)

abbrev pub chats_after : Result ChatError ChatTurnResponse × ChatState → Chats
chats_after r = r.1.chats

-- Two rows found in one table are apart if their users are.
pub find_session-apart :
    (i j : ℕ) (u o : User) (l : List ChatSession) (x y : ChatSession)
    → o.id ≢ u.id
    → find_session i l ≡ some x
    → x.user_id ≡ u.id
    → find_session j l ≡ some y
    → y.user_id ≡ o.id
    → i ≢ j
find_session-apart i j u o l x y n fx ux fy uy e = n (
    sym uy
    ∙ ap (λ (s : ChatSession). s.user_id)
        (some-injective y x (sym fy ∙ ap (λ k. find_session k l) (sym e) ∙ fx))
    ∙ ux)

find_session-cons :
    (i : ℕ) (new : ChatSession) (l : List ChatSession) (x : ChatSession)
    → find_session new.id l ≡ none
    → find_session i l ≡ some x
    → find_session i (new ∷ l) ≡ some x
find_session-cons i new l x fresh f = which (new.id == i) refl
  where
    which : (b : Bool) → (new.id == i) ≡ b → (if b then some new else find_session i l) ≡ some x
    which true e = absurd (cc (fresh, f, ap (λ k. find_session k l) ((==_iff new.id i).0 e)))
    which false e = f

pub create_session-IsKept :
    (i id : ℕ) (title : Option Text) (u o : User) (w : Chats)
    → find_session id w.sessions ≡ none
    → IsKept i u w (create_session id title o w).1
unfolding create_session
create_session-IsKept i id title u o w fresh x f e =
    (find_session-cons i (create_session id title o w).0 w.sessions x fresh f, refl)

drop_session-IsKept : (i j : ℕ) (u o : User) (w : Chats) → i ≢ j → IsKept i u w (drop_session j o w)
drop_session-IsKept i j u o w n x f e = (
  find_if-filter_by (λ (s : ChatSession). s.id == i) (λ (s : ChatSession). not (s.id == j))
        w.sessions (λ s h. other s.id h)
      ∙ f,
  filter_by-filter_by (λ (m : ChatMessage). m.session_id == i)
      (λ (m : ChatMessage). not (m.session_id == j)) w.messages (λ m h. other m.session_id h),
)
  where
    other : (k : ℕ) → (k == i) ≡ true → not (k == j) ≡ true
    other k h = ground (arith, ==_iff k i, ==_iff k j)

module _ {A : Type 0} where
  abbrev pub ok_or_same : A → Result ChatError A → A
  ok_or_same w (ok v) = v
  ok_or_same w (raise e) = w

pub delete_session-IsKept :
    (i j : ℕ) (u o : User) (w : Chats)
    → o.id ≢ u.id
    → IsKept i u w (ok_or_same w (delete_session j o w))
unfolding delete_session ◌>>=◌
delete_session-IsKept i j u o w n x f e = which (owned_session j o w) refl
  where
    which :
        (r : Result ChatError ChatSession)
        → owned_session j o w ≡ r
        → let v = ok_or_same w (r >>= λ session. ok (drop_session j o w)) in
          (find_session i v.sessions ≡ some x)
          × (messages_of i v.messages ≡ messages_of i w.messages)
    which (raise err) q = (f, refl)
    which (ok y) q =
        let (fy, oy) = owned_session-inv j o w y q in
        drop_session-IsKept i j u o w (find_session-apart i j u o w.sessions x y n f e fy oy) x f e

pub message_feedback-IsKept :
    (i k : ℕ) (rating : Rating) (reason : Option Text) (u o : User) (w : Chats)
    → IsKept i u w (ok_or_same w (message_feedback k rating reason o w))
unfolding message_feedback
message_feedback-IsKept i k rating reason u o w x f e =
    which (message_feedback k rating reason o w) refl
  where
    which :
        (r : Result ChatError Chats)
        → message_feedback k rating reason o w ≡ r
        → (find_session i (ok_or_same w r).sessions ≡ some x)
          × (messages_of i (ok_or_same w r).messages ≡ messages_of i w.messages)
    which (raise err) q = (f, refl)
    which (ok v) q =
        let (m, h1, k1) = or_raise-inv _ _ _ q in
        let (y, h2, k2) = or_raise-inv _ _ _ k1 in
        let (h3, k3) = require-inv _ _ _ k2 in
        let (h4, k4) = require-inv _ _ _ k3 in
        let same = ok-injective k4 in
        (
          ap (λ (v : Chats). find_session i v.sessions) (sym same) ∙ f,
          ap (λ (v : Chats). messages_of i v.messages) (sym same),
        )

pub messages_of-append :
    (i : ℕ) (ms : List ChatMessage) (m : ChatMessage)
    → m.session_id ≢ i
    → messages_of i (ms ++ m ∷ []) ≡ messages_of i ms
messages_of-append i ms m n =
    filter_by-append (λ (m : ChatMessage). m.session_id == i) ms (m ∷ [])
    ∙ ap (λ b. messages_of i ms ++ (if b then m ∷ [] else [])) (other m.session_id n)
    ∙ append-nil (messages_of i ms)
  where
    other : (k : ℕ) → k ≢ i → (k == i) ≡ false
    other k n = ground (arith, ==_iff k i)
