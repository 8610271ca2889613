-- ===== src/Gaps/Report.antt =====
-- `build_report` of app/services/knowledge_gaps.py over the rows of its two queries. The rows come in the
-- order of the query. The share gap_rate, which is the quotient of two fields, is left out, as is the
-- window of days, which the query applies.
use agentic_rag_claude_code.Prelude.{
  ℕ, ◌+◌, Bool, true, false, not, ◌&&◌, ◌||◌, Option, none, some, List, [], ◌∷◌, ◌++◌, map, Text,
  text_eq, is_empty, text_in, is_some, length, take, elem, leb, ltb, get_or_else, filter_by, ◌==◌,
  if◌then◌else◌,
}
use agentic_rag_claude_code.Characters.{CharTable, strip}
use agentic_rag_claude_code.Chat.Rows.{MessageRole, user, assistant, system, Rating, up, down}
use agentic_rag_claude_code.Gaps.Classify.{
  Kind, no_evidence, declined, negative_feedback, classify_answer, normalize_question,
}

pub record MessageRow : Type 0 where
  pub id : ℕ
  pub session_id : ℕ
  pub role : MessageRole
  pub content : Text
  pub created_at : ℕ
  pub user_id : ℕ

pub record FeedbackRow : Type 0 where
  pub message_id : ℕ
  pub rating : Rating
  pub reason : Option Text

pub record Pair : Type 0 where
  pub question : Text
  pub answer_id : ℕ
  pub answer : Text
  pub asked_at : ℕ
  pub user_id : ℕ

abbrev pub with_question : ℕ → Option Text → (ℕ → Option Text) → ℕ → Option Text
with_question i q last j = if j == i then q else last j

abbrev pub pair_of : MessageRow → Option Text → List Pair
pair_of r none = []
pair_of r (some q) =
    record {
      question = q;
      answer_id = r.id;
      answer = r.content;
      asked_at = r.created_at;
      user_id = r.user_id;
    }
    ∷ []

-- each answer with the question right before it; `last` is last_question
unfoldable pub pairs_of : (ℕ → Option Text) → List MessageRow → List Pair
pairs_of last [] = []
pairs_of last (r ∷ rs) = elim r.role [
  | user ↦ pairs_of (with_question r.session_id (some r.content) last) rs
  | assistant ↦ pair_of r (last r.session_id) ++ pairs_of (with_question r.session_id none last) rs
  | system ↦ pairs_of last rs
]

abbrev pub is_down : ℕ → FeedbackRow → Bool
is_down i f = f.message_id == i && (elim f.rating [ up ↦ false | down ↦ true ])

abbrev pub reasons_of : CharTable → List FeedbackRow → List Text
reasons_of t [] = []
reasons_of t (f ∷ fs) =
    let rest = reasons_of t fs in
    let reason = strip t (get_or_else f.reason []) in
    if is_empty reason then rest else reason ∷ rest

-- downs.get(answer_id)
abbrev pub downs : CharTable → List FeedbackRow → ℕ → Option (List Text)
downs t feedback i =
    let rows = filter_by (is_down i) feedback in
    if is_empty rows then none else some (reasons_of t rows)

-- _Group, with the kinds as three tests
pub record Group : Type 0 where
  pub question : Text
  pub last_asked : ℕ
  pub sample_answer : Text
  pub count : ℕ
  pub users : List ℕ
  pub has_no_evidence : Bool
  pub has_declined : Bool
  pub has_negative : Bool
  pub reasons : List Text

abbrev pub insert_user : ℕ → List ℕ → List ℕ
insert_user u us = if elem u us then us else us ++ u ∷ []

-- _MAX_REASONS
abbrev pub max_reasons : ℕ
max_reasons = 5

abbrev pub add_reasons : List Text → List Text → List Text
add_reasons reasons [] = reasons
add_reasons reasons (r ∷ rs) =
    add_reasons
      (if not (text_in r reasons) && ltb (length reasons) max_reasons
        then reasons ++ r ∷ []
        else reasons)
      rs

abbrev pub new_group : Pair → Group
new_group p = record {
  question = p.question;
  last_asked = p.asked_at;
  sample_answer = p.answer;
  count = 0;
  users = [];
  has_no_evidence = false;
  has_declined = false;
  has_negative = false;
  reasons = [];
}

-- the latest phrasing and answer
abbrev pub refreshed : Pair → Group → Group
refreshed p g =
    if leb g.last_asked p.asked_at
    then record g { question = p.question; last_asked = p.asked_at; sample_answer = p.answer }
    else g

abbrev pub is_kind_no_evidence : Option Kind → Bool
is_kind_no_evidence none = false
is_kind_no_evidence (some no_evidence) = true
is_kind_no_evidence (some declined) = false
is_kind_no_evidence (some negative_feedback) = false

abbrev pub is_kind_declined : Option Kind → Bool
is_kind_declined none = false
is_kind_declined (some no_evidence) = false
is_kind_declined (some declined) = true
is_kind_declined (some negative_feedback) = false

abbrev pub counted : Pair → Option Kind → Option (List Text) → Group → Group
counted p kind thumbs g = record g {
  count = g.count + 1;
  users = insert_user p.user_id g.users;
  has_no_evidence = g.has_no_evidence || is_kind_no_evidence kind;
  has_declined = g.has_declined || is_kind_declined kind;
  has_negative = g.has_negative || is_some thumbs;
  reasons = add_reasons g.reasons (get_or_else thumbs []);
}

abbrev pub Groups : Type 0
Groups = List (Text × Group)

-- The group of the key is refreshed and counts the pair; a new one is made behind the others.
unfoldable pub add_to : Text → Pair → Option Kind → Option (List Text) → Groups → Groups
add_to key p kind thumbs [] = (key, counted p kind thumbs (new_group p)) ∷ []
add_to key p kind thumbs ((k, g) ∷ gs) =
    let rest = add_to key p kind thumbs gs in
    if text_eq k key then (k, counted p kind thumbs (refreshed p g)) ∷ gs else (k, g) ∷ rest

pub record Tally : Type 0 where
  pub groups : Groups
  pub gap_questions : ℕ
  pub negative : ℕ

-- (-count, -last_asked), stable
abbrev pub goes_first : Group → Group → Bool
goes_first a b = ltb b.count a.count || (a.count == b.count && leb b.last_asked a.last_asked)

abbrev pub insert_group : Group → List Group → List Group
insert_group g [] = g ∷ []
insert_group g (h ∷ hs) =
    let rest = insert_group g hs in if goes_first g h then g ∷ h ∷ hs else h ∷ rest

unfoldable pub ranked : List Group → List Group
ranked [] = []
ranked (g ∷ gs) = insert_group g (ranked gs)

abbrev pub kinds_of : Group → List Kind
kinds_of g =
    (if g.has_no_evidence then no_evidence ∷ [] else [])
    ++ (if g.has_declined then declined ∷ [] else [])
    ++ (if g.has_negative then negative_feedback ∷ [] else [])

pub record Item : Type 0 where
  pub question : Text
  pub count : ℕ
  pub users : ℕ
  pub last_asked : ℕ
  pub kinds : List Kind
  pub sample_answer : Text
  pub feedback_reasons : List Text

-- _SAMPLE_CHARS
abbrev pub sample_chars : ℕ
sample_chars = 400

abbrev pub item_of : Group → Item
item_of g = record {
  question = g.question;
  count = g.count;
  users = length g.users;
  last_asked = g.last_asked;
  kinds = kinds_of g;
  sample_answer = take sample_chars g.sample_answer;
  feedback_reasons = g.reasons;
}

pub record KnowledgeGapReport : Type 0 where
  pub total_questions : ℕ
  pub gap_questions : ℕ
  pub negative_feedback : ℕ
  pub items : List Item

-- _MAX_MESSAGES
abbrev pub max_messages : ℕ
max_messages = 20000

module _ (table : CharTable) (lower : Text → Text) (feedback : List FeedbackRow) where
  -- one round of the loop over the pairs
  unfoldable pub add_pair : Tally → Pair → Tally
  unfolding classify_answer normalize_question add_to
  add_pair t p =
      let kind = classify_answer table lower (some p.answer) in
      let thumbs = downs table feedback p.answer_id in
      let negative = if is_some thumbs then t.negative + 1 else t.negative in
      if is_some kind || is_some thumbs
      then record {
        groups = add_to (normalize_question table lower p.question) p kind thumbs t.groups;
        gap_questions = t.gap_questions + 1;
        negative = negative;
      }
      else record t { negative = negative }

  unfoldable pub tally : Tally → List Pair → Tally
  unfolding add_pair
  tally t [] = t
  tally t (p ∷ ps) = tally (add_pair t p) ps

  unfoldable pub build_report : ℕ → List MessageRow → KnowledgeGapReport
  unfolding pairs_of tally ranked
  build_report limit rows =
      let pairs = pairs_of (λ i. none) (take max_messages rows) in
      let t = tally (record { groups = []; gap_questions = 0; negative = 0 }) pairs in
      record {
        total_questions = length pairs;
        gap_questions = t.gap_questions;
        negative_feedback = t.negative;
        items = map item_of (take limit (ranked (map (λ (g : Text × Group). g.1) t.groups)));
      }
