-- ===== src/Gaps/Tally.antt =====
-- The figures of the report of app/services/knowledge_gaps.py `build_report` agree with each other.
use agentic_rag_claude_code.Prelude.{
  ℕ, suc, ◌+◌, ◌≤◌, Bool, true, false, not, ◌&&◌, ◌||◌, Option, none, some, List, [], ◌∷◌, ◌++◌,
  map, Text, text_eq, text_in, is_some, length, length-append, take, drop, elem, leb, ltb, ltb→lt,
  get_or_else, All, by_test, and_right, if◌then◌else◌, ◌≡◌, arith, refl, subst, inl, inr, ◌⊎◌, ap,
  ◌∙◌, zero,
}
use agentic_rag_claude_code.Characters.{CharTable}
use agentic_rag_claude_code.Gaps.Classify.{Kind, classify_answer, normalize_question}
use agentic_rag_claude_code.Gaps.Report.{
  MessageRow, FeedbackRow, Pair, pairs_of, downs, Group, insert_user, max_reasons, add_reasons,
  new_group, refreshed, counted, Groups, add_to, Tally, goes_first, insert_group, ranked, Item,
  item_of, KnowledgeGapReport, max_messages, add_pair, tally, build_report,
}

-- what an item says of its group
unfoldable pub IsFair : Item → Type 0
IsFair i = (1 ≤ i.count) × (i.users ≤ i.count) × (length i.feedback_reasons ≤ max_reasons)

abbrev pub counts : List Item → ℕ
counts [] = 0
counts (i ∷ is) = i.count + counts is

-- The report counts every gap question in one item, of which it shows as many as the limit allows.
pub record IsConsistent (limit : ℕ) (r : KnowledgeGapReport) : Type 0 where
  pub gaps_within : r.gap_questions ≤ r.total_questions
  pub negative_within : r.negative_feedback ≤ r.gap_questions
  pub fair : All IsFair r.items
  pub within : length r.items ≤ limit
  pub left_out : List Item
  pub all_counted : counts r.items + counts left_out ≡ r.gap_questions
  pub full : (left_out ≡ []) ⊎ (length r.items ≡ limit)

IsFairGroup : Group → Type 0
IsFairGroup g = IsFair (item_of g)

group_counts : List Group → ℕ
group_counts [] = 0
group_counts (g ∷ gs) = g.count + group_counts gs

-- a group before the pair that it counts next
IsSound : Group → Type 0
IsSound g = (length g.users ≤ g.count) × (length g.reasons ≤ max_reasons)

groups_of : Groups → List Group
groups_of = map (λ (g : Text × Group). g.1)

length-insert_user-le : (u : ℕ) (us : List ℕ) → length (insert_user u us) ≤ length us + 1
length-insert_user-le u us =
    by_test (λ (vs : List ℕ). length vs ≤ length us + 1) (elem u us) (omega arith)
      (let sum = length-append us (u ∷ []) in omega arith)

length-add_reasons-le :
    (have more : List Text)
    → length have ≤ max_reasons
    → length (add_reasons have more) ≤ max_reasons
length-add_reasons-le have [] le = le
length-add_reasons-le have (r ∷ rs) le =
    length-add_reasons-le
      (if not (text_in r have) && ltb (length have) max_reasons then have ++ r ∷ [] else have) rs
      (which (not (text_in r have) && ltb (length have) max_reasons) refl)
  where
    which :
        (b : Bool)
        → (not (text_in r have) && ltb (length have) max_reasons) ≡ b
        → length (if b then have ++ r ∷ [] else have) ≤ max_reasons
    which true e =
        let lt =
          ltb→lt (length have) max_reasons
            (and_right (not (text_in r have)) (ltb (length have) max_reasons) e) in
        let sum = length-append have (r ∷ []) in omega arith
    which false e = le

refreshed-count : (p : Pair) (g : Group) → (refreshed p g).count ≡ g.count
refreshed-count p g =
    by_test (λ (h : Group). h.count ≡ g.count) (leb g.last_asked p.asked_at) refl refl

refreshed-IsSound : (p : Pair) (g : Group) → IsSound g → IsSound (refreshed p g)
unfolding IsSound
refreshed-IsSound p g h = by_test IsSound (leb g.last_asked p.asked_at) h h

module _ (p : Pair) (kind : Option Kind) (thumbs : Option (List Text)) where
  counted-IsFair : (g : Group) → IsSound g → IsFairGroup (counted p kind thumbs g)
  unfolding IsFairGroup IsFair IsSound
  counted-IsFair g (users, reasons) = (
    omega arith,
    (let le = length-insert_user-le p.user_id g.users in omega arith),
    length-add_reasons-le g.reasons (get_or_else thumbs []) reasons,
  )

  new_group-IsSound : IsSound (new_group p)
  unfolding IsSound
  new_group-IsSound = (omega arith, omega arith)

  IsFairGroup-IsSound : (g : Group) → IsFairGroup g → IsSound g
  unfolding IsFairGroup IsFair IsSound
  IsFairGroup-IsSound g (one, users, reasons) = (users, reasons)

  add_to-IsFairGroup :
      (key : Text) (gs : Groups)
      → All IsFairGroup (groups_of gs)
      → All IsFairGroup (groups_of (add_to key p kind thumbs gs))
  unfolding add_to groups_of
  add_to-IsFairGroup key [] h = (counted-IsFair (new_group p) new_group-IsSound, tt)
  add_to-IsFairGroup key ((k, g) ∷ gs) (fair, rest) =
      by_test (λ (r : Groups). All IsFairGroup (groups_of r)) (text_eq k key)
        (counted-IsFair (refreshed p g) (refreshed-IsSound p g (IsFairGroup-IsSound g fair)), rest)
        (fair, add_to-IsFairGroup key gs rest)

  add_to-counts :
      (key : Text) (gs : Groups)
      → group_counts (groups_of (add_to key p kind thumbs gs)) ≡ group_counts (groups_of gs) + 1
  unfolding add_to groups_of group_counts
  add_to-counts key [] = refl
  add_to-counts key ((k, g) ∷ gs) =
      by_test
        (λ (r : Groups). group_counts (groups_of r) ≡ group_counts (groups_of ((k, g) ∷ gs)) + 1)
        (text_eq k key) (let same = refreshed-count p g in omega arith)
        (let rest = add_to-counts key gs in omega arith)

insert_group-counts :
    (g : Group) (gs : List Group) → group_counts (insert_group g gs) ≡ g.count + group_counts gs
unfolding group_counts
insert_group-counts g [] = refl
insert_group-counts g (h ∷ hs) =
    by_test (λ (r : List Group). group_counts r ≡ g.count + group_counts (h ∷ hs)) (goes_first g h)
      refl (let rest = insert_group-counts g hs in omega arith)

insert_group-IsFairGroup :
    (g : Group) (gs : List Group)
    → IsFairGroup g
    → All IsFairGroup gs
    → All IsFairGroup (insert_group g gs)
insert_group-IsFairGroup g [] fair all = (fair, tt)
insert_group-IsFairGroup g (h ∷ hs) fair all =
    by_test (All IsFairGroup) (goes_first g h) (fair, all)
      (all.0, insert_group-IsFairGroup g hs fair all.1)

ranked-counts : (gs : List Group) → group_counts (ranked gs) ≡ group_counts gs
unfolding ranked group_counts
ranked-counts [] = refl
ranked-counts (g ∷ gs) =
    let inner = ranked-counts gs in let outer = insert_group-counts g (ranked gs) in omega arith

ranked-IsFairGroup : (gs : List Group) → All IsFairGroup gs → All IsFairGroup (ranked gs)
unfolding ranked
ranked-IsFairGroup [] all = tt
ranked-IsFairGroup (g ∷ gs) (fair, rest) =
    insert_group-IsFairGroup g (ranked gs) fair (ranked-IsFairGroup gs rest)

shown-IsFair : (n : ℕ) (gs : List Group) → All IsFairGroup gs → All IsFair (map item_of (take n gs))
unfolding IsFairGroup
shown-IsFair zero gs all = tt
shown-IsFair (suc n) [] all = tt
shown-IsFair (suc n) (g ∷ gs) (fair, rest) = (fair, shown-IsFair n gs rest)

shown-within : (n : ℕ) (gs : List Group) → length (map item_of (take n gs)) ≤ n
shown-within zero gs = omega arith
shown-within (suc n) [] = omega arith
shown-within (suc n) (g ∷ gs) = let rest = shown-within n gs in omega arith

shown-counts :
    (n : ℕ) (gs : List Group)
    → counts (map item_of (take n gs)) + counts (map item_of (drop n gs)) ≡ group_counts gs
unfolding group_counts
shown-counts zero [] = refl
shown-counts zero (g ∷ gs) = let rest = shown-counts 0 gs in omega arith
shown-counts (suc n) [] = refl
shown-counts (suc n) (g ∷ gs) = let rest = shown-counts n gs in omega arith

shown-full :
    (n : ℕ) (gs : List Group)
    → (map item_of (drop n gs) ≡ []) ⊎ (length (map item_of (take n gs)) ≡ n)
shown-full zero gs = inr refl
shown-full (suc n) [] = inl refl
shown-full (suc n) (g ∷ gs) = elim (shown-full n gs) [
  | inl none_left ↦ inl none_left
  | inr all ↦ inr (ap suc all)
]

-- the figures after some of the pairs
record IsTallied (seen : ℕ) (t : Tally) : Type 0 where
  gaps_within : t.gap_questions ≤ seen
  negative_within : t.negative ≤ t.gap_questions
  fair : All IsFairGroup (groups_of t.groups)
  counted_all : group_counts (groups_of t.groups) ≡ t.gap_questions

module _ (table : CharTable) (lower : Text → Text) (feedback : List FeedbackRow) where
  add_pair-IsTallied :
      (seen : ℕ) (t : Tally) (p : Pair)
      → IsTallied seen t
      → IsTallied (seen + 1) (add_pair table lower feedback t p)
  unfolding add_pair
  add_pair-IsTallied seen t p h =
      which (classify_answer table lower (some p.answer)) (downs table feedback p.answer_id)
    where
      key : Text
      key = normalize_question table lower p.question

      added :
          (kind : Option Kind) (thumbs : Option (List Text)) (negative : ℕ)
          → negative ≤ t.gap_questions + 1
          → IsTallied (seen + 1) (record {
            groups = add_to key p kind thumbs t.groups;
            gap_questions = t.gap_questions + 1;
            negative = negative;
          })
      added kind thumbs negative le = record {
        gaps_within = (let before = h.gaps_within in omega arith);
        negative_within = le;
        fair = add_to-IsFairGroup p kind thumbs key t.groups h.fair;
        counted_all = add_to-counts p kind thumbs key t.groups ∙ ap (λ m. m + 1) h.counted_all;
      }

      which :
          (kind : Option Kind) (thumbs : Option (List Text))
          → IsTallied (seen + 1) (
              if is_some kind || is_some thumbs
              then record {
                groups = add_to key p kind thumbs t.groups;
                gap_questions = t.gap_questions + 1;
                negative = if is_some thumbs then t.negative + 1 else t.negative;
              }
              else record t { negative = if is_some thumbs then t.negative + 1 else t.negative })
      which none none = record {
        gaps_within = (let before = h.gaps_within in omega arith);
        negative_within = h.negative_within;
        fair = h.fair;
        counted_all = h.counted_all;
      }
      which none (some reasons) =
          added none (some reasons) (t.negative + 1) (let le = h.negative_within in omega arith)
      which (some kind) none =
          added (some kind) none t.negative (let le = h.negative_within in omega arith)
      which (some kind) (some reasons) =
          added (some kind) (some reasons) (t.negative + 1)
            (let le = h.negative_within in omega arith)

  tally-IsTallied :
      (seen : ℕ) (t : Tally) (ps : List Pair)
      → IsTallied seen t
      → IsTallied (seen + length ps) (tally table lower feedback t ps)
  unfolding tally
  tally-IsTallied seen t [] h =
      subst (λ (n : ℕ). IsTallied n (tally table lower feedback t [])) (omega arith) h
  tally-IsTallied seen t (p ∷ ps) h =
      subst
        (λ (n : ℕ). IsTallied n (tally table lower feedback (add_pair table lower feedback t p) ps))
        (omega arith)
        (tally-IsTallied (seen + 1) (add_pair table lower feedback t p) ps
          (add_pair-IsTallied seen t p h))

  nothing-IsTallied :
      (ps : List Pair)
      → IsTallied
          (length ps)
          (tally table lower feedback (record { groups = []; gap_questions = 0; negative = 0 }) ps)
  unfolding groups_of group_counts
  nothing-IsTallied ps =
      let nothing : Tally = record { groups = []; gap_questions = 0; negative = 0 } in
      subst (λ (n : ℕ). IsTallied n (tally table lower feedback nothing ps)) (omega arith)
        (tally-IsTallied 0 nothing ps (record {
          gaps_within = omega arith;
          negative_within = omega arith;
          fair = tt;
          counted_all = refl;
        }))

  -- In the report on unanswered questions, the gap questions are at most the answered questions, and the
  -- answers with negative feedback at most the gap questions. Every gap question is counted in one item
  -- that is shown or left out; at most `limit` items are shown, and none is left out below that. An item
  -- counts a question at least, no more users than questions, and at most five reasons.
  pub build_report-IsConsistent :
      (limit : ℕ) (rows : List MessageRow)
      → IsConsistent limit (build_report table lower feedback limit rows)
  unfolding build_report groups_of
  build_report-IsConsistent limit rows =
      let pairs = pairs_of (λ i. none) (take max_messages rows) in
      let t =
        tally table lower feedback (record { groups = []; gap_questions = 0; negative = 0 })
          pairs in
      let h = nothing-IsTallied pairs in
      let gs = ranked (groups_of t.groups) in
      record {
        gaps_within = h.gaps_within;
        negative_within = h.negative_within;
        fair = shown-IsFair limit gs (ranked-IsFairGroup (groups_of t.groups) h.fair);
        within = shown-within limit gs;
        left_out = map item_of (drop limit gs);
        all_counted = shown-counts limit gs ∙ ranked-counts (groups_of t.groups) ∙ h.counted_all;
        full = shown-full limit gs;
      }
