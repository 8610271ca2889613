-- ===== src/Tests/Cache.antt =====
-- A vector database and tag sets that do what is documented, the cache at them, and the examples of
-- its theorems.
use agentic_rag_claude_code.Prelude.{
  ℕ, ◌+◌, ◌≡◌, ◌≢◌, refl, sym, ap, ◌∙◌, ◌⊎◌, inl, inr, Bool, true, false, Option, none, some, List,
  [], ◌∷◌, codes, In, elem, ◌==◌, ==_iff, if◌then◌else◌,
}
use agentic_rag_claude_code.Characters.{ascii, strip}
use agentic_rag_claude_code.Settings.{defaults}
use agentic_rag_claude_code.Cache.Stores.{Entry, newer, Points, Tag, Tags}
use agentic_rag_claude_code.Cache.Semantic.{CacheHit, Stores, lookup, store, invalidate_document}
use agentic_rag_claude_code.Cache.Hits.{IsServable, lookup-IsServable}
use agentic_rag_claude_code.Cache.History.{Tag-cases, start, stored}
use agentic_rag_claude_code.Cache.Unseen.{invalidated_unseen}

abbrev Vectors : Type 0
Vectors = List ℕ × (ℕ → Option Entry)

abbrev keep : ℕ → ℕ → Option Entry → List (ℕ × Entry) → List (ℕ × Entry)
keep hash i none rest = rest
keep hash i (some e) rest = if e.scope_hash == hash then (i, e) ∷ rest else rest

abbrev select : ℕ → List ℕ → (ℕ → Option Entry) → List (ℕ × Entry)
select hash [] f = []
select hash (i ∷ is) f = keep hash i (f i) (select hash is f)

Kept : ℕ → (ℕ → Option Entry) → ℕ → Entry → Type 0
Kept hash f i e = (f i ≡ some e) × (e.scope_hash ≡ hash)

keep_sound :
    (hash j : ℕ) (f : ℕ → Option Entry) (o : Option Entry) (rest : List (ℕ × Entry)) (i : ℕ)
    (e : Entry)
    → f j ≡ o
    → (In (i, e) rest → Kept hash f i e)
    → In (i, e) (keep hash j o rest)
    → Kept hash f i e
unfolding Kept
keep_sound hash j f none rest i e h ih m = ih m
keep_sound hash j f (some d) rest i e h ih m = test (d.scope_hash == hash) refl m
  where
    test :
        (b : Bool)
        → (d.scope_hash == hash) ≡ b
        → In (i, e) (if b then (j, d) ∷ rest else rest)
        → Kept hash f i e
    test true q (inl p) = (
      ap (λ (x : ℕ × Entry). f x.0) p ∙ h ∙ sym (ap (λ (x : ℕ × Entry). some x.1) p),
      ap (λ (x : ℕ × Entry). x.1.scope_hash) p ∙ (==_iff d.scope_hash hash).0 q,
    )
    test true q (inr m) = ih m
    test false q m = ih m

select_sound :
    (hash : ℕ) (is : List ℕ) (f : ℕ → Option Entry) (i : ℕ) (e : Entry)
    → In (i, e) (select hash is f)
    → Kept hash f i e
select_sound hash [] f i e m = elim m [ ]
select_sound hash (j ∷ is) f i e m =
    keep_sound hash j f (f j) (select hash is f) i e refl (select_sound hash is f i e) m

pub entry-select :
    (hash : ℕ) (is : List ℕ) (f : ℕ → Option Entry) (i : ℕ) (e : Entry)
    → In (i, e) (select hash is f)
    → f i ≡ some e
unfolding Kept
entry-select hash is f i e m = (select_sound hash is f i e m).0

pub hash-select :
    (hash : ℕ) (is : List ℕ) (f : ℕ → Option Entry) (i : ℕ) (e : Entry)
    → In (i, e) (select hash is f)
    → e.scope_hash ≡ hash
unfolding Kept
hash-select hash is f i e m = (select_sound hash is f i e m).1

abbrev pub vectors : Points
vectors = record {
  Store = Vectors;
  entry = λ s i. s.1 i;
  collection_exists = λ s. true;
  ensure_collection = λ s. s;
  query_points = λ hash query s. select hash s.0 s.1;
  upsert = λ i query e s. (i ∷ s.0, λ j. if j == i then some e else s.1 j);
  delete = λ ids s. (s.0, λ i. if elem i ids then none else s.1 i);
  count_older = λ cutoff s. 0;
  delete_older = λ cutoff s. (s.0, λ i. newer cutoff (s.1 i));
  entry-query_points = λ hash query s i e m. entry-select hash s.0 s.1 i e m;
  hash-query_points = λ hash query s i e m. hash-select hash s.0 s.1 i e m;
  entry-ensure = λ s i. refl;
  entry-upsert = λ i j query e s. refl;
  entry-delete = λ ids s i. refl;
  entry-delete_older = λ cutoff s i. refl;
}

abbrev pick : {t u : Tag} → (t ≡ u) ⊎ (t ≢ u) → List ℕ → List ℕ → List ℕ
pick (inl e) xs ys = xs
pick (inr d) xs ys = ys

pub pick_keeps :
    {t u : Tag} (c : (t ≡ u) ⊎ (t ≢ u)) (i j : ℕ) (xs : List ℕ)
    → In j xs
    → In j (pick c (i ∷ xs) xs)
pick_keeps (inl e) i j xs m = inr m
pick_keeps (inr d) i j xs m = m

pub pick_self :
    {t u : Tag} (c : (t ≡ u) ⊎ (t ≢ u)) (i : ℕ) (xs : List ℕ) → t ≡ u → In i (pick c (i ∷ xs) xs)
pick_self (inl e) i xs h = inl refl
pick_self (inr d) i xs h = elim (d h) [ ]

pub pick_other : {t u : Tag} (c : (t ≡ u) ⊎ (t ≢ u)) (xs ys : List ℕ) → t ≢ u → pick c xs ys ≡ ys
pick_other (inl e) xs ys d = elim (d e) [ ]
pick_other (inr n) xs ys d = refl

abbrev pub tag_sets : Tags
tag_sets = record {
  Store = Tag → List ℕ;
  smembers = λ t s. s t;
  sadd = λ t i s u. pick (Tag-cases u t) (i ∷ s u) (s u);
  delete = λ t s u. pick (Tag-cases u t) [] (s u);
  sadd_keeps = λ t u i j s m. pick_keeps (Tag-cases u t) i j (s u) m;
  sadd_adds = λ t i s. pick_self (Tag-cases t t) i (s t) refl;
  delete_other = λ t u s d. pick_other (Tag-cases u t) [] (s u) d;
}

-- a digest of sorted ids: their sum
abbrev pub digest : List ℕ → ℕ
digest [] = 0
digest (a ∷ as') = a + digest as'

abbrev pub nothing : Stores vectors tag_sets
nothing = record { vectors = ([], λ i. none); tagged = λ t. [] }

-- An answer from the document 5, the invalidation of 5, and an answer from the document 6.
abbrev answered : Stores vectors tag_sets
answered =
    store vectors tag_sets digest ascii defaults true 0 1 (codes "q") (codes "five") (20 ∷ [])
      (5 ∷ []) none [] nothing

abbrev invalidated : Stores vectors tag_sets
invalidated = (invalidate_document vectors tag_sets digest ascii defaults 5 answered).1

abbrev answered_again : Stores vectors tag_sets
answered_again =
    store vectors tag_sets digest ascii defaults false 0 2 (codes "q") (codes "six") (20 ∷ [])
      (6 ∷ []) none [] invalidated

abbrev six : CacheHit
six = record {
  answer = codes "six";
  query_text = codes "q";
  collection_ids = 20 ∷ [];
  document_ids = 6 ∷ [];
  citations = [];
}

only_six :
    (lookup vectors tag_sets digest ascii defaults true 9 (20 ∷ []) (codes "q") answered_again).0
    ≡ some six
unfolding lookup store invalidate_document Tag-cases strip
only_six = refl

another_scope :
    (lookup vectors tag_sets digest ascii defaults true 9
      (20 ∷ 21 ∷ [])
      (codes "q")
      answered_again).0
    ≡ none
unfolding lookup store invalidate_document Tag-cases strip
another_scope = refl

lookup-IsServable_example :
    IsServable vectors tag_sets digest ascii defaults 9 (20 ∷ []) answered_again six
lookup-IsServable_example =
    lookup-IsServable vectors tag_sets digest ascii defaults true 9 (20 ∷ []) (codes "q")
      answered_again six only_six

names_no_five : ¬ In {A = ℕ} 5 (6 ∷ [])
names_no_five (inl e) = cc
names_no_five (inr m) = m

invalidated_unseen_example : ¬ In 5 six.document_ids
invalidated_unseen_example =
    invalidated_unseen vectors tag_sets digest ascii defaults 5 nothing answered answered_again
      (λ i. refl)
      (stored true 0 1 (codes "q") (codes "five") (20 ∷ []) (5 ∷ []) none [] nothing (λ m. refl)
        start)
      (stored false 0 2 (codes "q") (codes "six") (20 ∷ []) (6 ∷ []) none [] invalidated
        names_no_five start)
      true 9 (20 ∷ []) (codes "q") six only_six
