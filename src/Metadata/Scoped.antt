-- ===== src/Metadata/Scoped.antt =====
-- What `lookup_documents` of app/retrieval/metadata_lookup.py lets an asker see.
use agentic_rag_claude_code.Prelude.{
  ℕ, suc, zero, ◌≤◌, ◌≡◌, refl, sym, ap, ◌∙◌, subst, ◌⊎◌, inl, inr, Bool, true, false, ◌&&◌, ◌||◌,
  Option, none, some, List, [], ◌∷◌, ◌++◌, map, Text, text_in, is_empty, is_some, length,
  length-take-le, take, elem, elem→In, In, In-append_split, In-filter_by_sound, In-map_sound,
  filter_by, All, All_of_In, Bool-cases, and_left, by_test, arith, if◌then◌else◌,
}
use agentic_rag_claude_code.Settings.{Settings}
use agentic_rag_claude_code.Chunks.{Chunk}
use agentic_rag_claude_code.Access.Rbac.{Collection, User}
use agentic_rag_claude_code.Metadata.Words.{Lang, tokens, mentioned_types, detect_lang}
use agentic_rag_claude_code.Metadata.Lookup.{
  DocumentRow, Row, file_type_text, row_of, collection_row, is_wanted, selected, limit_of, matches,
  narrowed, hit_of, lookup_documents,
}

-- a document that the question may be answered with
abbrev pub is_listed : List ℕ → List Text → List Collection → DocumentRow → Bool
is_listed allowed types collections d =
    is_wanted allowed types d && is_some (collection_row collections d)

-- A hit shows a stored document of an allowed collection and of a type that the question names.
pub record Shows (allowed : List ℕ) (types : List Text) (docs : List DocumentRow) (h : Chunk)
    : Type 0 where
  pub document : DocumentRow
  pub stored : In document docs
  pub same_document : h.document_id ≡ document.document.id
  pub same_collection : h.collection_id ≡ document.document.collection_id
  pub allowed_collection : In h.collection_id allowed
  pub wanted : is_wanted allowed types document ≡ true

pub record IsLookup (allowed : List ℕ) (types : List Text) (collections : List Collection)
    (docs : List DocumentRow) (limit : ℕ) (hits : List Chunk) : Type 0 where
  pub scoped : All (Shows allowed types docs) hits
  pub within : length hits ≤ limit
  pub none_missed :
      (is_empty hits ≡ false) ⊎ All (λ d. is_listed allowed types collections d ≡ false) docs

row_of-doc :
    (users : List User) (d : DocumentRow) (o : Option Collection) (r : Row)
    → In r (row_of users d o)
    → r.doc ≡ d
row_of-doc users d none r h = elim h [ ]
row_of-doc users d (some c) r (inl e) = ap (λ (r : Row). r.doc) e
row_of-doc users d (some c) r (inr h) = elim h [ ]

In-take : {A : Type 0} (n : ℕ) (a : A) (xs : List A) → In a (take n xs) → In a xs
In-take zero a xs h = elim h [ ]
In-take (suc n) a [] h = elim h [ ]
In-take (suc n) a (x ∷ xs) (inl e) = inl e
In-take (suc n) a (x ∷ xs) (inr h) = inr (In-take n a xs h)

is_empty→nil : {A : Type 0} (xs : List A) → is_empty xs ≡ true → xs ≡ []
is_empty→nil [] h = refl
is_empty→nil (x ∷ xs) h = cc

module _ (allowed : List ℕ) (types : List Text) (collections : List Collection)
    (users : List User) where
  abbrev IsFound : Row → List DocumentRow → Type 0
  IsFound r docs = In r.doc docs × (is_wanted allowed types r.doc ≡ true)

  selected_sound :
      (docs : List DocumentRow) (r : Row)
      → In r (selected allowed types collections users docs)
      → IsFound r docs
  unfolding selected
  selected_sound [] r h = elim h [ ]
  selected_sound (d ∷ ds) r h =
      which (is_wanted allowed types d) refl h (λ m. selected_sound ds r m)
    where
      later : IsFound r ds → IsFound r (d ∷ ds)
      later (m, w) = (inr m, w)

      which :
          (b : Bool)
          → is_wanted allowed types d ≡ b
          → In r (
              if b
              then row_of users d (collection_row collections d)
                ++ selected allowed types collections users ds
              else selected allowed types collections users ds)
          → (In r (selected allowed types collections users ds) → IsFound r ds)
          → IsFound r (d ∷ ds)
      which true e m ih =
          elim (In-append_split r (row_of users d (collection_row collections d))
            (selected allowed types collections users ds) m) [
              | inl m ↦
                  let q = row_of-doc users d (collection_row collections d) r m in
                  (inl q, ap (is_wanted allowed types) q ∙ e)
              | inr m ↦ later (ih m)
            ]
      which false e m ih = later (ih m)

  -- No row is selected where no document is listed.
  selected_none :
      (docs : List DocumentRow)
      → is_empty (selected allowed types collections users docs) ≡ true
      → All (λ d. is_listed allowed types collections d ≡ false) docs
  unfolding selected
  selected_none [] h = tt
  selected_none (d ∷ ds) h =
      which (is_wanted allowed types d) refl (collection_row collections d) refl h
        (selected_none ds)
    where
      which :
          (b : Bool)
          → is_wanted allowed types d ≡ b
          → (o : Option Collection) → collection_row collections d ≡ o
          → is_empty (
              if b
              then row_of users d o ++ selected allowed types collections users ds
              else selected allowed types collections users ds)
            ≡ true
          → (is_empty (selected allowed types collections users ds) ≡ true
              → All (λ d. is_listed allowed types collections d ≡ false) ds)
          → All (λ d. is_listed allowed types collections d ≡ false) (d ∷ ds)
      which true e none f m ih = (cc, ih m)
      which true e (some c) f m ih = cc
      which false e o f m ih = (cc, ih m)

or_false_right : (a b : Bool) → (a || b) ≡ false → b ≡ false
or_false_right true b h = cc
or_false_right false b h = h

is_empty-take : {A : Type 0} (n : ℕ) (xs : List A) → 1 ≤ n → is_empty (take n xs) ≡ is_empty xs
is_empty-take zero xs h = absurd (omega arith)
is_empty-take (suc n) [] h = refl
is_empty-take (suc n) (x ∷ xs) h = refl

is_empty-map : {A B : Type 0} (f : A → B) (xs : List A) → is_empty (map f xs) ≡ is_empty xs
is_empty-map f [] = refl
is_empty-map f (x ∷ xs) = refl

length-map : {A B : Type 0} (f : A → B) (xs : List A) → length (map f xs) ≡ length xs
length-map f [] = refl
length-map f (x ∷ xs) = ap suc (length-map f xs)

limit_of-positive : (limit : Option ℕ) (default : ℕ) → 1 ≤ default → 1 ≤ limit_of limit default
limit_of-positive none default h = h
limit_of-positive (some zero) default h = h
limit_of-positive (some (suc n)) default h = omega arith

none_listed :
    (types : List Text) (collections : List Collection) (docs : List DocumentRow)
    → All (λ d. is_listed [] types collections d ≡ false) docs
none_listed types collections [] = tt
none_listed types collections (d ∷ ds) = (refl, none_listed types collections ds)

module _ (show day : ℕ → Text) (is_word : ℕ → Bool) (lower : Text → Text) where
  narrowed_sound :
      (ts : List Text) (rows : List Row) (r : Row)
      → In r (narrowed show day is_word lower ts rows)
      → In r rows
  unfolding narrowed
  narrowed_sound ts rows r =
      by_test (λ (xs : List Row). In r xs → In r rows)
        (is_empty ts || is_empty (filter_by (matches show day is_word lower ts) rows)) (λ m. m)
        (λ m. (In-filter_by_sound (matches show day is_word lower ts) r rows m).0)

  is_empty-narrowed :
      (ts : List Text) (rows : List Row)
      → is_empty (narrowed show day is_word lower ts rows) ≡ true
      → is_empty rows ≡ true
  unfolding narrowed
  is_empty-narrowed ts rows =
      which (is_empty ts || is_empty (filter_by (matches show day is_word lower ts) rows)) refl
    where
      matching : List Row
      matching = filter_by (matches show day is_word lower ts) rows

      which :
          (b : Bool)
          → (is_empty ts || is_empty (filter_by (matches show day is_word lower ts) rows)) ≡ b
          → is_empty (if b then rows else filter_by (matches show day is_word lower ts) rows) ≡ true
          → is_empty rows ≡ true
      which true e h = h
      which false e h = absurd (
          cc (
            h,
            or_false_right (is_empty ts)
                (is_empty (filter_by (matches show day is_word lower ts) rows)) e,
          ))

  hit_of-Shows :
      (allowed : List ℕ) (types : List Text) (collections : List Collection) (users : List User)
      (docs : List DocumentRow) (lang : Lang) (ts : List Text) (n : ℕ)
      → All (Shows allowed types docs) (
          map (hit_of show day is_word lower lang) (
            take n
              (narrowed show day is_word lower ts (selected allowed types collections users docs))))
  unfolding hit_of
  hit_of-Shows allowed types collections users docs lang ts n =
      All_of_In (Shows allowed types docs) (map (hit_of show day is_word lower lang) kept) shown
    where
      rows : List Row
      rows = selected allowed types collections users docs

      kept : List Row
      kept = take n (narrowed show day is_word lower ts rows)

      shown :
          (h : Chunk)
          → In h (map (hit_of show day is_word lower lang) kept)
          → Shows allowed types docs h
      shown h m =
          let (r, k, e) = In-map_sound (hit_of show day is_word lower lang) h kept m in
          let row =
            narrowed_sound ts rows r (In-take n r (narrowed show day is_word lower ts rows) k) in
          let found = selected_sound allowed types collections users docs r row in
          subst (Shows allowed types docs) e (record {
            document = r.doc;
            stored = found.0;
            same_document = refl;
            same_collection = refl;
            allowed_collection = elem→In r.doc.document.collection_id allowed (
                and_left (elem r.doc.document.collection_id allowed)
                  (is_empty types || text_in (file_type_text r.doc.document.file_type) types)
                  found.1);
            wanted = found.1;
          })

  -- A lookup shows stored documents of the allowed collections only, each of a type that the question
  -- names where it names any, and no more than the limit. It shows none only where the allowed
  -- collections hold no document of such a type, whatever other words the question has. The default
  -- limit is positive.
  pub lookup_documents-IsLookup :
      (s : Settings) (collections : List Collection) (users : List User) (docs : List DocumentRow)
      (allowed : List ℕ) (query : Text) (limit : Option ℕ)
      → 1 ≤ s.metadata_max_documents
      → IsLookup allowed
          (mentioned_types is_word lower query)
          collections
          docs
          (limit_of limit s.metadata_max_documents)
          (lookup_documents show day is_word lower s collections users docs allowed query limit)
  unfolding lookup_documents
  lookup_documents-IsLookup s collections users docs [] query limit positive = record {
    scoped = tt;
    within = omega arith;
    none_missed = inr (none_listed (mentioned_types is_word lower query) collections docs);
  }
  lookup_documents-IsLookup s collections users docs (a ∷ as') query limit positive = record {
    scoped = hit_of-Shows (a ∷ as') types collections users docs lang ts n;
    within =
        subst (λ m. m ≤ n) (sym (length-map (hit_of show day is_word lower lang) (take n kept)))
          (length-take-le n kept);
    none_missed =
        elim (Bool-cases (is_empty (map (hit_of show day is_word lower lang) (take n kept)))) [
          | inr e ↦ inl e
          | inl e ↦ inr (
              selected_none (a ∷ as') types collections users docs (
                is_empty-narrowed ts rows (
                  sym (
                    is_empty-take n kept
                      (limit_of-positive limit s.metadata_max_documents positive))
                  ∙ sym (is_empty-map (hit_of show day is_word lower lang) (take n kept))
                  ∙ e)))
        ];
  }
    where
      types : List Text
      types = mentioned_types is_word lower query

      lang : Lang
      lang = detect_lang is_word lower query

      ts : List Text
      ts = tokens is_word lower query

      n : ℕ
      n = limit_of limit s.metadata_max_documents

      rows : List Row
      rows = selected (a ∷ as') types collections users docs

      kept : List Row
      kept = narrowed show day is_word lower ts rows
