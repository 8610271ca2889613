-- ===== src/Cache/Tagged.antt =====
-- The tags of the cache of app/retrieval/semantic_cache.py: every entry is tagged with its documents
-- and collections, which is what the invalidation relies on.
use agentic_rag_claude_code.Prelude.{
  ℕ, ◌≡◌, refl, sym, subst, ◌∙◌, inl, inr, Bool, true, false, Option, none, some, some-injective,
  List, [], ◌∷◌, Text, In, elem, ltb, get_or_else, ◌==◌, ==_iff, if◌then◌else◌, by_test,
}
use agentic_rag_claude_code.Characters.{CharTable}
use agentic_rag_claude_code.Settings.{Settings}
use agentic_rag_claude_code.Citations.{Citation}
use agentic_rag_claude_code.Cache.Stores.{Entry, newer, Points, Tag, coll, doc, Tags}
use agentic_rag_claude_code.Cache.Semantic.{Stores, scope_hash, tag_all, store}

-- the ids of an entry that a tag is about
abbrev pub ids_of : Tag → Entry → List ℕ
ids_of (coll c) e = e.collection_ids
ids_of (doc d) e = e.document_ids

-- the ids that a store with these sources tags with such a tag
abbrev pub named : Tag → List ℕ → List ℕ → List ℕ
named (coll c) cs ds = cs
named (doc d) cs ds = ds

abbrev pub id_of_tag : Tag → ℕ
id_of_tag (coll c) = c
id_of_tag (doc d) = d

module _ (points : Points) (tags : Tags) where
  -- Each entry that the tag is about is in the set of the tag.
  unfoldable pub IsTagged : Tag → Stores points tags → Type 0
  IsTagged t w =
      (i : ℕ) (e : Entry)
      → points.entry w.vectors i ≡ some e
      → In (id_of_tag t) (ids_of t e)
      → In i (tags.smembers t w.tagged)

  -- Every entry of the later points is one of the earlier points.
  abbrev pub Fewer : points.Store → points.Store → Type 0
  Fewer v v' = (i : ℕ) (e : Entry) → points.entry v' i ≡ some e → points.entry v i ≡ some e

  pub Fewer-IsTagged :
      (t : Tag) (w : Stores points tags) (v : points.Store)
      → IsTagged t w
      → Fewer w.vectors v
      → IsTagged t (record w { vectors = v })
  unfolding IsTagged
  Fewer-IsTagged t w v h f i e k m = h i e (f i e k) m

  if_kept :
      (b : Bool) (o : Option Entry) (e : Entry)
      → (if b then none else o) ≡ some e
      → (b ≡ false) × (o ≡ some e)
  if_kept true o e h = cc
  if_kept false o e h = (refl, h)

  pub delete-Fewer : (ids : List ℕ) (v : points.Store) → Fewer v (points.delete ids v)
  delete-Fewer ids v i e h =
      (if_kept (elem i ids) (points.entry v i) e (sym (points.entry-delete ids v i) ∙ h)).1

  newer-kept : (cutoff : ℕ) (o : Option Entry) (e : Entry) → newer cutoff o ≡ some e → o ≡ some e
  newer-kept cutoff none e h = h
  newer-kept cutoff (some d) e h = (if_kept (ltb d.created_at cutoff) (some d) e h).1

  pub delete_older-Fewer : (cutoff : ℕ) (v : points.Store) → Fewer v (points.delete_older cutoff v)
  delete_older-Fewer cutoff v i e h =
      newer-kept cutoff (points.entry v i) e (sym (points.entry-delete_older cutoff v i) ∙ h)

  module _ (sha256 : List ℕ → ℕ) (table : CharTable) (s : Settings) where
    tag_all-keeps :
        (tag : ℕ → Tag) (id : ℕ) (ds : List ℕ) (t : tags.Store) (u : Tag) (j : ℕ)
        → In j (tags.smembers u t)
        → In j (tags.smembers u (tag_all points tags sha256 table s tag id ds t))
    tag_all-keeps tag id [] t u j m = m
    tag_all-keeps tag id (d ∷ ds) t u j m =
        tag_all-keeps tag id ds (tags.sadd (tag d) id t) u j (tags.sadd_keeps (tag d) u id j t m)

    tag_all-adds :
        (tag : ℕ → Tag) (id : ℕ) (ds : List ℕ) (t : tags.Store) (d : ℕ)
        → In d ds
        → In id (tags.smembers (tag d) (tag_all points tags sha256 table s tag id ds t))
    tag_all-adds tag id [] t d m = elim m [ ]
    tag_all-adds tag id (x ∷ ds) t d (inl e) =
        tag_all-keeps tag id ds (tags.sadd (tag x) id t) (tag d) id (
          subst (λ d. In id (tags.smembers (tag d) (tags.sadd (tag x) id t))) (sym e)
            (tags.sadd_adds (tag x) id t))
    tag_all-adds tag id (x ∷ ds) t d (inr m) = tag_all-adds tag id ds (tags.sadd (tag x) id t) d m

    pub store-IsTagged :
        (written : Bool) (now id : ℕ) (query answer : Text) (cs ds : List ℕ)
        (scope : Option (List ℕ)) (citations : List Citation) (t : Tag) (w : Stores points tags)
        → (In (id_of_tag t) (named t cs ds) → written ≡ true)
        → IsTagged t w
        → IsTagged t
            (store points tags sha256 table s written now id query answer cs ds scope citations w)
    unfolding IsTagged store
    store-IsTagged written now id query answer cs ds scope citations t w safe h i e k m =
        which (i == id) refl (sym (points.entry-upsert id i query new v) ∙ k)
      where
        v : points.Store
        v = points.ensure_collection w.vectors

        new : Entry
        new = record {
          answer = answer;
          query_text = query;
          collection_ids = cs;
          document_ids = ds;
          citations = citations;
          scope_hash = scope_hash points tags sha256 table s (get_or_else scope cs);
          created_at = now;
        }

        all_tags : tags.Store
        all_tags =
            tag_all points tags sha256 table s doc id ds
              (tag_all points tags sha256 table s coll id cs w.tagged)

        own : (t : Tag) → In (id_of_tag t) (named t cs ds) → In id (tags.smembers t all_tags)
        own (doc d) m =
            tag_all-adds doc id ds (tag_all points tags sha256 table s coll id cs w.tagged) d m
        own (coll c) m =
            tag_all-keeps doc id ds (tag_all points tags sha256 table s coll id cs w.tagged)
              (coll c) id (tag_all-adds coll id cs w.tagged c m)

        names_new : (t : Tag) → In (id_of_tag t) (ids_of t new) → In (id_of_tag t) (named t cs ds)
        names_new (coll c) m = m
        names_new (doc d) m = m

        if_written :
            (b : Bool)
            → b ≡ true
            → In id (tags.smembers t all_tags)
            → In id (tags.smembers t (if b then all_tags else w.tagged))
        if_written true q m = m
        if_written false q m = cc

        which :
            (b : Bool)
            → (i == id) ≡ b
            → (if b then some new else points.entry v i) ≡ some e
            → In i (tags.smembers t (if written then all_tags else w.tagged))
        which true q k =
            let about_new = names_new t (
              subst (λ (e : Entry). In (id_of_tag t) (ids_of t e)) (sym (some-injective _ _ k))
                m) in
            subst (λ i. In i (tags.smembers t (if written then all_tags else w.tagged)))
              (sym ((==_iff i id).0 q)) (if_written written (safe about_new) (own t about_new))
        which false q k =
            let old = h i e (sym (points.entry-ensure w.vectors i) ∙ k) m in
            by_test (λ (u : tags.Store). In i (tags.smembers t u)) written
              (tag_all-keeps doc id ds (tag_all points tags sha256 table s coll id cs w.tagged) t i
                (tag_all-keeps coll id cs w.tagged t i old))
              old
