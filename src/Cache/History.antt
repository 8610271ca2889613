-- ===== src/Cache/History.antt =====
-- The cache of app/retrieval/semantic_cache.py over any sequence of its operations.
use agentic_rag_claude_code.Prelude.{
  ℕ, ◌-◌, ◌*◌, ◌≡◌, ◌≢◌, sym, ap, subst, ◌∙◌, ◌⊎◌, inl, inr, Bool, true, false, not, ◌&&◌, ◌||◌,
  Option, none, some, List, [], ◌∷◌, Text, In, In→elem, is_empty, length, leb, Bool-cases,
  if◌then◌else◌,
}
use agentic_rag_claude_code.Characters.{CharTable, strip}
use agentic_rag_claude_code.Settings.{Settings}
use agentic_rag_claude_code.Citations.{Citation}
use agentic_rag_claude_code.Access.Redis.{Nat-cases}
use agentic_rag_claude_code.Auth.Tokens.{second}
use agentic_rag_claude_code.Cache.Stores.{Entry, Points, Tag, coll, doc, Tags}
use agentic_rag_claude_code.Cache.Semantic.{
  CacheHit, Stores, scope_hash, scan_points, evict_stale, lookup, store, evict, purge_expired,
}
use agentic_rag_claude_code.Cache.Tagged.{
  ids_of, named, id_of_tag, IsTagged, Fewer, Fewer-IsTagged, delete-Fewer, delete_older-Fewer,
  store-IsTagged,
}

unfoldable pub Tag-cases : (t u : Tag) → (t ≡ u) ⊎ (t ≢ u)
unfolding Nat-cases
Tag-cases (coll c) (coll d) = elim (Nat-cases c d) [
  | inl e ↦ inl (ap (λ c. coll c) e)
  | inr n ↦ inr (λ e. n (ap id_of_tag e))
]
Tag-cases (coll c) (doc d) = inr (λ e. cc)
Tag-cases (doc c) (coll d) = inr (λ e. cc)
Tag-cases (doc c) (doc d) = elim (Nat-cases c d) [
  | inl e ↦ inl (ap (λ c. doc c) e)
  | inr n ↦ inr (λ e. n (ap id_of_tag e))
]

is_empty-In : (xs : List ℕ) (i : ℕ) → is_empty xs ≡ true → In i xs → ⊥
is_empty-In [] i h m = m
is_empty-In (x ∷ xs) i h m = cc

module _ (points : Points) (tags : Tags) where
  -- No entry is about the document or the collection of the tag.
  unfoldable pub IsGone : Tag → Stores points tags → Type 0
  IsGone t w =
      (i : ℕ) (e : Entry) → points.entry w.vectors i ≡ some e → In (id_of_tag t) (ids_of t e) → ⊥

  pub Fewer-IsGone :
      (t : Tag) (w w' : Stores points tags)
      → Fewer points tags w.vectors w'.vectors
      → IsGone t w
      → IsGone t w'
  unfolding IsGone
  Fewer-IsGone t w w' f g i e k m = g i e (f i e k) m

  deleted-entry :
      (ids : List ℕ) (v : points.Store) (i : ℕ) (e : Entry)
      → points.entry (points.delete ids v) i ≡ some e
      → In i ids
      → ⊥
  deleted-entry ids v i e h m = never (
      sym (ap (λ b. if b then none else points.entry v i) (In→elem i ids m))
      ∙ sym (points.entry-delete ids v i)
      ∙ h)
    where
      never : ◌≡◌ {A = Option Entry} none (some e) → ⊥
      never k = cc

  module _ (sha256 : List ℕ → ℕ) (table : CharTable) (s : Settings) where
    abbrev after : ℕ × Stores points tags → Stores points tags
    after r = r.1

    abbrev emptied : Tag → Stores points tags → Stores points tags
    emptied t w = record {
      vectors = points.delete (tags.smembers t w.tagged) w.vectors;
      tagged = tags.delete t w.tagged;
    }

    evict-cases :
        (t : Tag) (w : Stores points tags) (P : Stores points tags → Type 0)
        → (is_empty (tags.smembers t w.tagged) ≡ true → P w)
        → P (emptied t w)
        → P (evict points tags sha256 table s t w).1
    unfolding evict
    evict-cases t w P a b = elim (Bool-cases (is_empty (tags.smembers t w.tagged))) [
      | inl h ↦
          subst
            (λ x.
              P (after (if x then (0, w) else (length (tags.smembers t w.tagged), emptied t w))))
            (sym h) (a h)
      | inr h ↦
          subst
            (λ x.
              P (after (if x then (0, w) else (length (tags.smembers t w.tagged), emptied t w))))
            (sym h) b
    ]

    pub evict-IsGone :
        (t : Tag) (w : Stores points tags)
        → IsTagged points tags t w
        → IsGone t (evict points tags sha256 table s t w).1
    unfolding IsTagged IsGone
    evict-IsGone t w h =
        evict-cases t w (IsGone t)
          (λ q i e k m. is_empty-In (tags.smembers t w.tagged) i q (h i e k m))
          (λ i e k m.
            deleted-entry (tags.smembers t w.tagged) w.vectors i e k
              (h i e (delete-Fewer points tags (tags.smembers t w.tagged) w.vectors i e k) m))

    pub evict-Fewer :
        (t : Tag) (w : Stores points tags)
        → Fewer points tags w.vectors (evict points tags sha256 table s t w).1.vectors
    evict-Fewer t w =
        evict-cases t w (λ w'. Fewer points tags w.vectors w'.vectors) (λ q i e k. k)
          (delete-Fewer points tags (tags.smembers t w.tagged) w.vectors)

    emptied-IsTagged :
        (t u : Tag) (w : Stores points tags)
        → IsTagged points tags u w
        → IsTagged points tags u (emptied t w)
    unfolding IsTagged
    emptied-IsTagged t u w h i e k m =
        let before = delete-Fewer points tags (tags.smembers t w.tagged) w.vectors i e k in
        elim (Tag-cases u t) [
          | inl q ↦
              elim (deleted-entry (tags.smembers t w.tagged) w.vectors i e k
                (subst (λ t. In i (tags.smembers t w.tagged)) q (h i e before m))) [ ]
          | inr d ↦ subst (In i) (sym (tags.delete_other t u w.tagged d)) (h i e before m)
        ]

    evict-IsTagged :
        (t u : Tag) (w : Stores points tags)
        → IsTagged points tags u w
        → IsTagged points tags u (evict points tags sha256 table s t w).1
    evict-IsTagged t u w h =
        evict-cases t w (IsTagged points tags u) (λ q. h) (emptied-IsTagged t u w h)

    abbrev after_lookup : Option CacheHit × Stores points tags → Stores points tags
    after_lookup r = r.1

    pub lookup-vectors :
        (evicts : Bool) (now : ℕ) (allowed : List ℕ) (query : Text) (w : Stores points tags)
        (P : Stores points tags → Type 0)
        → P w
        → ((ids : List ℕ) → P (record w { vectors = points.delete ids w.vectors }))
        → P (lookup points tags sha256 table s evicts now allowed query w).1
    unfolding lookup
    lookup-vectors evicts now allowed query w P a b =
        outer (is_empty (strip table query) || not (points.collection_exists w.vectors))
      where
        found : List ℕ × Option CacheHit
        found =
            scan_points points tags sha256 table s now allowed
              (points.query_points (scope_hash points tags sha256 table s allowed) query w.vectors)

        inner :
            (x : Bool) (ids : List ℕ)
            → P (if x then record w { vectors = points.delete ids w.vectors } else w)
        inner true ids = b ids
        inner false ids = a

        outer :
            (x : Bool)
            → P (
                after_lookup (
                  if x
                  then (none, w)
                  else (found.1, evict_stale points tags sha256 table s evicts found.0 w)))
        outer true = a
        outer false = inner (evicts && not (is_empty found.0)) found.0

    pub purge-vectors :
        (now : ℕ) (w : Stores points tags) (P : Stores points tags → Type 0)
        → P w
        → ((cutoff : ℕ) → P (record w { vectors = points.delete_older cutoff w.vectors }))
        → P (purge_expired points tags sha256 table s now w).1
    unfolding purge_expired
    purge-vectors now w P a b = outer (not (points.collection_exists w.vectors))
      where
        cutoff : ℕ
        cutoff = now - s.semantic_cache_ttl_s * second

        before : ℕ
        before = points.count_older cutoff w.vectors

        inner :
            (x : Bool)
            → P (
                after (
                  if x
                  then (0, w)
                  else (before, record w { vectors = points.delete_older cutoff w.vectors })))
        inner true = a
        inner false = b cutoff

        outer :
            (x : Bool)
            → P (
                after (
                  if x
                  then (0, w)
                  else (if leb before 0
                      then (0, w)
                      else (before, record w { vectors = points.delete_older cutoff w.vectors }))))
        outer true = a
        outer false = inner (leb before 0)

    -- Any sequence of the operations, in which each store meets `Ok`: whether its tags are written, its
    -- collections and its documents.
    pub data Steps (Ok : Bool → List ℕ → List ℕ → Type 0) (w : Stores points tags)
        : Stores points tags → Type 0 where
      start : Steps Ok w w
      stored :
          (written : Bool) (now id : ℕ) (query answer : Text) (cs ds : List ℕ)
          (scope : Option (List ℕ)) (citations : List Citation) (v : Stores points tags)
          → Ok written cs ds
          → Steps Ok w v
          → Steps Ok w
              (store points tags sha256 table s written now id query answer cs ds scope citations v)
      looked_up :
          (evicts : Bool) (now : ℕ) (allowed : List ℕ) (query : Text) (v : Stores points tags)
          → Steps Ok w v
          → Steps Ok w (lookup points tags sha256 table s evicts now allowed query v).1
      invalidated :
          (t : Tag) (v : Stores points tags)
          → Steps Ok w v
          → Steps Ok w (evict points tags sha256 table s t v).1
      purged :
          (now : ℕ) (v : Stores points tags)
          → Steps Ok w v
          → Steps Ok w (purge_expired points tags sha256 table s now v).1

    pub Steps-IsTagged :
        (Ok : Bool → List ℕ → List ℕ → Type 0) (t : Tag)
        → ((written : Bool) (cs ds : List ℕ)
            → Ok written cs ds
            → In (id_of_tag t) (named t cs ds)
            → written ≡ true)
        → (w v : Stores points tags) → IsTagged points tags t w
        → Steps Ok w v
        → IsTagged points tags t v
    Steps-IsTagged Ok t safe w v h start = h
    Steps-IsTagged Ok t safe w _ h
          (stored written now id query answer cs ds scope citations v o p) =
        store-IsTagged points tags sha256 table s written now id query answer cs ds scope citations
          t v (safe written cs ds o) (Steps-IsTagged Ok t safe w v h p)
    Steps-IsTagged Ok t safe w _ h (looked_up evicts now allowed query v p) =
        lookup-vectors evicts now allowed query v (IsTagged points tags t)
          (Steps-IsTagged Ok t safe w v h p)
          (λ ids.
            Fewer-IsTagged points tags t v (points.delete ids v.vectors)
              (Steps-IsTagged Ok t safe w v h p) (delete-Fewer points tags ids v.vectors))
    Steps-IsTagged Ok t safe w _ h (invalidated u v p) =
        evict-IsTagged u t v (Steps-IsTagged Ok t safe w v h p)
    Steps-IsTagged Ok t safe w _ h (purged now v p) =
        purge-vectors now v (IsTagged points tags t) (Steps-IsTagged Ok t safe w v h p) (λ cutoff.
          Fewer-IsTagged points tags t v (points.delete_older cutoff v.vectors)
            (Steps-IsTagged Ok t safe w v h p) (delete_older-Fewer points tags cutoff v.vectors))
