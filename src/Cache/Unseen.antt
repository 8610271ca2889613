-- ===== src/Cache/Unseen.antt =====
-- No answer out of the cache of app/retrieval/semantic_cache.py names a document that was invalidated.
use agentic_rag_claude_code.Prelude.{
  ℕ, ◌≡◌, sym, subst, ◌∙◌, Bool, true, false, Option, none, some, some-injective, List, Text, In,
  get_or_else, ◌==◌, if◌then◌else◌,
}
use agentic_rag_claude_code.Characters.{CharTable}
use agentic_rag_claude_code.Settings.{Settings}
use agentic_rag_claude_code.Citations.{Citation}
use agentic_rag_claude_code.Cache.Stores.{Entry, Points, doc, Tags}
use agentic_rag_claude_code.Cache.Semantic.{
  CacheHit, Stores, scope_hash, lookup, store, evict, invalidate_document,
}
use agentic_rag_claude_code.Cache.Hits.{IsServable, lookup-IsServable}
use agentic_rag_claude_code.Cache.Tagged.{IsTagged, delete-Fewer, delete_older-Fewer}
use agentic_rag_claude_code.Cache.History.{
  IsGone, Fewer-IsGone, evict-IsGone, evict-Fewer, lookup-vectors, purge-vectors, Steps, start,
  stored, looked_up, invalidated, purged, Steps-IsTagged,
}

module _ (points : Points) (tags : Tags) (sha256 : List ℕ → ℕ) (table : CharTable)
    (s : Settings) where
  -- what is stored names no document d
  abbrev pub Without : ℕ → Bool → List ℕ → List ℕ → Type 0
  Without d written cs ds = In d ds → ⊥

  -- what is stored and names the document d gets its tags
  abbrev pub TagsWritten : ℕ → Bool → List ℕ → List ℕ → Type 0
  TagsWritten d written cs ds = In d ds → written ≡ true

  store-IsGone :
      (written : Bool) (d now id : ℕ) (query answer : Text) (cs ds : List ℕ)
      (scope : Option (List ℕ)) (citations : List Citation) (w : Stores points tags)
      → Without d written cs ds
      → IsGone points tags (doc d) w
      → IsGone points tags
          (doc d)
          (store points tags sha256 table s written now id query answer cs ds scope citations w)
  unfolding IsGone store
  store-IsGone written d now id query answer cs ds scope citations w o g i e k m =
      which (i == id) (sym (points.entry-upsert id i query new v) ∙ k)
    where
      v : points.Store
      v = points.ensure_collection w.vectors

      new : Entry
      new = record {
        answer = answer;
        query_text = query;
        collection_ids = cs;
        document_ids = ds;
        citations = citations;
        scope_hash = scope_hash points tags sha256 table s (get_or_else scope cs);
        created_at = now;
      }

      which : (b : Bool) → (if b then some new else points.entry v i) ≡ some e → ⊥
      which true k = o (subst (λ (e : Entry). In d e.document_ids) (sym (some-injective _ _ k)) m)
      which false k = g i e (sym (points.entry-ensure w.vectors i) ∙ k) m

  Steps-IsGone :
      (d : ℕ) (w v : Stores points tags)
      → IsGone points tags (doc d) w
      → Steps points tags sha256 table s (Without d) w v
      → IsGone points tags (doc d) v
  Steps-IsGone d w v g start = g
  Steps-IsGone d w _ g (stored written now id query answer cs ds scope citations v o p) =
      store-IsGone written d now id query answer cs ds scope citations v o (Steps-IsGone d w v g p)
  Steps-IsGone d w _ g (looked_up evicts now allowed query v p) =
      lookup-vectors points tags sha256 table s evicts now allowed query v
        (IsGone points tags (doc d)) (Steps-IsGone d w v g p)
        (λ ids.
          Fewer-IsGone points tags (doc d) v (record v { vectors = points.delete ids v.vectors })
            (delete-Fewer points tags ids v.vectors) (Steps-IsGone d w v g p))
  Steps-IsGone d w _ g (invalidated t v p) =
      Fewer-IsGone points tags (doc d) v (evict points tags sha256 table s t v).1
        (evict-Fewer points tags sha256 table s t v) (Steps-IsGone d w v g p)
  Steps-IsGone d w _ g (purged now v p) =
      purge-vectors points tags sha256 table s now v (IsGone points tags (doc d))
        (Steps-IsGone d w v g p)
        (λ cutoff.
          Fewer-IsGone points tags (doc d) v
            (record v { vectors = points.delete_older cutoff v.vectors })
            (delete_older-Fewer points tags cutoff v.vectors) (Steps-IsGone d w v g p))

  -- From a cache without entries, after any sequence of its operations in which each store of an answer
  -- that names the document gets its tags written, the invalidation of the document, and any sequence of
  -- operations in which nothing is stored that names it: no hit of any lookup names it.
  pub invalidated_unseen :
      (d : ℕ) (empty w v : Stores points tags)
      → ((i : ℕ) → points.entry empty.vectors i ≡ none)
      → Steps points tags sha256 table s (TagsWritten d) empty w
      → Steps points tags sha256 table s
          (Without d)
          (invalidate_document points tags sha256 table s d w).1
          v
      → (evicts : Bool) (now : ℕ) (allowed : List ℕ) (query : Text) (hit : CacheHit)
      → (lookup points tags sha256 table s evicts now allowed query v).0 ≡ some hit
      → ¬ In d hit.document_ids
  unfolding invalidate_document IsTagged IsGone
  invalidated_unseen d empty w v none_yet before behind evicts now allowed query hit h m =
      gone_now (lookup-IsServable points tags sha256 table s evicts now allowed query v hit h)
    where
      first : IsTagged points tags (doc d) empty
      first i e k n = elim (never (sym (none_yet i) ∙ k)) [ ]
        where
          never : ◌≡◌ {A = Option Entry} none (some e) → ⊥
          never k = cc

      tagged : IsTagged points tags (doc d) w
      tagged =
          Steps-IsTagged points tags sha256 table s (TagsWritten d) (doc d)
            (λ written cs ds o m. o m) empty w first before

      gone : IsGone points tags (doc d) v
      gone =
          Steps-IsGone d (evict points tags sha256 table s (doc d) w).1 v
            (evict-IsGone points tags sha256 table s (doc d) w tagged) behind

      gone_now : IsServable points tags sha256 table s now allowed v hit → ⊥
      gone_now q =
          gone q.id q.entry q.stored
            (subst (λ (h : CacheHit). In d h.document_ids) (sym q.same_answer) m)
