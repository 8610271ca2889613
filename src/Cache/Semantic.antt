-- ===== src/Cache/Semantic.antt =====
-- The methods of SemanticCache in app/retrieval/semantic_cache.py. `sha256` is the digest of the
-- sorted ids, `evicts` says whether the best-effort delete of a lookup gets through.
use agentic_rag_claude_code.Prelude.{
  ℕ, ◌-◌, ◌*◌, Bool, true, not, ◌&&◌, ◌||◌, Option, none, some, List, [], ◌∷◌, Text, elem, is_empty,
  length, ltb, leb, get_or_else, if◌then◌else◌,
}
use agentic_rag_claude_code.Characters.{CharTable, strip}
use agentic_rag_claude_code.Settings.{Settings}
use agentic_rag_claude_code.Citations.{Citation}
use agentic_rag_claude_code.Auth.Tokens.{second}
use agentic_rag_claude_code.Cache.Stores.{Entry, Points, Tag, coll, doc, Tags}

abbrev pub insert_sorted : ℕ → List ℕ → List ℕ
insert_sorted a [] = a ∷ []
insert_sorted a (b ∷ bs) = if leb a b then a ∷ b ∷ bs else b ∷ insert_sorted a bs

abbrev pub sorted : List ℕ → List ℕ
sorted [] = []
sorted (a ∷ as') = insert_sorted a (sorted as')

-- `a.issubset(b)`
abbrev pub is_subset : List ℕ → List ℕ → Bool
is_subset [] b = true
is_subset (a ∷ as') b = elem a b && is_subset as' b

pub record CacheHit : Type 0 where
  pub answer : Text
  pub query_text : Text
  pub collection_ids : List ℕ
  pub document_ids : List ℕ
  pub citations : List Citation

module _ (points : Points) (tags : Tags) where
  pub record Stores : Type 0 where
    pub vectors : points.Store
    pub tagged : tags.Store

module _ (points : Points) (tags : Tags) (sha256 : List ℕ → ℕ) (table : CharTable)
    (s : Settings) where
  abbrev pub scope_hash : List ℕ → ℕ
  scope_hash collection_ids = sha256 (sorted collection_ids)

  abbrev pub is_stale : ℕ → Entry → Bool
  is_stale now e = ltb (s.semantic_cache_ttl_s * second) (now - e.created_at)

  abbrev pub hit_of : Entry → CacheHit
  hit_of e = record {
    answer = e.answer;
    query_text = e.query_text;
    collection_ids = e.collection_ids;
    document_ids = e.document_ids;
    citations = e.citations;
  }

  -- the loop over the points: the stale ids and the first hit
  unfoldable pub scan_points : ℕ → List ℕ → List (ℕ × Entry) → List ℕ × Option CacheHit
  scan_points now allowed [] = ([], none)
  scan_points now allowed ((i, e) ∷ rest) =
      let (stale, hit) = scan_points now allowed rest in
      if is_stale now e
      then (i ∷ stale, hit)
      else if is_subset e.collection_ids allowed
      then (stale, some (hit_of e))
      else (stale, hit)

  abbrev pub evict_stale : Bool → List ℕ → Stores points tags → Stores points tags
  evict_stale evicts stale w =
      if evicts && not (is_empty stale)
      then record w { vectors = points.delete stale w.vectors }
      else w

  unfoldable pub lookup :
      Bool → ℕ → List ℕ → Text → Stores points tags → Option CacheHit × Stores points tags
  unfolding scan_points
  lookup evicts now allowed query w =
      if is_empty (strip table query) || not (points.collection_exists w.vectors)
      then (none, w)
      else (let found =
            scan_points now allowed (points.query_points (scope_hash allowed) query w.vectors) in
          (found.1, evict_stale evicts found.0 w))

  abbrev pub tag_all : (ℕ → Tag) → ℕ → List ℕ → tags.Store → tags.Store
  tag_all tag entry_id [] t = t
  tag_all tag entry_id (d ∷ ds) t = tag_all tag entry_id ds (tags.sadd (tag d) entry_id t)

  -- `entry_id` is the random UUID of the call; `written` tells that the pipeline of tags gets through.
  -- Where it does not, the call raises behind the upsert, and the point stays without its tags.
  unfoldable pub store :
      Bool
      → ℕ
      → ℕ
      → Text
      → Text
      → List ℕ
      → List ℕ
      → Option (List ℕ)
      → List Citation
      → Stores points tags
      → Stores points tags
  store written now entry_id query answer coll_ids doc_ids requester_scope citations w = record {
    vectors =
        points.upsert entry_id query
          (record {
            answer = answer;
            query_text = query;
            collection_ids = coll_ids;
            document_ids = doc_ids;
            citations = citations;
            scope_hash = scope_hash (get_or_else requester_scope coll_ids);
            created_at = now;
          })
          (points.ensure_collection w.vectors);
    tagged =
        if written
        then tag_all doc entry_id doc_ids (tag_all coll entry_id coll_ids w.tagged)
        else w.tagged;
  }

  unfoldable pub evict : Tag → Stores points tags → ℕ × Stores points tags
  evict tag w =
      let ids = tags.smembers tag w.tagged in
      if is_empty ids then (0, w) else (
        length ids,
        record { vectors = points.delete ids w.vectors; tagged = tags.delete tag w.tagged },
      )

  unfoldable pub invalidate_document : ℕ → Stores points tags → ℕ × Stores points tags
  unfolding evict
  invalidate_document d w = evict (doc d) w

  unfoldable pub invalidate_collection : ℕ → Stores points tags → ℕ × Stores points tags
  unfolding evict
  invalidate_collection c w = evict (coll c) w

  unfoldable pub purge_expired : ℕ → Stores points tags → ℕ × Stores points tags
  purge_expired now w =
      if not (points.collection_exists w.vectors)
      then (0, w)
      else (let cutoff = now - s.semantic_cache_ttl_s * second in
          let before = points.count_older cutoff w.vectors in
          if leb before 0
          then (0, w)
          else (before, record w { vectors = points.delete_older cutoff w.vectors }))
