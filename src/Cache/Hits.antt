-- ===== src/Cache/Hits.antt =====
-- What a lookup in the cache of app/retrieval/semantic_cache.py can return.
use agentic_rag_claude_code.Prelude.{
  ℕ, ◌-◌, ◌*◌, ◌≤◌, ◌≡◌, refl, sym, subst, inl, inr, Bool, true, false, not, ◌||◌, Option, none,
  some, some-injective, List, [], ◌∷◌, Text, In, elem, elem→In, ltb_false→le, and_left, and_right,
  is_empty, if◌then◌else◌,
}
use agentic_rag_claude_code.Characters.{CharTable, strip}
use agentic_rag_claude_code.Settings.{Settings}
use agentic_rag_claude_code.Auth.Tokens.{second}
use agentic_rag_claude_code.Cache.Stores.{Entry, Points, Tags}
use agentic_rag_claude_code.Cache.Semantic.{
  is_subset, CacheHit, Stores, scope_hash, is_stale, hit_of, scan_points, evict_stale, lookup,
}

is_subset_sound : (as' bs : List ℕ) → is_subset as' bs ≡ true → (a : ℕ) → In a as' → In a bs
is_subset_sound [] bs h a m = elim m [ ]
is_subset_sound (x ∷ xs) bs h a (inl e) =
    subst (λ a. In a bs) (sym e) (elem→In x bs (and_left (elem x bs) (is_subset xs bs) h))
is_subset_sound (x ∷ xs) bs h a (inr m) =
    is_subset_sound xs bs (and_right (elem x bs) (is_subset xs bs) h) a m

module _ (points : Points) (tags : Tags) (sha256 : List ℕ → ℕ) (table : CharTable)
    (s : Settings) where
  -- An answer that may be served at `now` to a user with the collections `allowed`: it is that of an
  -- entry of the cache which was written under the same scope hash, is not past its lifetime, and
  -- draws on allowed collections only.
  pub record IsServable (now : ℕ) (allowed : List ℕ) (w : Stores points tags) (hit : CacheHit)
      : Type 0 where
    pub id : ℕ
    pub entry : Entry
    pub stored : points.entry w.vectors id ≡ some entry
    pub same_scope : entry.scope_hash ≡ scope_hash points tags sha256 table s allowed
    pub fresh : now - entry.created_at ≤ s.semantic_cache_ttl_s * second
    pub permitted : (c : ℕ) → In c entry.collection_ids → In c allowed
    pub same_answer : hit_of points tags sha256 table s entry ≡ hit

  abbrev Gives : CacheHit → List ℕ × Option CacheHit → Type 0
  Gives hit r = r.1 ≡ some hit

  abbrev Returns : CacheHit → Option CacheHit × Stores points tags → Type 0
  Returns hit r = r.0 ≡ some hit

  scan_sound :
      (now : ℕ) (allowed : List ℕ) (found : List (ℕ × Entry)) (hit : CacheHit)
      → (scan_points points tags sha256 table s now allowed found).1 ≡ some hit
      → (i : ℕ) × (e : Entry) × In (i, e) found
        × (is_stale points tags sha256 table s now e ≡ false)
        × (is_subset e.collection_ids allowed ≡ true)
        × (hit_of points tags sha256 table s e ≡ hit)
  unfolding scan_points
  scan_sound now allowed [] hit h = cc
  scan_sound now allowed ((i, e) ∷ rest) hit h =
      picked (is_stale points tags sha256 table s now e) (is_subset e.collection_ids allowed) refl
        refl h (scan_sound now allowed rest hit)
    where
      later :
          ((j : ℕ) × (d : Entry) × In (j, d) rest
            × (is_stale points tags sha256 table s now d ≡ false)
            × (is_subset d.collection_ids allowed ≡ true)
            × (hit_of points tags sha256 table s d ≡ hit))
          → (j : ℕ) × (d : Entry) × In (j, d) ((i, e) ∷ rest)
            × (is_stale points tags sha256 table s now d ≡ false)
            × (is_subset d.collection_ids allowed ≡ true)
            × (hit_of points tags sha256 table s d ≡ hit)
      later (j, d, m, f, p, q) = (j, d, inr m, f, p, q)

      picked :
          (stale subset : Bool)
          → is_stale points tags sha256 table s now e ≡ stale
          → is_subset e.collection_ids allowed ≡ subset
          → Gives hit (
              if stale
              then (
                i ∷ (scan_points points tags sha256 table s now allowed rest).0,
                (scan_points points tags sha256 table s now allowed rest).1,
              )
              else if subset
              then (
                (scan_points points tags sha256 table s now allowed rest).0,
                some (hit_of points tags sha256 table s e),
              )
              else (
                (scan_points points tags sha256 table s now allowed rest).0,
                (scan_points points tags sha256 table s now allowed rest).1,
              ))
          → ((scan_points points tags sha256 table s now allowed rest).1 ≡ some hit
              → (j : ℕ) × (d : Entry) × In (j, d) rest
                × (is_stale points tags sha256 table s now d ≡ false)
                × (is_subset d.collection_ids allowed ≡ true)
                × (hit_of points tags sha256 table s d ≡ hit))
          → (j : ℕ) × (d : Entry) × In (j, d) ((i, e) ∷ rest)
            × (is_stale points tags sha256 table s now d ≡ false)
            × (is_subset d.collection_ids allowed ≡ true)
            × (hit_of points tags sha256 table s d ≡ hit)
      picked true subset st su k ih = later (ih k)
      picked false true st su k ih = (i, e, inl refl, st, su, some-injective _ _ k)
      picked false false st su k ih = later (ih k)

  servable :
      (now : ℕ) (allowed : List ℕ) (query : Text) (w : Stores points tags) (hit : CacheHit)
      → (scan_points points tags sha256 table s now allowed
          (points.query_points (scope_hash points tags sha256 table s allowed) query w.vectors)).1
        ≡ some hit
      → IsServable now allowed w hit
  servable now allowed query w hit h =
      let hash = scope_hash points tags sha256 table s allowed in
      let (i, e, m, f, p, q) =
        scan_sound now allowed (points.query_points hash query w.vectors) hit h in
      record {
        id = i;
        entry = e;
        stored = points.entry-query_points hash query w.vectors i e m;
        same_scope = points.hash-query_points hash query w.vectors i e m;
        fresh = ltb_false→le (s.semantic_cache_ttl_s * second) (now - e.created_at) f;
        permitted = is_subset_sound e.collection_ids allowed p;
        same_answer = q;
      }

  -- Whatever the cache holds, a hit is the answer of an entry that the cache holds, that was written
  -- under the scope hash of the asker's collections, that is not past its lifetime, and that draws on
  -- collections which the asker may read.
  pub lookup-IsServable :
      (evicts : Bool) (now : ℕ) (allowed : List ℕ) (query : Text) (w : Stores points tags)
      (hit : CacheHit)
      → (lookup points tags sha256 table s evicts now allowed query w).0 ≡ some hit
      → IsServable now allowed w hit
  unfolding lookup
  lookup-IsServable evicts now allowed query w hit h =
      found (is_empty (strip table query) || not (points.collection_exists w.vectors)) h
    where
      found :
          (b : Bool)
          → Returns hit (
              if b then (none, w) else (
                (scan_points points tags sha256 table s now allowed (
                    points.query_points
                      (scope_hash points tags sha256 table s allowed)
                      query
                      w.vectors)).1,
                evict_stale points tags sha256 table s evicts
                    (scan_points points tags sha256 table s now allowed (
                      points.query_points
                        (scope_hash points tags sha256 table s allowed)
                        query
                        w.vectors)).0
                    w,
              ))
          → IsServable now allowed w hit
      found true k = absurd_none k
        where
          absurd_none : ◌≡◌ {A = Option CacheHit} none (some hit) → IsServable now allowed w hit
          absurd_none k = cc
      found false k = servable now allowed query w hit k
