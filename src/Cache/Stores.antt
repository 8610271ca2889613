-- ===== src/Cache/Stores.antt =====
-- The vector database and the tag sets in Redis that app/retrieval/semantic_cache.py calls. They are
-- no part of the repository: records of their calls, with what they are documented to do as laws.
use agentic_rag_claude_code.Prelude.{
  ℕ, ◌≡◌, ◌≢◌, Bool, Option, none, some, List, Text, elem, ltb, In, ◌==◌, if◌then◌else◌,
}
use agentic_rag_claude_code.Citations.{Citation}

-- the payload of a point
pub record Entry : Type 0 where
  pub answer : Text
  pub query_text : Text
  pub collection_ids : List ℕ
  pub document_ids : List ℕ
  pub citations : List Citation
  pub scope_hash : ℕ
  pub created_at : ℕ

-- what a delete by filter leaves of a point
abbrev pub newer : ℕ → Option Entry → Option Entry
newer cutoff none = none
newer cutoff (some e) = if ltb e.created_at cutoff then none else some e

-- `entry s i` is the point i. `query_points` embeds the text, keeps the points of that scope hash
-- which are similar enough, and returns five of them at most; `count_older` counts the points that
-- `delete_older` deletes.
pub record Points : Type 1 where
  pub Store : Type 0
  pub entry : Store → ℕ → Option Entry
  pub collection_exists : Store → Bool
  pub ensure_collection : Store → Store
  pub query_points : ℕ → Text → Store → List (ℕ × Entry)
  pub upsert : ℕ → Text → Entry → Store → Store
  pub delete : List ℕ → Store → Store
  pub count_older : ℕ → Store → ℕ
  pub delete_older : ℕ → Store → Store
  pub entry-query_points :
      (hash : ℕ) (query : Text) (s : Store) (i : ℕ) (e : Entry)
      → In (i, e) (query_points hash query s)
      → entry s i ≡ some e
  pub hash-query_points :
      (hash : ℕ) (query : Text) (s : Store) (i : ℕ) (e : Entry)
      → In (i, e) (query_points hash query s)
      → e.scope_hash ≡ hash
  pub entry-ensure : (s : Store) (i : ℕ) → entry (ensure_collection s) i ≡ entry s i
  pub entry-upsert :
      (i j : ℕ) (query : Text) (e : Entry) (s : Store)
      → entry (upsert i query e s) j ≡ (if j == i then some e else entry s j)
  pub entry-delete :
      (ids : List ℕ) (s : Store) (i : ℕ)
      → entry (delete ids s) i ≡ (if elem i ids then none else entry s i)
  pub entry-delete_older :
      (cutoff : ℕ) (s : Store) (i : ℕ) → entry (delete_older cutoff s) i ≡ newer cutoff (entry s i)

-- cache:coll:<id> and cache:doc:<id>
pub data Tag : Type 0 where
  coll : ℕ → Tag
  doc : ℕ → Tag

pub record Tags : Type 1 where
  pub Store : Type 0
  pub smembers : Tag → Store → List ℕ
  pub sadd : Tag → ℕ → Store → Store
  pub delete : Tag → Store → Store
  pub sadd_keeps :
      (t u : Tag) (i j : ℕ) (s : Store) → In j (smembers u s) → In j (smembers u (sadd t i s))
  pub sadd_adds : (t : Tag) (i : ℕ) (s : Store) → In i (smembers t (sadd t i s))
  pub delete_other : (t u : Tag) (s : Store) → u ≢ t → smembers u (delete t s) ≡ smembers u s
