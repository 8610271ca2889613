-- ===== src/Graph/Services.antt =====
-- What `Nodes` of app/graph/nodes.py is given: the language model, the retrievers, the cache, the
-- database lookup and the object store. Each call also gets the iteration that it is made in, so that
-- a service may answer the same call differently each time.
use agentic_rag_claude_code.Prelude.{ℕ, Bool, Option, List, Text}
use agentic_rag_claude_code.Characters.{CharTable}
use agentic_rag_claude_code.Chunks.{Chunk, PageHit}
use agentic_rag_claude_code.Citations.{Citation}
use agentic_rag_claude_code.Graph.State.{Message, CacheWrite}

-- CacheHit, as far as the nodes read it.
pub record CacheHit : Type 0 where
  pub answer : Text
  pub document_ids : List ℕ
  pub citations : List Citation

pub record Services : Type 0 where
  pub characters : CharTable
  pub lower : Text → Text
  pub route_intent : ℕ → Text → Option Text
  pub plan : ℕ → Text → List Text
  pub rewrite_query : ℕ → Text → Text
  pub generate : ℕ → Text → List Text → List Message → List Text → Text
  pub grade_relevance : ℕ → Text → List Text → Bool
  pub grade_grounded : ℕ → Text → List Text → Bool
  pub search : ℕ → List ℕ → Text → List Chunk
  pub search_pages : ℕ → List ℕ → Text → List PageHit
  pub lookup_documents : ℕ → List ℕ → Text → Option (List Chunk)
  pub cache_lookup : ℕ → List ℕ → Text → Option CacheHit
  pub store_succeeds : ℕ → CacheWrite → Bool
  pub push_succeeds : ℕ → Bool
  pub fetch : Text → Option Text
