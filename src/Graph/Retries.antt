-- ===== src/Graph/Retries.antt =====
-- The retry loops of the graph (app/graph/builder.py) keep to their limits, and what a turn was asked stays as it was.
use agentic_rag_claude_code.Settings.{Settings}
use agentic_rag_claude_code.Graph.State.{World}
use agentic_rag_claude_code.Graph.Services.{Services}
use agentic_rag_claude_code.Graph.Nodes
use agentic_rag_claude_code.Graph.Invariant.{Behind, run_rule}
use agentic_rag_claude_code.Graph.Builder.{
  Node, input_guard, semantic_cache, router, metadata_lookup, planner, retriever, retrieval_grader,
  rewrite, generator, hallucination_grader, retry_generation, finalize_answer, cache_writer,
  insufficient_answer, eval_queue, next, visit, initial, recursion_limit, turn,
}
use agentic_rag_claude_code.Prelude.{ℕ, ◌≤◌, ◌<◌, ◌≡◌, refl, some, List, Text, arith}

pub record IsAsked (query : Text) (allowed : List ℕ) (request_id : ℕ) (w : World) : Type 0 where
  pub query_kept : w.query ≡ query
  pub scope_kept : w.allowed_collection_ids ≡ allowed
  pub request_kept : w.request_id ≡ request_id

pub record IsWithinRetries (s : Settings) (w : World) : Type 0 where
  pub retrieval : w.retrieval_retries ≤ s.max_retrieval_retries
  pub generation : w.generation_retries ≤ s.max_generation_retries

-- What the node still adds to a counter has room.
abbrev Room : Settings → Node → World → Type 0
Room s rewrite w =
    (w.retrieval_retries < s.max_retrieval_retries)
    × (w.generation_retries ≤ s.max_generation_retries)
Room s retry_generation w =
    (w.retrieval_retries ≤ s.max_retrieval_retries)
    × (w.generation_retries < s.max_generation_retries)
Room s _ w = IsWithinRetries s w

module _ (s : Settings) (v : Services) (query : Text) (allowed : List ℕ) (request_id : ℕ) where
  abbrev At : Node → World → Type 0
  At n w = IsAsked query allowed request_id w × Room s n w

  abbrev Post : World → Type 0
  Post w = IsAsked query allowed request_id w × IsWithinRetries s w

  keep :
      (n : Node) (w : World)
      → At n w
      → Behind At Post (visit s v n w) (next s n (visit s v n w).state)
  unfolding next visit Nodes.input_guard Nodes.semantic_cache Nodes.router Nodes.metadata_lookup
      Nodes.planner Nodes.retriever Nodes.retrieval_grader Nodes.rewrite Nodes.generator
      Nodes.hallucination_grader Nodes.retry_generation Nodes.finalize_answer Nodes.cache_writer
      Nodes.insufficient Nodes.eval_queue
  keep input_guard w h = ground arith
  keep semantic_cache w h = ground arith
  keep router w h = ground arith
  keep metadata_lookup w h = ground arith
  keep planner w h = ground arith
  keep retriever w h = ground arith
  keep retrieval_grader w h = ground arith
  keep rewrite w h = ground arith
  keep generator w h = ground arith
  keep hallucination_grader w h = ground arith
  keep retry_generation w h = ground arith
  keep finalize_answer w h = ground arith
  keep cache_writer w h = ground arith
  keep insufficient_answer w h = ground arith
  keep eval_queue w h = ground arith

-- When a turn ends, the query, the allowed collections and the request are those that it was asked
-- with, and neither retry counter has passed its limit.
pub turn-IsWithinRetries :
    (s : Settings) (v : Services) (message : Text) (allowed : List ℕ) (request_id : ℕ)
    (w w' : World)
    → turn s v message allowed request_id w ≡ some w'
    → IsAsked message allowed request_id w' × IsWithinRetries s w'
unfolding turn initial
turn-IsWithinRetries s v message allowed request_id w w' e =
    run_rule s v (At s v message allowed request_id) (Post s v message allowed request_id)
      (keep s v message allowed request_id) (recursion_limit s) input_guard
      (record w { state = initial message allowed request_id w.state }) w'
      (
        record { query_kept = refl; scope_kept = refl; request_kept = refl },
        record { retrieval = omega arith; generation = omega arith },
      )
      e
