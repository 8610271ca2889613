-- ===== src/Graph/Grounding.antt =====
-- How a turn of the graph may end: what app/graph/nodes.py answers, cites and caches.
use agentic_rag_claude_code.Prelude.{Bool-cases, ap, not, ◌&&◌}
use agentic_rag_claude_code.Prelude.{
  ℕ, ◌≡◌, refl, Bool, true, false, some, List, [], ◌∷◌, ◌++◌, Text, inl, inr, arith, is_empty,
}
use agentic_rag_claude_code.Settings.{Settings}
use agentic_rag_claude_code.Graph.State.{World, CacheWrite}
use agentic_rag_claude_code.Graph.Services.{Services}
use agentic_rag_claude_code.Graph.Nodes
use agentic_rag_claude_code.Graph.Nodes.{cache_write}
use agentic_rag_claude_code.Graph.Invariant.{Behind, run_rule}
use agentic_rag_claude_code.Graph.Builder.{
  Node, input_guard, semantic_cache, router, metadata_lookup, planner, retriever, retrieval_grader,
  rewrite, generator, hallucination_grader, retry_generation, finalize_answer, cache_writer,
  insufficient_answer, eval_queue, next, visit, initial, recursion_limit, turn,
}

-- The answer was in the cache, or the turn abstained, or the grader accepted the answer. Only an
-- accepted answer may have been stored, as the last entry, and then it is not empty.
pub data Outcome (stored : List CacheWrite) (w : World) : Type 0 where
  from_cache : w.cache_hit ≡ true → w.stored ≡ stored → Outcome stored w
  abstained : w.insufficient ≡ true → w.stored ≡ stored → Outcome stored w
  accepted : w.grounded ≡ true → w.insufficient ≡ false → w.stored ≡ stored → Outcome stored w
  accepted_and_stored :
      w.grounded ≡ true
      → w.insufficient ≡ false
      → is_empty w.answer ≡ false
      → w.stored ≡ stored ++ cache_write w.state ∷ []
      → Outcome stored w

pub record IsOpen (stored : List CacheWrite) (w : World) : Type 0 where
  pub same : w.stored ≡ stored
  pub open_yet : w.insufficient ≡ false

abbrev At : List CacheWrite → Node → World → Type 0
At stored finalize_answer w = IsOpen stored w × (w.grounded ≡ true)
At stored cache_writer w = IsOpen stored w × (w.grounded ≡ true)
At stored eval_queue w = Outcome stored w
At stored _ w = IsOpen stored w

module _ (s : Settings) (v : Services) (stored : List CacheWrite) where
  keep :
      (n : Node) (w : World)
      → At stored n w
      → Behind (At stored) (Outcome stored) (visit s v n w) (next s n (visit s v n w).state)
  unfolding next visit Nodes.input_guard Nodes.semantic_cache Nodes.router Nodes.metadata_lookup
      Nodes.planner Nodes.retriever Nodes.retrieval_grader Nodes.rewrite Nodes.generator
      Nodes.hallucination_grader Nodes.retry_generation Nodes.finalize_answer Nodes.cache_writer
      Nodes.insufficient Nodes.eval_queue
  keep input_guard w h = ground arith
  keep semantic_cache w h = ground arith
  keep router w h = ground arith
  keep metadata_lookup w h = ground arith
  keep planner w h = ground arith
  keep retriever w h = ground arith
  keep retrieval_grader w h = ground arith
  keep rewrite w h = ground arith
  keep generator w h = ground arith
  keep hallucination_grader w h = ground arith
  keep retry_generation w h = ground arith
  keep finalize_answer w h = ground arith
  keep cache_writer w h = elim (Bool-cases (writes w)) [
    | inl write ↦
        accepted_and_stored h.1 h.0.open_yet (ground arith)
          (rw write (ap (λ l. l ++ cache_write w.state ∷ []) h.0.same))
    | inr skip ↦ accepted h.1 h.0.open_yet (rw skip h.0.same)
  ]
    where
      writes : World → Bool
      writes w =
          not (is_empty w.answer)
          && not (is_empty w.chunks)
          && not w.insufficient
          && v.store_succeeds w.iterations (cache_write w.state)
  keep insufficient_answer w h = abstained refl h.same
  keep eval_queue w (from_cache c e) = from_cache c e
  keep eval_queue w (abstained c e) = abstained c e
  keep eval_queue w (accepted c i e) = accepted c i e
  keep eval_queue w (accepted_and_stored c i a e) = accepted_and_stored c i a e

-- A turn on a thread whose checkpoint is not marked insufficient ends in one of four ways, whatever
-- the services answer: with a cache hit, with an abstention, with an answer that the grader
-- accepted, or with such an answer that is not empty and was stored. Nothing else is stored, and
-- what is stored is the accepted answer with its citations under the query and the allowed collections of the final state.
pub turn-Outcome :
    (s : Settings) (v : Services) (message : Text) (allowed : List ℕ) (request_id : ℕ)
    (w w' : World)
    → w.insufficient ≡ false
    → turn s v message allowed request_id w ≡ some w'
    → Outcome w.stored w'
unfolding turn
turn-Outcome s v message allowed request_id w w' fresh e =
    run_rule s v (At w.stored) (Outcome w.stored) (keep s v w.stored) (recursion_limit s)
      input_guard (record w { state = initial message allowed request_id w.state }) w'
      (record { same = refl; open_yet = fresh }) e
