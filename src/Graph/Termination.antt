-- ===== src/Graph/Termination.antt =====
-- Every turn of the graph (app/graph/builder.py) ends, within the recursion limit that
-- app/api/chat.py sets.
use agentic_rag_claude_code.Prelude.{Option-cases, inl, inr}
use agentic_rag_claude_code.Prelude.{
  ℕ, zero, suc, ◌+◌, ◌-◌, ◌*◌, ◌≤◌, ◌<◌, ◌≡◌, refl, some, List, Text, arith,
}
use agentic_rag_claude_code.Settings.{Settings}
use agentic_rag_claude_code.Graph.State.{GraphState, World}
use agentic_rag_claude_code.Graph.Services.{Services}
use agentic_rag_claude_code.Graph.Nodes
use agentic_rag_claude_code.Graph.Builder.{
  Node, input_guard, semantic_cache, router, metadata_lookup, planner, retriever, retrieval_grader,
  rewrite, generator, hallucination_grader, retry_generation, finalize_answer, cache_writer,
  insufficient_answer, eval_queue, next, visit, run, initial, recursion_limit, turn,
}

-- How far a node is from END once the iterations are used up.
pub weight : Node → ℕ
weight input_guard = 9
weight semantic_cache = 8
weight router = 7
weight metadata_lookup = 6
weight planner = 5
weight rewrite = 5
weight retry_generation = 5
weight retriever = 4
weight generator = 4
weight retrieval_grader = 3
weight hallucination_grader = 3
weight finalize_answer = 3
weight cache_writer = 2
weight insufficient_answer = 2
weight eval_queue = 1

module _ (s : Settings) (v : Services) where
  pub remaining : Node → GraphState → ℕ
  unfolding weight
  remaining n g = 3 * (s.max_graph_iterations - g.iterations) + weight n

  -- Every node counts one iteration.
  pub iterations-visit : (n : Node) (w : World) → (visit s v n w).iterations ≡ w.iterations + 1
  unfolding visit Nodes.input_guard Nodes.semantic_cache Nodes.router Nodes.metadata_lookup
      Nodes.planner Nodes.retriever Nodes.retrieval_grader Nodes.rewrite Nodes.generator
      Nodes.hallucination_grader Nodes.retry_generation Nodes.finalize_answer Nodes.cache_writer
      Nodes.insufficient Nodes.eval_queue
  iterations-visit input_guard w = ground arith
  iterations-visit semantic_cache w = ground arith
  iterations-visit n w = refl

  remaining_pos : (n : Node) (g : GraphState) → 1 ≤ remaining n g
  unfolding remaining
  remaining_pos input_guard g = omega arith
  remaining_pos n g = omega arith

  remaining-next :
      (n n' : Node) (before after : GraphState)
      → after.iterations ≡ before.iterations + 1
      → next s n after ≡ some n'
      → remaining n' after < remaining n before
  unfolding next remaining
  remaining-next router n' before after e h = ground arith
  remaining-next n n' before after e h = ground arith

  -- From any node, fuel for the remaining steps brings the run to END.
  pub run-ends :
      (fuel : ℕ) (n : Node) (w : World)
      → remaining n w.state ≤ fuel
      → (w' : World) × (run s v fuel n w ≡ some w')
  unfolding run
  run-ends zero n w h = absurd (omega (arith, remaining_pos n w.state))
  run-ends (suc fuel) n w h = elim (Option-cases (next s n (visit s v n w).state)) [
    | inl end ↦ (visit s v n w, rw end refl)
    | inr (n', e) ↦ rw e (
        run-ends fuel n' (visit s v n w) (
          omega
            (arith, remaining-next n n' w.state (visit s v n w).state (iterations-visit n w) e)))
  ]

-- Whatever the settings, the services' answers, the message and the checkpoint of the thread, a turn
-- reaches END within the recursion limit of 3 * max_graph_iterations + 10 nodes.
pub turn-ends :
    (s : Settings) (v : Services) (message : Text) (allowed : List ℕ) (request_id : ℕ) (w : World)
    → (w' : World) × (turn s v message allowed request_id w ≡ some w')
unfolding turn remaining
turn-ends s v message allowed request_id w =
    run-ends s v (recursion_limit s) input_guard
      (record w { state = initial message allowed request_id w.state }) (omega arith)
