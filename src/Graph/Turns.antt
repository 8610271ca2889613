-- ===== src/Graph/Turns.antt =====
-- Turns of one conversation: `initial` of app/api/chat.py resets the counters and no other entry of
-- the checkpoint, so what one turn left reaches the next.
use agentic_rag_claude_code.Graph.Termination.{turn-ends}
use agentic_rag_claude_code.Settings.{Settings}
use agentic_rag_claude_code.Graph.State.{GraphState, World}
use agentic_rag_claude_code.Graph.Services.{Services}
use agentic_rag_claude_code.Graph.Nodes
use agentic_rag_claude_code.Graph.Invariant.{Behind, run_rule}
use agentic_rag_claude_code.Graph.Builder.{
  Node, input_guard, semantic_cache, router, metadata_lookup, planner, retriever, retrieval_grader,
  rewrite, generator, hallucination_grader, retry_generation, finalize_answer, cache_writer,
  insufficient_answer, eval_queue, next, visit, initial, recursion_limit, turn,
}
use agentic_rag_claude_code.Prelude.{ℕ, ◌≡◌, refl, true, false, some, List, Text, arith, is_empty}
use agentic_rag_claude_code.Characters.{strip}
use agentic_rag_claude_code.Graph.Nodes.{search_query}

-- What the abstention of an earlier turn leaves standing.
pub record IsUnanswered (before : World) (visited : ℕ) (w : World) : Type 0 where
  pub nodes_visited : w.iterations ≡ visited
  pub still_insufficient : w.insufficient ≡ true
  pub old_answer : w.answer ≡ before.answer
  pub old_citations : w.citations ≡ before.citations
  pub nothing_stored : w.stored ≡ before.stored

module _ (s : Settings) (v : Services) (before : World) where
  abbrev At : Node → World → Type 0
  At input_guard w = IsUnanswered before 0 w × (is_empty (strip v.characters w.query) ≡ false)
  At eval_queue w = IsUnanswered before 1 w
  At _ w = ⊥

  keep :
      (n : Node) (w : World)
      → At n w
      → Behind At (IsUnanswered before 2) (visit s v n w) (next s n (visit s v n w).state)
  unfolding next visit Nodes.input_guard Nodes.eval_queue
  keep input_guard w h = ground arith
  keep eval_queue w h = ground arith
  keep semantic_cache w h = absurd h
  keep router w h = absurd h
  keep metadata_lookup w h = absurd h
  keep planner w h = absurd h
  keep retriever w h = absurd h
  keep retrieval_grader w h = absurd h
  keep rewrite w h = absurd h
  keep generator w h = absurd h
  keep hallucination_grader w h = absurd h
  keep retry_generation w h = absurd h
  keep finalize_answer w h = absurd h
  keep cache_writer w h = absurd h
  keep insufficient_answer w h = absurd h

-- After a turn that abstained, the thread is not answered any more. Whatever the message, unless it is
-- blank, and whatever the services would answer: the turn ends behind two nodes, the input guard and
-- the evaluation queue, still marked insufficient, with the answer and the citations of the turn
-- before, and nothing is stored.
pub turn_after_insufficient :
    (s : Settings) (v : Services) (message : Text) (allowed : List ℕ) (request_id : ℕ) (w : World)
    → w.insufficient ≡ true
    → is_empty (strip v.characters message) ≡ false
    → (w' : World) × (turn s v message allowed request_id w ≡ some w') × IsUnanswered w 2 w'
turn_after_insufficient s v message allowed request_id w stuck speaks =
    let (w', ends) = turn-ends s v message allowed request_id w in
    (
      w',
      ends,
      unfold turn initial in
          run_rule s v (At s v w) (IsUnanswered w 2) (keep s v w) (recursion_limit s) input_guard
            (record w { state = initial message allowed request_id w.state }) w'
            (
              record {
                nodes_visited = refl;
                still_insufficient = stuck;
                old_answer = refl;
                old_citations = refl;
                nothing_stored = refl;
              },
              speaks,
            )
            ends,
    )

-- A query that an earlier turn rewrote is what the next turn's first retrieval searches for: as long
-- as the checkpoint holds one, the text does not depend on the message.
search_query-initial :
    (s : Settings) (v : Services) (message : Text) (allowed : List ℕ) (request_id : ℕ)
    (checkpoint : GraphState)
    → is_empty checkpoint.rewritten_query ≡ false
    → search_query s v (initial message allowed request_id checkpoint) ≡ checkpoint.rewritten_query
unfolding search_query initial
search_query-initial s v message allowed request_id checkpoint kept = rw kept refl
