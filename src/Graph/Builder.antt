-- ===== src/Graph/Builder.antt =====
-- `build_graph` of app/graph/builder.py: the nodes, the edges and the conditions on them, the run of
-- the compiled graph, and the turn that app/api/chat.py starts.
use agentic_rag_claude_code.Prelude.{
  ℕ, zero, suc, ◌+◌, ◌*◌, Bool, Option, none, some, List, [], ◌∷◌, ◌++◌, Text, is_empty, leb, ltb,
  if◌then◌else◌,
}
use agentic_rag_claude_code.Settings.{Settings}
use agentic_rag_claude_code.Graph.State.{
  GraphState, user, Intent, text, visual, metadata, multi_doc, World,
}
use agentic_rag_claude_code.Graph.Services.{Services}
use agentic_rag_claude_code.Graph.Nodes

pub data Node : Type 0 where
  input_guard semantic_cache router metadata_lookup planner retriever retrieval_grader rewrite :
      Node
  generator hallucination_grader retry_generation finalize_answer cache_writer : Node
  insufficient_answer eval_queue : Node

abbrev pub over_budget : Settings → GraphState → Bool
over_budget s g = leb s.max_graph_iterations g.iterations

abbrev pub after_input : GraphState → Node
after_input g = if g.insufficient then eval_queue else semantic_cache

abbrev pub after_cache : GraphState → Node
after_cache g = if g.cache_hit then eval_queue else router

abbrev intent_node : Intent → Node
intent_node multi_doc = planner
intent_node metadata = metadata_lookup
intent_node text = retriever
intent_node visual = retriever

module _ (s : Settings) where
  abbrev pub after_router : GraphState → Node
  after_router g = if over_budget s g then insufficient_answer else intent_node g.intent

  abbrev pub after_metadata : GraphState → Node
  after_metadata g =
      if over_budget s g
      then insufficient_answer
      else if is_empty g.chunks
      then retriever
      else generator

  abbrev pub after_grade : GraphState → Node
  after_grade g =
      if over_budget s g
      then insufficient_answer
      else if g.relevance_ok
      then generator
      else if ltb g.retrieval_retries s.max_retrieval_retries
      then rewrite
      else if is_empty g.chunks
      then insufficient_answer
      else generator

  abbrev pub after_halluc : GraphState → Node
  after_halluc g =
      if over_budget s g
      then insufficient_answer
      else if g.grounded
      then finalize_answer
      else if ltb g.generation_retries s.max_generation_retries
      then retry_generation
      else insufficient_answer

  -- the edges; `none` is END
  unfoldable pub next : Node → GraphState → Option Node
  next input_guard g = some (after_input g)
  next semantic_cache g = some (after_cache g)
  next router g = some (after_router g)
  next metadata_lookup g = some (after_metadata g)
  next planner g = some retriever
  next retriever g = some retrieval_grader
  next retrieval_grader g = some (after_grade g)
  next rewrite g = some retriever
  next generator g = some hallucination_grader
  next hallucination_grader g = some (after_halluc g)
  next retry_generation g = some generator
  next finalize_answer g = some cache_writer
  next cache_writer g = some eval_queue
  next insufficient_answer g = some eval_queue
  next eval_queue g = none

-- to END, or on to the next node
abbrev pub proceed : (Node → World → Option World) → World → Option Node → Option World
proceed go w none = some w
proceed go w (some n) = go n w

module _ (s : Settings) (v : Services) where
  abbrev on_state : (GraphState → GraphState) → World → World
  on_state f w = record w { state = f w.state }

  -- the function that `add_node` binds to each node
  unfoldable pub visit : Node → World → World
  visit input_guard = on_state (Nodes.input_guard s v)
  visit semantic_cache = on_state (Nodes.semantic_cache s v)
  visit router = on_state (Nodes.router s v)
  visit metadata_lookup = on_state (Nodes.metadata_lookup s v)
  visit planner = on_state (Nodes.planner s v)
  visit retriever = on_state (Nodes.retriever s v)
  visit retrieval_grader = on_state (Nodes.retrieval_grader s v)
  visit rewrite = on_state (Nodes.rewrite s v)
  visit generator = on_state (Nodes.generator s v)
  visit hallucination_grader = on_state (Nodes.hallucination_grader s v)
  visit retry_generation = on_state (Nodes.retry_generation s v)
  visit finalize_answer = on_state (Nodes.finalize_answer s v)
  visit cache_writer = Nodes.cache_writer s v
  visit insufficient_answer = on_state (Nodes.insufficient s v)
  visit eval_queue = Nodes.eval_queue s v

  -- One node after the other, to END; `none` where the recursion limit `fuel` is used up.
  unfoldable pub run : ℕ → Node → World → Option World
  run zero n w = none
  run (suc fuel) n w = proceed (run fuel) (visit n w) (next s n (visit n w).state)

-- The input of a turn, merged over the thread's checkpoint.
unfoldable pub initial : Text → List ℕ → ℕ → GraphState → GraphState
initial message allowed request_id checkpoint = record checkpoint {
  messages = checkpoint.messages ++ (record { role = user; content = message }) ∷ [];
  query = message;
  allowed_collection_ids = allowed;
  request_id = request_id;
  iterations = 0;
  retrieval_retries = 0;
  generation_retries = 0;
}

-- "recursion_limit": max_graph_iterations * 3 + 10
abbrev pub recursion_limit : Settings → ℕ
recursion_limit s = s.max_graph_iterations * 3 + 10

-- `graph.invoke(initial, config)` on a thread with that checkpoint
unfoldable pub turn : Settings → Services → Text → List ℕ → ℕ → World → Option World
unfolding run initial
turn s v message allowed request_id w =
    run s v (recursion_limit s) input_guard
      (record w { state = initial message allowed request_id w.state })
