-- ===== src/Graph/Nodes.antt =====
-- `Nodes` of app/graph/nodes.py: each node's update, merged into the state as the graph merges it
-- (`messages` is appended to, any other entry replaced).
use mathlib.Core.List.{map}
use agentic_rag_claude_code.Prelude.{
  ℕ, ◌+◌, true, false, not, ◌&&◌, Option, none, some, List, [], ◌∷◌, ◌++◌, Text, codes, text_eq,
  is_empty, length, if◌then◌else◌,
}
use agentic_rag_claude_code.Settings.{Settings}
use agentic_rag_claude_code.Characters.{strip}
use agentic_rag_claude_code.Chunks.{Chunk, PageHit}
use agentic_rag_claude_code.Context.Assembler.{AssembledContext, assemble}
use agentic_rag_claude_code.Citations.{Citation, insufficient_answer, extract_citations, sorted_set}
use agentic_rag_claude_code.Graph.State.{
  GraphState, user, assistant, Message, visual, World, CacheWrite, EvalJob,
}
use agentic_rag_claude_code.Graph.FollowUp.{is_follow_up}
use agentic_rag_claude_code.Graph.NativeMarkers.{normalize_markers}
use agentic_rag_claude_code.Graph.Router.{classify}
use agentic_rag_claude_code.Graph.Services.{Services, CacheHit}

abbrev says : Text → List Message
says content = record { role = assistant; content = content } ∷ []

-- The citation of a legacy cache entry is {"document_id": ...}.
abbrev bare_citation : ℕ → Citation
bare_citation d = record {
  is_bare = true;
  marker = 0;
  document_id = d;
  chunk_id = 0;
  page_number = none;
  chunk_type = [];
  file_name = none;
  section_title = none;
  content = [];
  image_uri = none;
}

-- `xs[:-1]`
abbrev pub without_last {ℓ} : {A : Type ℓ} → List A → List A
without_last [] = []
without_last (x ∷ []) = []
without_last (x ∷ y ∷ xs) = x ∷ without_last (y ∷ xs)

abbrev user_contents : List Message → List Text
user_contents [] = []
user_contents (m ∷ ms) = elim m.role [
  | user ↦ m.content ∷ user_contents ms
  | assistant ↦ user_contents ms
]

-- f"{prior[-1]} {query}" if there is a turn before
abbrev prepend_last : List Text → Text → Text
prepend_last [] query = query
prepend_last (p ∷ []) query = p ++ (32 ∷ query)
prepend_last (p ∷ p' ∷ ps) query = prepend_last (p' ∷ ps) query

abbrev contents : List Chunk → List Text
contents = map (λ c. c.content)

unfoldable pub cache_write : GraphState → CacheWrite
cache_write g = record {
  query = g.query;
  answer = g.answer;
  source_collection_ids = map (λ c. c.collection_id) g.chunks;
  source_document_ids = map (λ c. c.document_id) g.chunks;
  requester_scope = g.allowed_collection_ids;
  citations = g.citations;
}

eval_job : GraphState → EvalJob
eval_job g = record {
  request_id = g.request_id;
  query = g.query;
  answer = g.answer;
  route = g.route;
  cache_hit = g.cache_hit;
  contexts = contents g.chunks;
  retrieved_document_ids = sorted_set (map (λ c. c.document_id) g.chunks);
  citations = g.citations;
  insufficient = g.insufficient;
}

module _ (s : Settings) (v : Services) where
  unfoldable pub input_guard : GraphState → GraphState
  input_guard g =
      if is_empty (strip v.characters g.query)
      then record g {
        iterations = g.iterations + 1;
        insufficient = true;
        answer = codes "Empty query.";
        messages = g.messages ++ says (codes "Empty query.");
      }
      else record g { iterations = g.iterations + 1 }

  cached : GraphState → Option CacheHit → GraphState
  cached g none = record g { iterations = g.iterations + 1; cache_hit = false }
  cached g (some hit) = record g {
    iterations = g.iterations + 1;
    cache_hit = true;
    answer = hit.answer;
    citations =
        if is_empty hit.citations then map bare_citation hit.document_ids else hit.citations;
    messages = g.messages ++ says hit.answer;
  }

  unfoldable pub semantic_cache : GraphState → GraphState
  unfolding cached
  semantic_cache g = cached g (
      if is_empty g.allowed_collection_ids
      then none
      else v.cache_lookup g.iterations g.allowed_collection_ids g.query)

  unfoldable pub router : GraphState → GraphState
  router g =
      let decision = classify v.characters (v.route_intent g.iterations) g.query in
      record g {
        iterations = g.iterations + 1;
        intent = decision.intent;
        intent_source = some decision.source;
        route = some decision.intent;
      }

  found : Option (List Chunk) → List Chunk
  found none = []
  found (some chunks) = chunks

  unfoldable pub metadata_lookup : GraphState → GraphState
  unfolding found
  metadata_lookup g = record g {
    iterations = g.iterations + 1;
    chunks =
        if is_empty g.allowed_collection_ids
        then []
        else found (v.lookup_documents g.iterations g.allowed_collection_ids g.query);
  }

  unfoldable pub planner : GraphState → GraphState
  planner g = record g { iterations = g.iterations + 1; plan = v.plan g.iterations g.query }

  -- the text that `retriever_node` searches for
  unfoldable pub search_query : GraphState → Text
  search_query g =
      let query = if is_empty g.rewritten_query then g.query else g.rewritten_query in
      if is_empty g.rewritten_query && is_follow_up v.characters v.lower query
      then prepend_last (without_last (user_contents g.messages)) query
      else query

  pages_for : GraphState → List PageHit
  unfolding search_query
  pages_for g = elim g.intent [
    | visual ↦
        if is_empty g.allowed_collection_ids
        then []
        else v.search_pages g.iterations g.allowed_collection_ids (search_query g)
    | _ ↦ []
  ]

  unfoldable pub retriever : GraphState → GraphState
  unfolding pages_for
  retriever g = record g {
    iterations = g.iterations + 1;
    page_hits = pages_for g;
    chunks =
        if is_empty g.allowed_collection_ids
        then []
        else v.search g.iterations g.allowed_collection_ids (search_query g);
  }

  unfoldable pub retrieval_grader : GraphState → GraphState
  retrieval_grader g = record g {
    iterations = g.iterations + 1;
    relevance_ok =
        not (is_empty g.chunks) && v.grade_relevance g.iterations g.query (contents g.chunks);
  }

  unfoldable pub rewrite : GraphState → GraphState
  rewrite g = record g {
    iterations = g.iterations + 1;
    retrieval_retries = g.retrieval_retries + 1;
    rewritten_query = v.rewrite_query g.iterations g.query;
  }

  -- the assembled context of `generator`
  unfoldable pub assembled : GraphState → AssembledContext
  assembled g =
      assemble v.fetch s g.chunks g.page_hits g.allowed_collection_ids none
        (some (if s.llm_multimodal then s.context_max_images else 0))

  -- Every message is of the user or the assistant, so the filter on the roles keeps all.
  unfoldable pub generator : GraphState → GraphState
  unfolding assembled
  generator g =
      let context = assembled g in
      let raw =
        v.generate g.iterations g.query context.blocks (without_last g.messages)
          (map (λ image. image.b64) context.images) in
      let answer = normalize_markers v.characters raw in
      record g {
        iterations = g.iterations + 1;
        answer = answer;
        citations = extract_citations v.characters answer context.packed_chunks;
        context_tokens = context.token_count;
        context_images = length context.images;
      }

  unfoldable pub hallucination_grader : GraphState → GraphState
  hallucination_grader g =
      let answer = strip v.characters g.answer in
      record g {
        iterations = g.iterations + 1;
        grounded =
            if s.hallucination_check_enabled
            then v.grade_grounded g.iterations answer (contents g.chunks)
            else not (is_empty answer) && not (text_eq answer insufficient_answer);
      }

  unfoldable pub retry_generation : GraphState → GraphState
  retry_generation g = record g {
    iterations = g.iterations + 1;
    generation_retries = g.generation_retries + 1;
  }

  unfoldable pub insufficient : GraphState → GraphState
  insufficient g = record g {
    iterations = g.iterations + 1;
    insufficient = true;
    answer = insufficient_answer;
    citations = [];
    messages = g.messages ++ says insufficient_answer;
  }

  unfoldable pub finalize_answer : GraphState → GraphState
  finalize_answer g = record g {
    iterations = g.iterations + 1;
    messages = g.messages ++ says g.answer;
  }

  -- a store that raises is only logged
  unfoldable pub cache_writer : World → World
  unfolding cache_write
  cache_writer w =
      let write = cache_write w.state in
      record w {
        state = record w.state { iterations = w.iterations + 1 };
        stored =
            if not (is_empty w.answer)
              && not (is_empty w.chunks)
              && not w.insufficient
              && v.store_succeeds w.iterations write
            then w.stored ++ write ∷ []
            else w.stored;
      }

  unfoldable pub eval_queue : World → World
  unfolding eval_job
  eval_queue w = record w {
    state = record w.state { iterations = w.iterations + 1 };
    queued =
        if s.eval_enabled && v.push_succeeds w.iterations
        then w.queued ++ eval_job w.state ∷ []
        else w.queued;
  }
