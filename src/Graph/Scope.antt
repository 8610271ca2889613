-- ===== src/Graph/Scope.antt =====
-- What a turn of the graph (app/graph/nodes.py) may cite: chunks of the collections that the asker may read.
use agentic_rag_claude_code.Prelude.{◌∙◌}
use agentic_rag_claude_code.Prelude.{if◌then◌else◌, ◌-◌}
use agentic_rag_claude_code.Settings.{Settings}
use agentic_rag_claude_code.Graph.State.{GraphState, World}
use agentic_rag_claude_code.Graph.Services.{Services}
use agentic_rag_claude_code.Graph.Nodes
use agentic_rag_claude_code.Graph.Invariant.{Behind, run_rule}
use agentic_rag_claude_code.Graph.Builder.{
  Node, input_guard, semantic_cache, router, metadata_lookup, planner, retriever, retrieval_grader,
  rewrite, generator, hallucination_grader, retry_generation, finalize_answer, cache_writer,
  insufficient_answer, eval_queue, next, visit, initial, recursion_limit, turn,
}
use agentic_rag_claude_code.Prelude.{
  ap, by_test, is_empty, ℕ, ◌≡◌, refl, sym, subst, true, none, some, List, [], Text, arith, All,
  All_of_In, All-In, In, In-get_elem?,
}
use agentic_rag_claude_code.Characters.{strip}
use agentic_rag_claude_code.Chunks.{Chunk}
use agentic_rag_claude_code.Citations.{Citation, citation_of}
use agentic_rag_claude_code.Citations.Sources.{IsSource, extract_citations-IsSource}
use agentic_rag_claude_code.Context.Assembler.Acl.{IsPart, IsPacked, assemble-IsPermitted}
use agentic_rag_claude_code.Graph.Nodes.{assembled}

-- The citation copies one of the chunks, with its content or what a truncation leaves of it, and the chunk
-- is of an allowed collection.
pub record IsFrom (allowed : List ℕ) (chunks : List Chunk) (c : Citation) : Type 0 where
  pub source : Chunk
  pub listed : In source chunks
  pub permitted : In source.collection_id allowed
  pub part : IsPart source.content c.content
  pub copied : c ≡ citation_of c.marker (record source { content = c.content })

abbrev AllFrom : List ℕ → List Chunk → List Citation → Type 0
AllFrom allowed chunks = All (IsFrom allowed chunks)

IsSource-IsFrom :
    (allowed : List ℕ) (chunks packed : List Chunk) (c : Citation)
    → All (IsPacked chunks allowed) packed
    → IsSource packed c
    → IsFrom allowed chunks c
IsSource-IsFrom allowed chunks packed c h src =
    let p =
      All-In _ src.source packed h (In-get_elem? packed (c.marker - 1) src.source src.stands_at) in
    record {
      source = p.candidate;
      listed = p.listed;
      permitted = p.permitted;
      part =
          subst (IsPart p.candidate.content) (sym (ap (λ (d : Citation). d.content) src.copied))
            p.part;
      copied =
          src.copied
          ∙ ap (λ k. citation_of c.marker k) p.same
          ∙ ap (λ t. citation_of c.marker (record p.candidate { content = t }))
              (sym (ap (λ (d : Citation). d.content) src.copied));
    }

module _ (s : Settings) (v : Services) where
  -- What `generator` cites.
  generator-AllFrom :
      (g : GraphState) → AllFrom g.allowed_collection_ids g.chunks (Nodes.generator s v g).citations
  unfolding Nodes.generator Nodes.assembled
  generator-AllFrom g =
      let packed = (assembled s v g).packed_chunks in
      All_of_In _ (Nodes.generator s v g).citations (λ c m.
        IsSource-IsFrom g.allowed_collection_ids g.chunks packed c
          (assemble-IsPermitted v.fetch s g.chunks g.page_hits g.allowed_collection_ids none
            (some (if s.llm_multimodal then s.context_max_images else 0))).packed
          (extract_citations-IsSource v.characters (Nodes.generator s v g).answer packed c m))

  allowed-generator :
      (g : GraphState) → (Nodes.generator s v g).allowed_collection_ids ≡ g.allowed_collection_ids
  unfolding Nodes.generator
  allowed-generator g = refl

-- The citations of a state, but for those that a cache hit brought.
pub data Cited (allowed : List ℕ) (w : World) : Type 0 where
  from_cache : w.cache_hit ≡ true → Cited allowed w
  from_scope : All (IsFrom allowed w.chunks) w.citations → Cited allowed w

module _ (s : Settings) (v : Services) (allowed : List ℕ) where
  abbrev Kept : World → Type 0
  Kept w = (w.allowed_collection_ids ≡ allowed) × AllFrom allowed w.chunks w.citations

  -- No citation stands at the entry; those of the generator stand behind it; in between they do not
  -- matter, as the generator writes them anew.
  abbrev At : Node → World → Type 0
  At input_guard w = (w.allowed_collection_ids ≡ allowed) × (w.citations ≡ [])
  At hallucination_grader w = Kept w
  At retry_generation w = Kept w
  At finalize_answer w = Kept w
  At cache_writer w = Kept w
  At eval_queue w = Cited allowed w
  At _ w = w.allowed_collection_ids ≡ allowed

  keep :
      (n : Node) (w : World)
      → At n w
      → Behind At (Cited allowed) (visit s v n w) (next s n (visit s v n w).state)
  unfolding next visit Nodes.input_guard Nodes.semantic_cache Nodes.router Nodes.metadata_lookup
      Nodes.planner Nodes.retriever Nodes.retrieval_grader Nodes.rewrite Nodes.hallucination_grader
      Nodes.retry_generation Nodes.finalize_answer Nodes.cache_writer Nodes.insufficient
      Nodes.eval_queue Nodes.generator
  keep input_guard w h =
      let g = Nodes.input_guard s v w.state in
      by_test (λ n. At n (record w { state = g })) g.insufficient
        (from_scope (
          subst (AllFrom allowed g.chunks)
            (sym (
              by_test (λ (g : GraphState). g.citations ≡ []) (is_empty (strip v.characters w.query))
                h.1 h.1))
            tt))
        (by_test (λ (g : GraphState). g.allowed_collection_ids ≡ allowed)
          (is_empty (strip v.characters w.query)) h.0 h.0)
  keep semantic_cache w h = ground arith
  keep router w h = ground arith
  keep metadata_lookup w h = ground arith
  keep planner w h = ground arith
  keep retriever w h = ground arith
  keep retrieval_grader w h = ground arith
  keep rewrite w h = ground arith
  keep generator w h = (
    allowed-generator s v w.state ∙ h,
    subst (λ a. AllFrom a w.chunks (Nodes.generator s v w.state).citations) h
        (generator-AllFrom s v w.state),
  )
  keep hallucination_grader w h = ground arith
  keep retry_generation w h = h.0
  keep finalize_answer w h = h
  keep cache_writer w h = from_scope h.1
  keep insufficient_answer w h = from_scope tt
  keep eval_queue w (from_cache c) = from_cache c
  keep eval_queue w (from_scope c) = from_scope c

-- On a thread whose checkpoint holds no citations, whatever the services answer: when a turn ends,
-- either the answer came from the cache, or every citation copies one of the chunks in the state of the
-- turn, with its content or what a truncation leaves of it, and this chunk is of a collection that the
-- asker was allowed when the turn began.
pub turn-Cited :
    (s : Settings) (v : Services) (message : Text) (allowed : List ℕ) (request_id : ℕ)
    (w w' : World)
    → w.citations ≡ []
    → turn s v message allowed request_id w ≡ some w'
    → Cited allowed w'
unfolding turn initial
turn-Cited s v message allowed request_id w w' none_yet e =
    run_rule s v (At s v allowed) (Cited allowed) (keep s v allowed) (recursion_limit s) input_guard
      (record w { state = initial message allowed request_id w.state }) w' (refl, none_yet) e
