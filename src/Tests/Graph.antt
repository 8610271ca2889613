-- ===== src/Tests/Graph.antt =====
-- Turns of the graph (app/graph) with services that answer in a fixed way.
use agentic_rag_claude_code.Graph.NativeMarkers.{normalize_markers}
use agentic_rag_claude_code.Prelude.{
  ◌≡◌, refl, Bool, true, false, none, some, [], ◌∷◌, Text, codes, is_empty,
}
use mathlib.Core.Option
use agentic_rag_claude_code.Settings.{defaults}
use agentic_rag_claude_code.Characters.{ascii, strip}
use agentic_rag_claude_code.Chunks.{Chunk}
use agentic_rag_claude_code.Citations.{extract_citations, insufficient_answer}
use agentic_rag_claude_code.Context.Assembler.{assemble}
use agentic_rag_claude_code.Graph.State.{World, no_state}
use agentic_rag_claude_code.Graph.FollowUp.{is_follow_up}
use agentic_rag_claude_code.Graph.Router.{classify}
use agentic_rag_claude_code.Graph.Services.{Services}
use agentic_rag_claude_code.Graph.Nodes
use agentic_rag_claude_code.Graph.Nodes.{search_query}
use agentic_rag_claude_code.Graph.Builder.{next, visit, turn}
use agentic_rag_claude_code.Graph.Termination.{turn-ends}
use agentic_rag_claude_code.Graph.Grounding.{Outcome, turn-Outcome}
use agentic_rag_claude_code.Graph.Retries.{IsAsked, IsWithinRetries, turn-IsWithinRetries}
use agentic_rag_claude_code.Graph.Scope.{Cited, turn-Cited}
use agentic_rag_claude_code.Graph.Turns.{IsUnanswered, turn_after_insufficient}

-- "und in Kirchhain?" needs the turn before it; a question of its own does not.
follow_up_short : is_follow_up ascii (λ t. t) (codes "und in Kirchhain?") ≡ true
unfolding is_follow_up
follow_up_short = refl

follow_up_own :
    is_follow_up ascii (λ t. t) (codes "welche adresse hat das rathaus in marburg") ≡ false
unfolding is_follow_up
follow_up_own = refl

abbrev pub hours : Chunk
hours = record {
  chunk_id = 11;
  document_id = 1;
  collection_id = 7;
  chunk_type = codes "text";
  page_number = none;
  section_title = none;
  content = codes "the town hall opens at eight";
  file_name = none;
  image_uri = none;
}

-- One chunk is found, and it is judged relevant if `relevant` says so.
abbrev pub services : Bool → Services
services relevant = record {
  characters = ascii;
  lower = λ t. t;
  route_intent = λ i q. some (codes "text");
  plan = λ i q. q ∷ [];
  rewrite_query = λ i q. codes "opening hours";
  generate = λ i q blocks history images. codes "At eight [1] [4]";
  grade_relevance = λ i q contexts. relevant;
  grade_grounded = λ i a contexts. relevant;
  search = λ i allowed q. hours ∷ [];
  search_pages = λ i allowed q. [];
  lookup_documents = λ i allowed q. none;
  cache_lookup = λ i allowed q. none;
  store_succeeds = λ i write. true;
  push_succeeds = λ i. true;
  fetch = λ uri. none;
}

abbrev pub fresh : World
fresh = record { state = no_state; stored = []; queued = [] }

abbrev pub question : Text
question = codes "when does the town hall in marburg open"

-- The state in which a first turn ends.
abbrev pub end_of : Bool → World
end_of relevant = (turn-ends defaults (services relevant) question (7 ∷ []) 1 fresh).0

abbrev pub ends :
    (relevant : Bool)
    → turn defaults (services relevant) question (7 ∷ []) 1 fresh ≡ some (end_of relevant)
ends relevant = (turn-ends defaults (services relevant) question (7 ∷ []) 1 fresh).1

turn-ends_example :
    (w' : World) × (turn defaults (services true) question (7 ∷ []) 1 fresh ≡ some w')
turn-ends_example = turn-ends defaults (services true) question (7 ∷ []) 1 fresh

turn-Outcome_example : Outcome [] (end_of true)
turn-Outcome_example =
    turn-Outcome defaults (services true) question (7 ∷ []) 1 fresh (end_of true) refl (ends true)

turn-IsWithinRetries_example :
    IsAsked question (7 ∷ []) 1 (end_of false) × IsWithinRetries defaults (end_of false)
turn-IsWithinRetries_example =
    turn-IsWithinRetries defaults (services false) question (7 ∷ []) 1 fresh (end_of false)
      (ends false)

turn-Cited_example : Cited (7 ∷ []) (end_of true)
turn-Cited_example =
    turn-Cited defaults (services true) question (7 ∷ []) 1 fresh (end_of true) refl (ends true)

-- A thread whose last turn abstained.
abbrev abstained_thread : World
abstained_thread = record fresh {
  state = record no_state { insufficient = true; answer = insufficient_answer };
}

speaks : is_empty (strip ascii question) ≡ false
unfolding strip
speaks = refl

turn_after_insufficient_example :
    (w' : World) × (turn defaults (services true) question (7 ∷ []) 2 abstained_thread ≡ some w')
    × IsUnanswered abstained_thread 2 w'
turn_after_insufficient_example =
    turn_after_insufficient defaults (services true) question (7 ∷ []) 2 abstained_thread refl
      speaks

-- A relevant chunk: the answer, at the tenth node.
turn_answers :
    Option.map {B = Text}
      (λ (w : World). w.answer)
      (turn defaults (services true) question (7 ∷ []) 1 fresh)
    ≡ some (codes "At eight [1] [4]")
unfolding turn next visit Nodes.input_guard Nodes.semantic_cache Nodes.router Nodes.metadata_lookup
    Nodes.planner Nodes.retriever Nodes.retrieval_grader Nodes.rewrite Nodes.generator
    Nodes.hallucination_grader Nodes.retry_generation Nodes.finalize_answer Nodes.cache_writer
    Nodes.insufficient Nodes.eval_queue assemble extract_citations strip is_follow_up classify
    normalize_markers
turn_answers = refl

-- No relevant chunk and no grounded answer: the turn abstains.
turn_abstains :
    Option.map {B = Bool}
      (λ (w : World). w.insufficient)
      (turn defaults (services false) question (7 ∷ []) 1 fresh)
    ≡ some true
unfolding turn next visit Nodes.input_guard Nodes.semantic_cache Nodes.router Nodes.metadata_lookup
    Nodes.planner Nodes.retriever Nodes.retrieval_grader Nodes.rewrite Nodes.generator
    Nodes.hallucination_grader Nodes.retry_generation Nodes.finalize_answer Nodes.cache_writer
    Nodes.insufficient Nodes.eval_queue assemble extract_citations strip is_follow_up classify
    normalize_markers
turn_abstains = refl
