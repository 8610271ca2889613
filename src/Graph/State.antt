-- ===== src/Graph/State.antt =====
-- GraphState of app/graph/state.py. A key that is absent reads as `state.get` reads it in the nodes:
-- an empty text, an empty list, False or 0. The latency entries are left out: they are only reported.
-- The two lists of `World` are what a run writes outside its state: the semantic cache and the queue
-- of the evaluation worker.
use agentic_rag_claude_code.Prelude.{ℕ, Bool, false, Option, none, List, [], Text}
use agentic_rag_claude_code.Chunks.{Chunk, PageHit}
use agentic_rag_claude_code.Citations.{Citation}

pub data MessageRole : Type 0 where
  user assistant : MessageRole

pub record Message : Type 0 where
  pub role : MessageRole
  pub content : Text

pub data Intent : Type 0 where
  text visual metadata multi_doc : Intent

pub data IntentSource : Type 0 where
  llm fallback : IntentSource

pub record GraphState : Type 0 where
  pub messages : List Message
  pub query : Text
  pub allowed_collection_ids : List ℕ
  pub request_id : ℕ
  pub rewritten_query : Text
  pub intent : Intent
  pub intent_source : Option IntentSource
  pub route : Option Intent
  pub plan : List Text
  pub chunks : List Chunk
  pub page_hits : List PageHit
  pub answer : Text
  pub citations : List Citation
  pub context_tokens : ℕ
  pub context_images : ℕ
  pub cache_hit : Bool
  pub relevance_ok : Bool
  pub grounded : Bool
  pub insufficient : Bool
  pub retrieval_retries : ℕ
  pub generation_retries : ℕ
  pub iterations : ℕ

-- The state of a thread that has no checkpoint.
abbrev pub no_state : GraphState
no_state = record {
  messages = [];
  query = [];
  allowed_collection_ids = [];
  request_id = 0;
  rewritten_query = [];
  intent = text;
  intent_source = none;
  route = none;
  plan = [];
  chunks = [];
  page_hits = [];
  answer = [];
  citations = [];
  context_tokens = 0;
  context_images = 0;
  cache_hit = false;
  relevance_ok = false;
  grounded = false;
  insufficient = false;
  retrieval_retries = 0;
  generation_retries = 0;
  iterations = 0;
}

-- What `cache_writer` hands to `SemanticCache.store`.
pub record CacheWrite : Type 0 where
  pub query : Text
  pub answer : Text
  pub source_collection_ids : List ℕ
  pub source_document_ids : List ℕ
  pub requester_scope : List ℕ
  pub citations : List Citation

-- What `eval_queue` pushes.
pub record EvalJob : Type 0 where
  pub request_id : ℕ
  pub query : Text
  pub answer : Text
  pub route : Option Intent
  pub cache_hit : Bool
  pub contexts : List Text
  pub retrieved_document_ids : List ℕ
  pub citations : List Citation
  pub insufficient : Bool

pub record World : Type 0 where
  pub state : GraphState
  pub open state use *
  pub stored : List CacheWrite
  pub queued : List EvalJob
