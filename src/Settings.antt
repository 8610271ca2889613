-- ===== src/Settings.antt =====
-- app/config.py: the settings that the modelled code reads. `chunk_overlap_ratio` (0.15) is kept in
-- percent; the durations are whole seconds.
use agentic_rag_claude_code.Prelude.{ℕ, Bool, true, false}

pub record Settings : Type 0 where
  pub llm_multimodal : Bool
  pub eval_enabled : Bool
  pub chunk_target_chars : ℕ
  pub chunk_overlap_chars : ℕ
  pub chunk_min_tokens : ℕ
  pub chunk_max_tokens : ℕ
  pub chunk_overlap_percent : ℕ
  pub table_row_serialize_threshold : ℕ
  pub retrieval_top_k : ℕ
  pub retrieval_top_n : ℕ
  pub context_token_budget : ℕ
  pub context_max_images : ℕ
  pub fusion_rrf_k : ℕ
  pub metadata_max_documents : ℕ
  pub semantic_cache_ttl_s : ℕ
  pub max_graph_iterations : ℕ
  pub max_retrieval_retries : ℕ
  pub max_generation_retries : ℕ
  pub hallucination_check_enabled : Bool
  pub max_indexing_retries : ℕ
  pub per_user_max_inflight : ℕ
  pub per_user_requests_per_min : ℕ
  pub global_max_inflight : ℕ
  pub access_token_ttl_min : ℕ
  pub refresh_token_ttl_days : ℕ

abbrev pub defaults : Settings
defaults = record {
  llm_multimodal = false;
  eval_enabled = true;
  chunk_target_chars = 1200;
  chunk_overlap_chars = 150;
  chunk_min_tokens = 350;
  chunk_max_tokens = 600;
  chunk_overlap_percent = 15;
  table_row_serialize_threshold = 8;
  retrieval_top_k = 20;
  retrieval_top_n = 5;
  context_token_budget = 3000;
  context_max_images = 4;
  fusion_rrf_k = 60;
  metadata_max_documents = 10;
  semantic_cache_ttl_s = 86400;
  max_graph_iterations = 25;
  max_retrieval_retries = 2;
  max_generation_retries = 1;
  hallucination_check_enabled = true;
  max_indexing_retries = 3;
  per_user_max_inflight = 3;
  per_user_requests_per_min = 60;
  global_max_inflight = 40;
  access_token_ttl_min = 15;
  refresh_token_ttl_days = 7;
}
