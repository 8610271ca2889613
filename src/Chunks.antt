-- ===== src/Chunks.antt =====
-- The chunk and page-hit dictionaries that the graph state carries (app/graph/nodes.py,
-- `retriever_node`). An id stands for its UUID; texts are lists of code points. The `score` entries
-- are left out: nothing that is modelled behind the retriever reads them.
use agentic_rag_claude_code.Prelude.{ℕ, Option, Text}

pub record Chunk : Type 0 where
  pub chunk_id : ℕ
  pub document_id : ℕ
  pub collection_id : ℕ
  pub chunk_type : Text
  pub page_number : Option ℕ
  pub section_title : Option Text
  pub content : Text
  pub file_name : Option Text
  pub image_uri : Option Text

pub record PageHit : Type 0 where
  pub point_id : ℕ
  pub document_id : ℕ
  pub collection_id : ℕ
  pub page_number : ℕ
  pub image_uri : Text
  pub file_name : Option Text
