-- ===== src/Tests/Context.antt =====
-- The assembler (app/context/assembler.py) and the fusion at concrete inputs.
use agentic_rag_claude_code.Prelude.{
  ℕ, ◌≡◌, refl, Option, none, some, List, [], ◌∷◌, Text, codes, inl, inr, arith, is_empty, false,
}
use agentic_rag_claude_code.Settings.{defaults}
use agentic_rag_claude_code.Chunks.{Chunk, PageHit}
use agentic_rag_claude_code.Context.Estimate.{estimate_tokens, truncate_to_budget}
use agentic_rag_claude_code.Context.Fusion.{chunk, page, rrf_merge}
use agentic_rag_claude_code.Context.Fusion.Interleave.{items, interleave, items-rrf_merge}
use agentic_rag_claude_code.Context.Assembler.{Candidate, empty_context, add_all, assemble}
use agentic_rag_claude_code.Context.Assembler.Budget.{IsWithin, assemble-IsWithin}
use agentic_rag_claude_code.Context.Assembler.Acl.{IsPermitted, assemble-IsPermitted}
use agentic_rag_claude_code.Context.Assembler.Gate.{add_all-packs}

abbrev text_chunk : ℕ → ℕ → Text → Chunk
text_chunk id collection content = record {
  chunk_id = id;
  document_id = id;
  collection_id = collection;
  chunk_type = codes "text";
  page_number = none;
  section_title = none;
  content = content;
  file_name = none;
  image_uri = none;
}

abbrev page_hit : ℕ → ℕ → PageHit
page_hit id collection = record {
  point_id = id;
  document_id = id;
  collection_id = collection;
  page_number = 1;
  image_uri = codes "s3://pages/1";
  file_name = none;
}

abbrev stored_object : Text → Option Text
stored_object uri = some (codes "aGk=")

abbrev own : Chunk
own = text_chunk 1 7 (codes "the town hall opens at eight")

abbrev secret : Chunk
secret = text_chunk 2 9 (codes "salaries")

abbrev late : Chunk
late = text_chunk 3 7 (codes "and closes at four")

abbrev found : List Chunk
found = own ∷ secret ∷ late ∷ []

abbrev hits : List PageHit
hits = page_hit 4 7 ∷ page_hit 5 9 ∷ []

items-rrf_merge_example : items (rrf_merge 60 found hits) ≡ interleave found hits
items-rrf_merge_example = items-rrf_merge 60 found hits

-- Two blocks and one page of collection 7; the chunk and the page of collection 9 are dropped.
assembled_blocks :
    (assemble stored_object defaults found hits (7 ∷ []) none none).blocks
    ≡ own.content ∷ late.content ∷ []
unfolding assemble estimate_tokens
assembled_blocks = refl

assembled_dropped : (assemble stored_object defaults found hits (7 ∷ []) none none).dropped_acl ≡ 2
unfolding assemble estimate_tokens
assembled_dropped = refl

-- With a budget of two tokens the first block is cut to seven characters.
assembled_cut :
    (assemble stored_object defaults found hits (7 ∷ []) (some 2) none).blocks
    ≡ codes "the tow" ∷ []
unfolding assemble estimate_tokens truncate_to_budget
assembled_cut = refl

assemble-IsPermitted_example :
    IsPermitted found hits (7 ∷ []) (assemble stored_object defaults found hits (7 ∷ []) none none)
assemble-IsPermitted_example =
    assemble-IsPermitted stored_object defaults found hits (7 ∷ []) none none

assemble-IsWithin_example :
    IsWithin 2 4 (assemble stored_object defaults found hits (7 ∷ []) (some 2) none)
assemble-IsWithin_example =
    assemble-IsWithin stored_object defaults found hits (7 ∷ []) (some 2) none (omega arith)

abbrev candidates : List Candidate
candidates = page (page_hit 5 9) ∷ chunk secret ∷ chunk own ∷ []

add_all-packs_example :
    is_empty (add_all stored_object (7 ∷ []) 2 4 empty_context candidates).packed_chunks ≡ false
add_all-packs_example =
    add_all-packs stored_object (7 ∷ []) 2 4 empty_context candidates own (inr (inr (inl refl)))
      (inl refl) (omega arith)
      (record { counted = refl; tokens = omega arith; images = omega arith; aligned = refl })
