-- ===== src/Context/Assembler/Budget.antt =====
-- The budgets of `assemble` (app/context/assembler.py): tokens, page images, and what it counts.
use agentic_rag_claude_code.Context.Fusion.Interleave.{items}
use agentic_rag_claude_code.Context.Fusion.{rrf_merge}
use mathlib.Core.List.{map-append}
use agentic_rag_claude_code.Prelude.{
  ℕ, ◌+◌, ◌≤◌, ◌≡◌, refl, Option, List, [], ◌∷◌, ◌++◌, Text, length, map, length-append, arith,
  get_or_else,
}
use agentic_rag_claude_code.Settings.{Settings}
use agentic_rag_claude_code.Chunks.{Chunk, PageHit}
use agentic_rag_claude_code.Context.Estimate.{
  estimate_tokens, truncate_to_budget, estimate_tokens-truncate_to_budget,
}
use agentic_rag_claude_code.Context.Fusion.{chunk, page}
use agentic_rag_claude_code.Context.Assembler.{
  AssembledContext, Candidate, empty_context, or_default, add_candidate, add_all_inv, assemble,
}

abbrev pub total_tokens : List Text → ℕ
total_tokens [] = 0
total_tokens (t ∷ ts) = estimate_tokens t + total_tokens ts

total_tokens-append :
    (xs ys : List Text) → total_tokens (xs ++ ys) ≡ total_tokens xs + total_tokens ys
total_tokens-append [] ys = omega arith
total_tokens-append (x ∷ xs) ys = omega (arith, total_tokens-append xs ys)

pub record IsWithin (token_budget max_images : ℕ) (out : AssembledContext) : Type 0 where
  pub counted : out.token_count ≡ total_tokens out.blocks
  pub tokens : out.token_count ≤ token_budget
  pub images : length out.images ≤ max_images
  pub aligned : out.blocks ≡ map (λ c. c.content) out.packed_chunks

abbrev contents : List Chunk → List Text
contents = map (λ c. c.content)

contents-append : (xs ys : List Chunk) → contents (xs ++ ys) ≡ contents xs ++ contents ys
contents-append xs ys = map-append (λ c. c.content) xs ys

module _ (fetch : Text → Option Text) (allowed : List ℕ) (b m : ℕ) where
  pub add_candidate-IsWithin :
      (out : AssembledContext) (item : Candidate)
      → 1 ≤ b
      → IsWithin b m out
      → IsWithin b m (add_candidate fetch allowed b m out item)
  unfolding add_candidate
  add_candidate-IsWithin out (page p) pos h = record {
    counted = ground arith;
    tokens = ground arith;
    images = grind (arith, length-append out.images);
    aligned = ground arith;
  }
  add_candidate-IsWithin out (chunk c) pos h = record {
    counted = ground (
      arith,
      total_tokens-append out.blocks (c.content ∷ []),
      total_tokens-append out.blocks (truncate_to_budget c.content b ∷ []),
    );
    tokens = ground (arith, estimate_tokens-truncate_to_budget c.content b);
    images = ground arith;
    aligned = ground (
      arith,
      contents-append out.packed_chunks (c ∷ []),
      contents-append out.packed_chunks
          (record c { content = truncate_to_budget c.content b } ∷ []),
    );
  }

-- For a positive token budget, whatever the candidates, their order and the object store, the
-- assembled context keeps to its budgets: `token_count` is the sum of the estimates of the blocks
-- and at most the token budget, there are at most `max_images` images, and the blocks are the
-- contents of `packed_chunks` in the same order.
pub assemble-IsWithin :
    (fetch : Text → Option Text) (s : Settings) (chunks : List Chunk) (pages : List PageHit)
    (allowed : List ℕ) (token_budget max_images : Option ℕ)
    → 1 ≤ or_default token_budget s.context_token_budget
    → IsWithin
        (or_default token_budget s.context_token_budget)
        (get_or_else max_images s.context_max_images)
        (assemble fetch s chunks pages allowed token_budget max_images)
unfolding assemble
assemble-IsWithin fetch s chunks pages allowed token_budget max_images pos =
    let b = or_default token_budget s.context_token_budget in
    let m = get_or_else max_images s.context_max_images in
    add_all_inv fetch allowed b m (IsWithin b m)
      (λ out item. add_candidate-IsWithin fetch allowed b m out item pos) empty_context
      (items (rrf_merge s.fusion_rrf_k chunks pages))
      (record { counted = refl; tokens = omega arith; images = omega arith; aligned = refl })
