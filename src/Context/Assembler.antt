-- ===== src/Context/Assembler.antt =====
-- app/context/assembler.py: `assemble`, its loop over the fused candidates, `_acl_ok` and
-- `_load_image_b64`. The object store is a parameter: `fetch uri` is the base64 text of the object,
-- and `none` where `object_store.get` raises.
pub mod Budget
pub mod Acl
pub mod Gate
use agentic_rag_claude_code.Prelude.{
  ℕ, zero, suc, ◌+◌, ◌≡◌, Bool, true, false, not, ◌&&◌, Option, none, some, List, [], ◌∷◌, ◌++◌,
  Text, length, is_empty, elem, get_or_else, ltb, leb, if◌then◌else◌,
}
use agentic_rag_claude_code.Chunks.{Chunk, PageHit}
use agentic_rag_claude_code.Context.Estimate.{estimate_tokens, truncate_to_budget}
use agentic_rag_claude_code.Context.Fusion.{Item, chunk, page, rrf_merge}
use agentic_rag_claude_code.Context.Fusion.Interleave.{items}
use agentic_rag_claude_code.Settings.{Settings}

pub record AssembledImage : Type 0 where
  pub document_id : ℕ
  pub page_number : ℕ
  pub image_uri : Text
  pub b64 : Text
  pub file_name : Option Text

pub record AssembledContext : Type 0 where
  pub blocks : List Text
  pub packed_chunks : List Chunk
  pub images : List AssembledImage
  pub token_count : ℕ
  pub dropped_acl : ℕ
  pub dropped_budget : ℕ

abbrev pub empty_context : AssembledContext
empty_context = record {
  blocks = [];
  packed_chunks = [];
  images = [];
  token_count = 0;
  dropped_acl = 0;
  dropped_budget = 0;
}

abbrev pub Candidate : Type 0
Candidate = Item Chunk PageHit

abbrev pub collection_of : Candidate → ℕ
collection_of (chunk c) = c.collection_id
collection_of (page p) = p.collection_id

pub acl_ok : Candidate → List ℕ → Bool
acl_ok item allowed = elem (collection_of item) allowed

-- `token_budget or default`: None and 0 give the default
abbrev pub or_default : Option ℕ → ℕ → ℕ
or_default none d = d
or_default (some zero) d = d
or_default (some (suc n)) d = suc n

module _ (fetch : Text → Option Text) where
  pub load_image_b64 : PageHit → Option Text
  load_image_b64 p = if is_empty p.image_uri then none else fetch p.image_uri

  pub assembled_image : PageHit → Text → AssembledImage
  assembled_image p data' = record {
    document_id = p.document_id;
    page_number = p.page_number;
    image_uri = p.image_uri;
    b64 = data';
    file_name = p.file_name;
  }

  pub add_loaded : AssembledContext → PageHit → Option Text → AssembledContext
  unfolding assembled_image
  add_loaded out p none = out
  add_loaded out p (some data') = record out { images = out.images ++ assembled_image p data' ∷ [] }

  -- the `KIND_PAGE` branch of the loop
  pub add_page : ℕ → AssembledContext → PageHit → AssembledContext
  unfolding add_loaded load_image_b64
  add_page max_images out p =
      if leb max_images (length out.images)
      then record out { dropped_budget = out.dropped_budget + 1 }
      else add_loaded out p (load_image_b64 p)

  pack : AssembledContext → Chunk → Text → ℕ → AssembledContext
  pack out c content tokens = record out {
    blocks = out.blocks ++ content ∷ [];
    packed_chunks = out.packed_chunks ++ (record c { content = content }) ∷ [];
    token_count = tokens;
  }

  -- the rest of the loop body: a text block against the token budget
  pub add_chunk : ℕ → AssembledContext → Chunk → AssembledContext
  unfolding pack
  add_chunk token_budget out c =
      if ltb token_budget (out.token_count + estimate_tokens c.content)
      then (if is_empty out.packed_chunks && not (is_empty c.content)
          then (let content = truncate_to_budget c.content token_budget in
              pack out c content (estimate_tokens content))
          else record out { dropped_budget = out.dropped_budget + 1 })
      else pack out c c.content (out.token_count + estimate_tokens c.content)

  pub add_item : ℕ → ℕ → AssembledContext → Candidate → AssembledContext
  unfolding add_page add_chunk
  add_item token_budget max_images out (chunk c) = add_chunk token_budget out c
  add_item token_budget max_images out (page p) = add_page max_images out p

  -- one round of `for cand in fused`
  pub add_candidate : List ℕ → ℕ → ℕ → AssembledContext → Candidate → AssembledContext
  unfolding add_item acl_ok
  add_candidate allowed token_budget max_images out item =
      if acl_ok item allowed
      then add_item token_budget max_images out item
      else record out { dropped_acl = out.dropped_acl + 1 }

  pub add_all : List ℕ → ℕ → ℕ → AssembledContext → List Candidate → AssembledContext
  add_all allowed token_budget max_images out [] = out
  add_all allowed token_budget max_images out (item ∷ rest) =
      add_all allowed token_budget max_images
        (add_candidate allowed token_budget max_images out item) rest

  unfoldable pub assemble :
      Settings → List Chunk → List PageHit → List ℕ → Option ℕ → Option ℕ → AssembledContext
  unfolding add_all add_candidate rrf_merge
  assemble s chunks page_hits allowed token_budget max_images =
      add_all allowed (or_default token_budget s.context_token_budget)
        (get_or_else max_images s.context_max_images) empty_context
        (items (rrf_merge s.fusion_rrf_k chunks page_hits))

  -- A property of the accumulated context that every round keeps holds after the loop.
  pub add_all_inv :
      (allowed : List ℕ) (token_budget max_images : ℕ) (P : AssembledContext → Type 0)
      → ((out : AssembledContext) (item : Candidate)
          → P out
          → P (add_candidate allowed token_budget max_images out item))
      → (out : AssembledContext) (list : List Candidate) → P out
      → P (add_all allowed token_budget max_images out list)
  unfolding add_all
  add_all_inv allowed b m P step out [] h = h
  add_all_inv allowed b m P step out (item ∷ rest) h =
      add_all_inv allowed b m P step (add_candidate allowed b m out item) rest (step out item h)
