-- ===== src/Context/Assembler/Acl.antt =====
-- The ACL re-check of `assemble` (app/context/assembler.py): what the generator may see.
use mathlib.Core.List.{append_assoc}
use agentic_rag_claude_code.Prelude.{leb, ltb, length, is_empty, ◌&&◌, not}
use agentic_rag_claude_code.Prelude.{
  ℕ, ◌+◌, ◌≡◌, refl, subst, Option, none, some, List, [], ◌∷◌, ◌++◌, Text, map, All, All-append, In,
  In-append_right, elem→In, get_or_else, Bool-cases, inl, inr,
}
use agentic_rag_claude_code.Settings.{Settings}
use agentic_rag_claude_code.Chunks.{Chunk, PageHit}
use agentic_rag_claude_code.Context.Estimate.{estimate_tokens, truncate_to_budget}
use agentic_rag_claude_code.Context.Fusion.{chunk, page, rrf_merge}
use agentic_rag_claude_code.Context.Fusion.Interleave.{items, interleave, items-rrf_merge}
use agentic_rag_claude_code.Context.Assembler.{
  AssembledContext, AssembledImage, Candidate, collection_of, acl_ok, empty_context, or_default,
  assembled_image, add_loaded, add_item, load_image_b64, add_page, add_chunk, add_candidate,
  add_all, assemble,
}

-- The image shows a page of an allowed collection that is among the pages.
pub record ShowsPage (pages : List PageHit) (allowed : List ℕ) (image : AssembledImage)
    : Type 0 where
  pub hit : PageHit
  pub listed : In hit pages
  pub permitted : In hit.collection_id allowed
  pub document : image.document_id ≡ hit.document_id
  pub number : image.page_number ≡ hit.page_number
  pub uri : image.image_uri ≡ hit.image_uri

-- a text, or what the truncation to some budget leaves of it
pub data IsPart (text : Text) : Text → Type 0 where
  all_of_it : IsPart text text
  truncated : (budget : ℕ) → IsPart text (truncate_to_budget text budget)

-- The packed chunk is one of the candidates, of an allowed collection, with its content or a part of it.
pub record IsPacked (chunks : List Chunk) (allowed : List ℕ) (c : Chunk) : Type 0 where
  pub candidate : Chunk
  pub listed : In candidate chunks
  pub permitted : In candidate.collection_id allowed
  pub part : IsPart candidate.content c.content
  pub same : c ≡ record candidate { content = c.content }

pub record IsPermitted (chunks : List Chunk) (pages : List PageHit) (allowed : List ℕ)
    (out : AssembledContext) : Type 0 where
  pub packed : All (IsPacked chunks allowed) out.packed_chunks
  pub shown : All (ShowsPage pages allowed) out.images

abbrev IsListed : List Chunk → List PageHit → Candidate → Type 0
IsListed chunks pages (chunk c) = In c chunks
IsListed chunks pages (page p) = In p pages

-- One more packed chunk of an allowed collection, whatever part of its content is kept.
packed_one_more :
    (chunks : List Chunk) (allowed : List ℕ) (cs : List Chunk) (c : Chunk) (content : Text)
    → In c chunks
    → In c.collection_id allowed
    → IsPart c.content content
    → All (IsPacked chunks allowed) cs
    → All (IsPacked chunks allowed) (cs ++ record c { content = content } ∷ [])
packed_one_more chunks allowed cs c content listed permitted part h =
    All-append _ cs (record c { content = content } ∷ []) h (
      record { candidate = c; listed = listed; permitted = permitted; part = part; same = refl },
      tt,
    )

module _ (fetch : Text → Option Text) (chunks : List Chunk) (pages : List PageHit)
    (allowed : List ℕ) where
  add_loaded-IsPermitted :
      (out : AssembledContext) (p : PageHit) (loaded : Option Text)
      → In p pages
      → In p.collection_id allowed
      → IsPermitted chunks pages allowed out
      → IsPermitted chunks pages allowed (add_loaded fetch out p loaded)
  unfolding add_loaded
  add_loaded-IsPermitted out p none listed permitted h = h
  add_loaded-IsPermitted out p (some image) listed permitted h = record {
    packed = h.packed;
    shown = All-append _ out.images (assembled_image fetch p image ∷ []) h.shown (
      record {
        hit = p;
        listed = listed;
        permitted = permitted;
        document = refl;
        number = refl;
        uri = refl;
      },
      tt,
    );
  }

  add_page-IsPermitted :
      (m : ℕ) (out : AssembledContext) (p : PageHit)
      → In p pages
      → In p.collection_id allowed
      → IsPermitted chunks pages allowed out
      → IsPermitted chunks pages allowed (add_page fetch m out p)
  unfolding add_page
  add_page-IsPermitted m out p listed permitted h = elim (Bool-cases (leb m (length out.images))) [
    | inl full ↦ rw full (record { packed = h.packed; shown = h.shown })
    | inr room ↦ rw room (add_loaded-IsPermitted out p (load_image_b64 fetch p) listed permitted h)
  ]

  add_chunk-IsPermitted :
      (b : ℕ) (out : AssembledContext) (c : Chunk)
      → In c chunks
      → In c.collection_id allowed
      → IsPermitted chunks pages allowed out
      → IsPermitted chunks pages allowed (add_chunk fetch b out c)
  unfolding add_chunk
  add_chunk-IsPermitted b out c listed permitted h =
      let over = ltb b (out.token_count + estimate_tokens c.content) in
      elim (Bool-cases over) [
        | inl e ↦ elim (Bool-cases (is_empty out.packed_chunks && not (is_empty c.content))) [
          | inl first ↦
              rw (e, first)
                (record {
                  packed =
                      packed_one_more chunks allowed out.packed_chunks c
                        (truncate_to_budget c.content b) listed permitted (truncated b) h.packed;
                  shown = h.shown;
                })
          | inr later ↦ rw (e, later) (record { packed = h.packed; shown = h.shown })
        ]
        | inr e ↦ rw e (record {
          packed =
              packed_one_more chunks allowed out.packed_chunks c c.content listed permitted
                all_of_it h.packed;
          shown = h.shown;
        })
      ]

  add_candidate-IsPermitted :
      (b m : ℕ) (out : AssembledContext) (item : Candidate)
      → IsListed chunks pages item
      → IsPermitted chunks pages allowed out
      → IsPermitted chunks pages allowed (add_candidate fetch allowed b m out item)
  unfolding add_item add_candidate
  add_candidate-IsPermitted b m out item listed h = elim (Bool-cases (acl_ok item allowed)) [
    | inl ok ↦ rw ok (kept item listed (elem→In _ allowed (unfold acl_ok in ok)))
    | inr bad ↦ rw bad (record { packed = h.packed; shown = h.shown })
  ]
    where
      kept :
          (item : Candidate)
          → IsListed chunks pages item
          → In (collection_of item) allowed
          → IsPermitted chunks pages allowed (add_item fetch b m out item)
      kept (chunk c) listed permitted = add_chunk-IsPermitted b out c listed permitted h
      kept (page p) listed permitted = add_page-IsPermitted m out p listed permitted h

  add_all-IsPermitted :
      (b m : ℕ) (out : AssembledContext) (list : List Candidate)
      → All (IsListed chunks pages) list
      → IsPermitted chunks pages allowed out
      → IsPermitted chunks pages allowed (add_all fetch allowed b m out list)
  unfolding add_all
  add_all-IsPermitted b m out [] l h = h
  add_all-IsPermitted b m out (item ∷ rest) l h =
      add_all-IsPermitted b m (add_candidate fetch allowed b m out item) rest l.1
        (add_candidate-IsPermitted b m out item l.0 h)

All-IsListed_chunks :
    (before cs : List Chunk) (pages : List PageHit)
    → All (IsListed (before ++ cs) pages) (map chunk cs)
All-IsListed_chunks before [] pages = tt
All-IsListed_chunks before (c ∷ cs) pages = (
  In-append_right c before (c ∷ cs) (inl refl),
  subst (λ l. All (IsListed l pages) (map chunk cs)) (append_assoc before (c ∷ []) cs)
      (All-IsListed_chunks (before ++ c ∷ []) cs pages),
)

-- Every page among the fused items is one of the given pages; `before` are those already placed.
All-IsListed_pages :
    (chunks : List Chunk) (before ps : List PageHit)
    → All (IsListed chunks (before ++ ps)) (map page ps)
All-IsListed_pages chunks before [] = tt
All-IsListed_pages chunks before (p ∷ ps) = (
  In-append_right p before (p ∷ ps) (inl refl),
  subst (λ l. All (IsListed chunks l) (map page ps)) (append_assoc before (p ∷ []) ps)
      (All-IsListed_pages chunks (before ++ p ∷ []) ps),
)

All-IsListed-interleave :
    (placed : List Chunk) (before : List PageHit) (cs : List Chunk) (ps : List PageHit)
    → All (IsListed (placed ++ cs) (before ++ ps)) (interleave cs ps)
unfolding interleave
All-IsListed-interleave placed before [] ps = All-IsListed_pages (placed ++ []) before ps
All-IsListed-interleave placed before (c ∷ cs) [] = (
  In-append_right c placed (c ∷ cs) (inl refl),
  subst (λ l. All (IsListed l (before ++ [])) (map chunk cs)) (append_assoc placed (c ∷ []) cs)
      (All-IsListed_chunks (placed ++ c ∷ []) cs (before ++ [])),
)
All-IsListed-interleave placed before (c ∷ cs) (p ∷ ps) = (
  In-append_right c placed (c ∷ cs) (inl refl),
  (
    In-append_right p before (p ∷ ps) (inl refl),
    subst (λ l. All (IsListed l (before ++ p ∷ ps)) (interleave cs ps))
        (append_assoc placed (c ∷ []) cs)
        (subst (λ l. All (IsListed ((placed ++ c ∷ []) ++ cs) l) (interleave cs ps))
          (append_assoc before (p ∷ []) ps)
          (All-IsListed-interleave (placed ++ c ∷ []) (before ++ p ∷ []) cs ps)),
  ),
)

-- Whatever the retrievers returned, every packed chunk is one of the retrieved chunks, with its content
-- or a part of it, and belongs to an allowed collection, and every image shows one of the page hits, which belongs to an allowed collection.
pub assemble-IsPermitted :
    (fetch : Text → Option Text) (s : Settings) (chunks : List Chunk) (pages : List PageHit)
    (allowed : List ℕ) (token_budget max_images : Option ℕ)
    → IsPermitted chunks pages allowed
        (assemble fetch s chunks pages allowed token_budget max_images)
unfolding assemble
assemble-IsPermitted fetch s chunks pages allowed token_budget max_images =
    add_all-IsPermitted fetch chunks pages allowed (or_default token_budget s.context_token_budget)
      (get_or_else max_images s.context_max_images) empty_context
      (items (rrf_merge s.fusion_rrf_k chunks pages))
      (rw items-rrf_merge (All-IsListed-interleave [] [] chunks pages))
      (record { packed = tt; shown = tt })
