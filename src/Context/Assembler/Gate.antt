-- ===== src/Context/Assembler/Gate.antt =====
-- The loop of `assemble` (app/context/assembler.py) against the same loop over the candidates of
-- allowed collections alone, and a promise that the generator is not starved.
use agentic_rag_claude_code.Prelude.{map, subst}
use agentic_rag_claude_code.Context.Estimate.{truncate_to_budget}
use agentic_rag_claude_code.Context.Assembler.Budget.{
  IsWithin, total_tokens, add_candidate-IsWithin,
}
use agentic_rag_claude_code.Prelude.{
  ℕ, ◌+◌, ◌≤◌, ◌≡◌, refl, ap, ◌∙◌, true, false, Option, none, some, List, [], ◌∷◌, ◌++◌, Text, elem,
  arith, if◌then◌else◌, Bool-cases, inl, inr, In, In→elem, is_empty,
}
use agentic_rag_claude_code.Chunks.{Chunk, PageHit}
use agentic_rag_claude_code.Context.Estimate.{estimate_tokens}
use agentic_rag_claude_code.Context.Fusion.{chunk, page}
use agentic_rag_claude_code.Context.Assembler.{
  AssembledContext, Candidate, collection_of, add_chunk, add_item, add_loaded, add_candidate,
  add_all,
}

-- The candidates of allowed collections, in their order.
pub permitted : List ℕ → List Candidate → List Candidate
permitted allowed [] = []
permitted allowed (item ∷ rest) =
    if elem (collection_of item) allowed
    then item ∷ permitted allowed rest
    else permitted allowed rest

-- How many candidates are of other collections.
pub refused : List ℕ → List Candidate → ℕ
refused allowed [] = 0
refused allowed (item ∷ rest) =
    if elem (collection_of item) allowed then refused allowed rest else refused allowed rest + 1

abbrev pub with_dropped_acl : ℕ → AssembledContext → AssembledContext
with_dropped_acl n out = record out { dropped_acl = n }

module _ (fetch : Text → Option Text) (allowed : List ℕ) (b m : ℕ) where
  add_loaded-with_dropped_acl :
      (n : ℕ) (out : AssembledContext) (p : PageHit) (o : Option Text)
      → add_loaded fetch (with_dropped_acl n out) p o
        ≡ with_dropped_acl n (add_loaded fetch out p o)
  unfolding add_loaded
  add_loaded-with_dropped_acl n out p none = refl
  add_loaded-with_dropped_acl n out p (some image) = refl

  add_item-with_dropped_acl :
      (n : ℕ) (out : AssembledContext) (item : Candidate)
      → add_item fetch b m (with_dropped_acl n out) item
        ≡ with_dropped_acl n (add_item fetch b m out item)
  unfolding add_item
  add_item-with_dropped_acl n out (chunk c) = ground arith
  add_item-with_dropped_acl n out (page p) = ground arith

  dropped_acl-add_item :
      (out : AssembledContext) (item : Candidate)
      → (add_item fetch b m out item).dropped_acl ≡ out.dropped_acl
  dropped_acl-add_item out item =
      ap (λ (o : AssembledContext). o.dropped_acl)
        (add_item-with_dropped_acl out.dropped_acl out item)

  add_candidate-with_dropped_acl :
      (k : ℕ) (out : AssembledContext) (item : Candidate)
      → (k' : ℕ) × (add_candidate fetch allowed b m (with_dropped_acl k out) item
          ≡ with_dropped_acl k' (add_candidate fetch allowed b m out item))
  unfolding add_candidate
  add_candidate-with_dropped_acl k out item =
      elim (Bool-cases (elem (collection_of item) allowed)) [
        | inl ok ↦ (k, rw ok (add_item-with_dropped_acl k out item))
        | inr bad ↦ (k + 1, rw bad refl)
      ]

  add_all-with_dropped_acl :
      (n k : ℕ) (out : AssembledContext) (list : List Candidate)
      → with_dropped_acl n (add_all fetch allowed b m (with_dropped_acl k out) list)
        ≡ with_dropped_acl n (add_all fetch allowed b m out list)
  unfolding add_all
  add_all-with_dropped_acl n k out [] = refl
  add_all-with_dropped_acl n k out (item ∷ rest) =
      let (k', e) = add_candidate-with_dropped_acl k out item in
      ap (λ o. with_dropped_acl n (add_all fetch allowed b m o rest)) e
      ∙ add_all-with_dropped_acl n k' (add_candidate fetch allowed b m out item) rest

  add_candidate_permitted :
      (out : AssembledContext) (item : Candidate)
      → elem (collection_of item) allowed ≡ true
      → (add_candidate fetch allowed b m out item).dropped_acl ≡ out.dropped_acl
  unfolding add_candidate
  add_candidate_permitted out item ok = rw ok (dropped_acl-add_item out item)

  add_candidate_refused :
      (out : AssembledContext) (item : Candidate)
      → elem (collection_of item) allowed ≡ false
      → add_candidate fetch allowed b m out item ≡ with_dropped_acl (out.dropped_acl + 1) out
  unfolding add_candidate
  add_candidate_refused out item bad = rw bad refl

  -- The loop over all fused candidates leaves what the loop over those of allowed collections
  -- leaves: the same blocks, chunks, images and counts, whatever the others hold. Only
  -- `dropped_acl` tells them apart: it grows by exactly the number of refused candidates.
  add_all-permitted :
      (out : AssembledContext) (list : List Candidate)
      → add_all fetch allowed b m out list
        ≡ with_dropped_acl
            (out.dropped_acl + refused allowed list)
            (add_all fetch allowed b m out (permitted allowed list))
  unfolding add_all permitted refused
  add_all-permitted out [] = ground arith
  add_all-permitted out (item ∷ rest) =
      let after : AssembledContext = add_candidate fetch allowed b m out item in
      let kept : AssembledContext = add_all fetch allowed b m after (permitted allowed rest) in
      elim (Bool-cases (elem (collection_of item) allowed)) [
        | inl ok ↦ rw ok (
            add_all-permitted after rest
            ∙ ap (λ n. with_dropped_acl (n + refused allowed rest) kept)
                (add_candidate_permitted out item ok))
        | inr bad ↦
            rw (bad, add_candidate_refused out item bad)
              (add_all-permitted (with_dropped_acl (out.dropped_acl + 1) out) rest
                ∙ add_all-with_dropped_acl (out.dropped_acl + 1 + refused allowed rest)
                    (out.dropped_acl + 1) out (permitted allowed rest)
                ∙ ap
                    (λ n.
                      with_dropped_acl n (add_all fetch allowed b m out (permitted allowed rest)))
                    (omega arith))
      ]

is_empty-snoc {ℓ} : {A : Type ℓ} (xs : List A) (x : A) → is_empty (xs ++ x ∷ []) ≡ false
is_empty-snoc [] x = refl
is_empty-snoc (y ∷ xs) x = refl

module _ (fetch : Text → Option Text) (allowed : List ℕ) (b m : ℕ) where
  add_item-packed :
      (out : AssembledContext) (item : Candidate)
      → is_empty out.packed_chunks ≡ false
      → is_empty (add_item fetch b m out item).packed_chunks ≡ false
  unfolding add_item
  add_item-packed out (page p) h = ground arith
  add_item-packed out (chunk c) h = ground (
    arith,
    is_empty-snoc out.packed_chunks c,
    is_empty-snoc out.packed_chunks (record c { content = truncate_to_budget c.content b }),
  )

  add_candidate-packed :
      (out : AssembledContext) (item : Candidate)
      → is_empty out.packed_chunks ≡ false
      → is_empty (add_candidate fetch allowed b m out item).packed_chunks ≡ false
  unfolding add_candidate
  add_candidate-packed out item h = elim (Bool-cases (elem (collection_of item) allowed)) [
    | inl ok ↦ rw ok (add_item-packed out item h)
    | inr bad ↦ rw bad h
  ]

  add_all-packed :
      (out : AssembledContext) (list : List Candidate)
      → is_empty out.packed_chunks ≡ false
      → is_empty (add_all fetch allowed b m out list).packed_chunks ≡ false
  unfolding add_all
  add_all-packed out [] h = h
  add_all-packed out (item ∷ rest) h =
      add_all-packed (add_candidate fetch allowed b m out item) rest
        (add_candidate-packed out item h)

  nothing_packed :
      (out : AssembledContext)
      → is_empty out.packed_chunks ≡ true
      → IsWithin b m out
      → out.token_count ≡ 0
  nothing_packed out e h = go out.packed_chunks e h.aligned
    where
      go :
          (cs : List Chunk)
          → is_empty cs ≡ true
          → out.blocks ≡ map (λ (c : Chunk). c.content) cs
          → out.token_count ≡ 0
      go [] e aligned = h.counted ∙ ap total_tokens aligned
      go (c ∷ cs) e aligned = absurd (cc e)

  estimate_tokens_empty : (text : Text) → is_empty text ≡ true → estimate_tokens text ≡ 1
  unfolding estimate_tokens
  estimate_tokens_empty [] e = refl
  estimate_tokens_empty (x ∷ xs) e = absurd (cc e)

  add_chunk-packs :
      (out : AssembledContext) (c : Chunk)
      → 1 ≤ b
      → IsWithin b m out
      → is_empty (add_chunk fetch b out c).packed_chunks ≡ false
  unfolding add_chunk
  add_chunk-packs out c pos h = ground (
    arith,
    nothing_packed out,
    estimate_tokens_empty c.content,
    is_empty-snoc out.packed_chunks c,
    is_empty-snoc out.packed_chunks (record c { content = truncate_to_budget c.content b }),
  )

  add_candidate-packs :
      (out : AssembledContext) (c : Chunk)
      → In c.collection_id allowed
      → 1 ≤ b
      → IsWithin b m out
      → is_empty (add_candidate fetch allowed b m out (chunk c)).packed_chunks ≡ false
  unfolding add_candidate
  add_candidate-packs out c permitted pos h =
      rw (In→elem c.collection_id allowed permitted)
        (unfold add_item in add_chunk-packs out c pos h)

  -- With a positive budget, if any fused candidate is a text chunk of an allowed collection, then
  -- the loop packs at least one chunk, however long that chunk is and whatever stands before it.
  pub add_all-packs :
      (out : AssembledContext) (list : List Candidate) (c : Chunk)
      → In {A = Candidate} (chunk c) list
      → In c.collection_id allowed
      → 1 ≤ b
      → IsWithin b m out
      → is_empty (add_all fetch allowed b m out list).packed_chunks ≡ false
  unfolding add_all
  add_all-packs out [] c listed permitted pos h = elim listed [ ]
  add_all-packs out (item ∷ rest) c (inl e) permitted pos h =
      add_all-packed (add_candidate fetch allowed b m out item) rest (
        subst (λ i. is_empty (add_candidate fetch allowed b m out i).packed_chunks ≡ false) e
          (add_candidate-packs out c permitted pos h))
  add_all-packs out (item ∷ rest) c (inr l) permitted pos h =
      add_all-packs (add_candidate fetch allowed b m out item) rest c l permitted pos
        (add_candidate-IsWithin fetch allowed b m out item pos h)
