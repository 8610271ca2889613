-- ===== src/Context/Fusion/Interleave.antt =====
-- The order that `rrf_merge` of app/retrieval/fusion.py gives, in closed form.
use mathlib.Core.List.{append-nil}
use agentic_rag_claude_code.Prelude.{
  ℕ, ◌+◌, ◌<◌, ◌≡◌, refl, ap, sym, ◌∙◌, List, [], ◌∷◌, ◌++◌, arith, All, map,
}
use agentic_rag_claude_code.Context.Fusion.{
  Item, chunk, page, FusedCandidate, rank_chunks, rank_pages, place, sort_by_score, rrf_merge,
}

module _ {ℓ} {C P : Type ℓ} where
  -- The two rankings in turn, text first, and what is left of the longer one.
  unfoldable pub interleave : List C → List P → List (Item C P)
  interleave [] ps = map page ps
  interleave (c ∷ cs) [] = chunk c ∷ map chunk cs
  interleave (c ∷ cs) (p ∷ ps) = chunk c ∷ page p ∷ interleave cs ps

  abbrev pub items : List (FusedCandidate C P) → List (Item C P)
  items = map (λ f. f.item)

  abbrev After : FusedCandidate C P → List (FusedCandidate C P) → Type 0
  After d = All (λ f. d.denominator < f.denominator)

  rank_interleave : ℕ → ℕ → List C → List P → List (FusedCandidate C P)
  unfolding rank_chunks rank_pages
  rank_interleave k r [] ps = rank_pages k r ps
  rank_interleave k r (c ∷ cs) [] = rank_chunks k r (c ∷ cs)
  rank_interleave k r (c ∷ cs) (p ∷ ps) =
      record { item = chunk c; denominator = k + r }
      ∷ record { item = page p; denominator = k + r }
      ∷ rank_interleave k (r + 1) cs ps

  place_after :
      (c d : FusedCandidate C P) (ds : List (FusedCandidate C P))
      → d.denominator < c.denominator
      → place c (d ∷ ds) ≡ d ∷ place c ds
  unfolding place
  place_after c d ds h = ground arith

  -- An entry that is better than all before it, and first among those behind it, comes first.
  sort_first :
      (cs : List (FusedCandidate C P)) (d : FusedCandidate C P) (ds : List (FusedCandidate C P))
      → sort_by_score (d ∷ ds) ≡ d ∷ sort_by_score ds
      → After d cs
      → sort_by_score (cs ++ d ∷ ds) ≡ d ∷ sort_by_score (cs ++ ds)
  unfolding sort_by_score
  sort_first [] d ds first after = first
  sort_first (c ∷ cs) d ds first after =
      ap (place c) (sort_first cs d ds first after.1)
      ∙ place_after c d (sort_by_score (cs ++ ds)) after.0

  After-rank_chunks :
      (k r : ℕ) (cs : List C) (d : FusedCandidate C P)
      → d.denominator < k + r
      → After d (rank_chunks k r cs)
  unfolding rank_chunks
  After-rank_chunks k r [] d h = tt
  After-rank_chunks k r (c ∷ cs) d h = (h, After-rank_chunks k (r + 1) cs d (omega arith))

  sort-rank_chunks :
      (k r : ℕ) (cs : List C) → sort_by_score {P = P} (rank_chunks k r cs) ≡ rank_chunks k r cs
  unfolding sort_by_score rank_chunks
  sort-rank_chunks k r [] = refl
  sort-rank_chunks k r (c ∷ []) = refl
  sort-rank_chunks k r (c ∷ c' ∷ cs) = rw (sort-rank_chunks k (r + 1) (c' ∷ cs)) (ground arith)

  sort-rank_pages :
      (k r : ℕ) (ps : List P) → sort_by_score {C = C} (rank_pages k r ps) ≡ rank_pages k r ps
  unfolding sort_by_score rank_pages
  sort-rank_pages k r [] = refl
  sort-rank_pages k r (p ∷ []) = refl
  sort-rank_pages k r (p ∷ p' ∷ ps) = rw (sort-rank_pages k (r + 1) (p' ∷ ps)) (ground arith)

  -- Two lists of one rank are merged text first.
  sort_pair :
      (k r : ℕ) (c : C) (cs : List C) (p : P) (ps : List P)
      → sort_by_score (rank_chunks k r (c ∷ cs) ++ rank_pages k r (p ∷ ps))
        ≡ record { item = chunk c; denominator = k + r }
          ∷ record { item = page p; denominator = k + r }
          ∷ sort_by_score (rank_chunks k (r + 1) cs ++ rank_pages k (r + 1) ps)
  unfolding rank_chunks rank_pages
  sort_pair k r c cs p ps =
      let d : FusedCandidate C P = record { item = page p; denominator = k + r } in
      let rest : List (FusedCandidate C P) = rank_pages k (r + 1) ps in
      let first : sort_by_score (d ∷ rest) ≡ d ∷ sort_by_score rest =
        sort-rank_pages k r (p ∷ ps) ∙ ap (◌∷◌ d) (sym (sort-rank_pages k (r + 1) ps)) in
      unfold sort_by_score in
      rw
        (sort_first (rank_chunks k (r + 1) cs) d rest first
          (After-rank_chunks k (r + 1) cs d (omega arith)))
        (ground arith)

  sort-rank_interleave :
      (k r : ℕ) (cs : List C) (ps : List P)
      → sort_by_score (rank_chunks k r cs ++ rank_pages k r ps) ≡ rank_interleave k r cs ps
  unfolding rank_interleave
  sort-rank_interleave k r [] ps = sort-rank_pages k r ps
  sort-rank_interleave k r (c ∷ cs) [] = rw append-nil (sort-rank_chunks k r (c ∷ cs))
  sort-rank_interleave k r (c ∷ cs) (p ∷ ps) =
      sort_pair k r c cs p ps
      ∙ ap
          (λ l.
            record { item = chunk c; denominator = k + r }
            ∷ record { item = page p; denominator = k + r }
            ∷ l)
          (sort-rank_interleave k (r + 1) cs ps)

  items-rank_chunks : (k r : ℕ) (cs : List C) → items (rank_chunks k r cs) ≡ map chunk cs
  unfolding rank_chunks
  items-rank_chunks k r [] = refl
  items-rank_chunks k r (c ∷ cs) = ap (◌∷◌ (chunk c)) (items-rank_chunks k (r + 1) cs)

  items-rank_pages : (k r : ℕ) (ps : List P) → items (rank_pages k r ps) ≡ map page ps
  unfolding rank_pages
  items-rank_pages k r [] = refl
  items-rank_pages k r (p ∷ ps) = ap (◌∷◌ (page p)) (items-rank_pages k (r + 1) ps)

  items-rank_interleave :
      (k r : ℕ) (cs : List C) (ps : List P) → items (rank_interleave k r cs ps) ≡ interleave cs ps
  unfolding rank_interleave interleave
  items-rank_interleave k r [] ps = items-rank_pages k r ps
  items-rank_interleave k r (c ∷ cs) [] = items-rank_chunks k r (c ∷ cs)
  items-rank_interleave k r (c ∷ cs) (p ∷ ps) =
      ap (λ l. chunk c ∷ page p ∷ l) (items-rank_interleave k (r + 1) cs ps)

  -- For every constant `k`, `rrf_merge` orders its items as the two rankings taken in turn: rank by
  -- rank, the text chunk before the page of the same rank, then the rest of the longer ranking.
  pub items-rrf_merge :
      (k : ℕ) (chunks : List C) (pages : List P)
      → items (rrf_merge k chunks pages) ≡ interleave chunks pages
  unfolding rrf_merge
  items-rrf_merge k chunks pages =
      ap items (sort-rank_interleave k 1 chunks pages) ∙ items-rank_interleave k 1 chunks pages
