-- ===== src/Context/Fusion.antt =====
-- app/retrieval/fusion.py. The score 1 / (k + rank) is kept as its denominator: a larger score is a
-- smaller denominator, and equal scores are equal denominators.
pub mod Interleave
use agentic_rag_claude_code.Prelude.{ℕ, ◌+◌, List, [], ◌∷◌, ◌++◌, leb, if◌then◌else◌}

-- FusedCandidate, over the two shapes of `item`
pub data Item {ℓ} (C P : Type ℓ) : Type ℓ where
  chunk : C → Item C P
  page : P → Item C P

pub record FusedCandidate {ℓ} (C P : Type ℓ) : Type ℓ where
  pub item : Item C P
  pub denominator : ℕ

module _ {ℓ} {C P : Type ℓ} where
  unfoldable pub rank_chunks : ℕ → ℕ → List C → List (FusedCandidate C P)
  rank_chunks k rank [] = []
  rank_chunks k rank (c ∷ cs) =
      record { item = chunk c; denominator = k + rank } ∷ rank_chunks k (rank + 1) cs

  unfoldable pub rank_pages : ℕ → ℕ → List P → List (FusedCandidate C P)
  rank_pages k rank [] = []
  rank_pages k rank (p ∷ ps) =
      record { item = page p; denominator = k + rank } ∷ rank_pages k (rank + 1) ps

  -- `fused.sort(key=rrf_score, reverse=True)` is a stable sort, best score first
  unfoldable pub place : FusedCandidate C P → List (FusedCandidate C P) → List (FusedCandidate C P)
  place c [] = c ∷ []
  place c (d ∷ ds) = if leb c.denominator d.denominator then c ∷ d ∷ ds else d ∷ place c ds

  unfoldable pub sort_by_score : List (FusedCandidate C P) → List (FusedCandidate C P)
  unfolding place
  sort_by_score [] = []
  sort_by_score (c ∷ cs) = place c (sort_by_score cs)

  unfoldable pub rrf_merge : ℕ → List C → List P → List (FusedCandidate C P)
  unfolding rank_chunks rank_pages sort_by_score
  rrf_merge k chunks pages = sort_by_score (rank_chunks k 1 chunks ++ rank_pages k 1 pages)
