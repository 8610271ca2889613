-- ===== src/Ingestion/Replaced.antt =====
-- What an update of one document and the replacement of its rows change.
use mathlib.Core.List.{append-nil}
use agentic_rag_claude_code.Prelude.{
  ℕ, ◌≡◌, ◌≢◌, refl, sym, ap, ◌∙◌, Bool, true, false, not, Option, none, some, List, [], ◌∷◌, ◌++◌,
  map, filter_by, filter_by-filter_by, filter_by-append, find_if, find_if-holds, ==_iff, Bool-cases,
  ◌==◌, if◌then◌else◌, arith, inl, inr, In, by_test,
}
use agentic_rag_claude_code.Ingestion.Indexer.{
  IndexedDocument, has_id, find_indexed, update_document,
}

mapped : {A B : Type 0} → (A → B) → Option A → Option B
mapped g none = none
mapped g (some a) = some (g a)

find_if-map :
    {A : Type 0} (p : A → Bool) (g : A → A) (xs : List A)
    → ((a : A) → p (g a) ≡ p a)
    → find_if p (map g xs) ≡ mapped g (find_if p xs)
unfolding mapped
find_if-map p g [] h = refl
find_if-map p g (x ∷ xs) h = which (p (g x)) (p x) (h x) (find_if-map p g xs h)
  where
    which :
        (b c : Bool)
        → b ≡ c
        → find_if p (map g xs) ≡ mapped g (find_if p xs)
        → (if b then some (g x) else find_if p (map g xs))
          ≡ mapped g (if c then some x else find_if p xs)
    which true true e ih = refl
    which true false e ih = cc
    which false true e ih = cc
    which false false e ih = ih

module _ (f : IndexedDocument → IndexedDocument) (i : ℕ)
    (keep : (e : IndexedDocument) → (f e).document.id ≡ e.document.id) where
  one_updated : IndexedDocument → IndexedDocument
  one_updated d = if has_id i d then f d else d

  find_indexed-mapped :
      (j : ℕ) (docs : List IndexedDocument)
      → find_indexed j (update_document f i docs) ≡ mapped one_updated (find_indexed j docs)
  unfolding one_updated
  find_indexed-mapped j docs =
      find_if-map (has_id j) (λ (d : IndexedDocument). if has_id i d then f d else d) docs
        (λ d.
          by_test (λ (e : IndexedDocument). has_id j e ≡ has_id j d) (has_id i d)
            (ap (λ n. n == j) (keep d)) refl)

  pub find-update :
      (docs : List IndexedDocument) (d : IndexedDocument)
      → find_indexed i docs ≡ some d
      → find_indexed i (update_document f i docs) ≡ some (f d)
  unfolding mapped one_updated
  find-update docs d h =
      find_indexed-mapped i docs
      ∙ ap (mapped one_updated) h
      ∙ ap (λ (b : Bool). some (if b then f d else d)) (find_if-holds (has_id i) docs d h)

  pub find-update_other :
      (j : ℕ) (docs : List IndexedDocument)
      → j ≢ i
      → find_indexed j (update_document f i docs) ≡ find_indexed j docs
  unfolding mapped one_updated
  find-update_other j docs other = find_indexed-mapped j docs ∙ which (find_indexed j docs) refl
    where
      which : (o : Option IndexedDocument) → find_indexed j docs ≡ o → mapped one_updated o ≡ o
      which none e = refl
      which (some d) e = elim (Bool-cases (has_id i d)) [
        | inl same ↦ absurd (
            other (
              sym ((==_iff d.document.id j).0 (find_if-holds (has_id j) docs d e))
              ∙ (==_iff d.document.id i).0 same))
        | inr differs ↦ ap (λ (b : Bool). some (if b then f d else d)) differs
      ]

module _ {A : Type 0} (key : A → ℕ) where
  -- the rows of one key in place of the old ones
  pub filter_by-replaced :
      (i : ℕ) (old new : List A)
      → filter_by (λ a. key a == i) new ≡ new
      → filter_by (λ a. key a == i) (filter_by (λ a. not (key a == i)) old ++ new) ≡ new
  filter_by-replaced i [] new h = h
  filter_by-replaced i (a ∷ old) new h = ground (arith, filter_by-replaced i old new h)

  pub filter_by-of_all :
      (i : ℕ) (xs : List A) → ((a : A) → In a xs → key a ≡ i) → filter_by (λ a. key a == i) xs ≡ xs
  filter_by-of_all i [] h = refl
  filter_by-of_all i (a ∷ xs) h =
      ground
        (arith, filter_by-of_all i xs (λ b m. h b (inr m)), (==_iff (key a) i).1 (h a (inl refl)))

  other_key : (i j : ℕ) (a : A) → j ≢ i → key a ≡ i → (key a == j) ≡ false
  other_key i j a other h = elim (Bool-cases (key a == j)) [
    | inl same ↦ absurd (other (sym ((==_iff (key a) j).0 same) ∙ h))
    | inr differs ↦ differs
  ]

  pub filter_by-none_of :
      (i j : ℕ) (xs : List A)
      → j ≢ i
      → ((a : A) → In a xs → key a ≡ i)
      → filter_by (λ a. key a == j) xs ≡ []
  filter_by-none_of i j [] other h = refl
  filter_by-none_of i j (a ∷ xs) other h = ground (
    arith,
    filter_by-none_of i j xs other (λ b m. h b (inr m)),
    other_key i j a other (h a (inl refl)),
  )

  -- The rows of another key stay.
  pub filter_by-kept :
      (i j : ℕ) (old new : List A)
      → j ≢ i
      → ((a : A) → In a new → key a ≡ i)
      → filter_by (λ a. key a == j) (filter_by (λ a. not (key a == i)) old ++ new)
        ≡ filter_by (λ a. key a == j) old
  filter_by-kept i j old new other h =
      filter_by-append (λ a. key a == j) (filter_by (λ a. not (key a == i)) old) new
      ∙ ap (λ ys. filter_by (λ a. key a == j) (filter_by (λ a. not (key a == i)) old) ++ ys)
          (filter_by-none_of i j new other h)
      ∙ append-nil (filter_by (λ a. key a == j) (filter_by (λ a. not (key a == i)) old))
      ∙ filter_by-filter_by (λ a. key a == j) (λ a. not (key a == i)) old
          (λ a same. ap not (other_key j i a (λ e. other (sym e)) ((==_iff (key a) j).0 same)))
