-- ===== src/Documents/Refusals.antt =====
-- Which documents app/services/documents.py tells a user nothing about.
use agentic_rag_claude_code.Prelude.{
  ℕ, ◌≡◌, refl, sym, ap, ◌∙◌, Bool, true, false, Option, none, some, some-injective, List, raise,
  by_test, ◌∷◌, [], ◌==◌, ==_iff, if◌then◌else◌,
}
use agentic_rag_claude_code.Settings.{Settings}
use agentic_rag_claude_code.Characters.{CharTable}
use agentic_rag_claude_code.Access.Rbac.{User, Document, can_access_collection}
use agentic_rag_claude_code.Cache.Stores.{Points, Tags}
use agentic_rag_claude_code.Documents.State.{VectorIndex, State, Faults, find_document}
use agentic_rag_claude_code.Documents.Service.{
  document_not_found, Library, Answer, get_accessible, reindex, reindex_document, delete,
  delete_document,
}

find_document-id :
    (i : ℕ) (ds : List Document) (d : Document) → find_document i ds ≡ some d → d.id ≡ i
find_document-id i [] d h = absurd (cc h)
find_document-id i (e ∷ ds) d h = found (e.id == i) refl h (find_document-id i ds d)
  where
    found :
        (b : Bool)
        → (e.id == i) ≡ b
        → (if b then some e else find_document i ds) ≡ some d
        → (find_document i ds ≡ some d → d.id ≡ i)
        → d.id ≡ i
    found true q k ih =
        ap (λ (d : Document). d.id) (sym (some-injective e d k)) ∙ (==_iff e.id i).0 q
    found false q k ih = ih k

module _ (points : Points) (tags : Tags) (index : VectorIndex) (sha256 : List ℕ → ℕ)
    (table : CharTable) (s : Settings) (library : Library) where
  -- There is no document i, or it is of a collection that the user may not read.
  abbrev pub IsHidden : User → ℕ → State points tags index → Type 0
  IsHidden u i w =
      (d : Document)
      → find_document i w.documents ≡ some d
      → can_access_collection w.tables u d.collection_id ≡ false

  pub get_accessible-IsHidden :
      (u : User) (i : ℕ) (w : State points tags index)
      → get_accessible points tags index sha256 table s library u i w ≡ none
      → IsHidden u i w
  unfolding get_accessible
  get_accessible-IsHidden u i w h d e = denied (can_access_collection w.tables u d.collection_id) (
      ap
        (λ (o : Option Document). elim o [
          | none ↦ none
          | some doc ↦ if can_access_collection w.tables u doc.collection_id then some doc else none
        ])
        (sym e)
      ∙ h)
    where
      denied : (b : Bool) → ◌≡◌ {A = Option Document} (if b then some d else none) none → b ≡ false
      denied true k = cc
      denied false k = refl

  pub hidden-get_accessible :
      (u : User) (i : ℕ) (w : State points tags index)
      → IsHidden u i w
      → get_accessible points tags index sha256 table s library u i w ≡ none
  unfolding get_accessible
  hidden-get_accessible u i w h = which (find_document i w.documents) (λ d e. h d e)
    where
      which :
          (o : Option Document)
          → ((d : Document) → o ≡ some d → can_access_collection w.tables u d.collection_id ≡ false)
          → ◌≡◌ {A = Option Document}
              (elim o [
                | none ↦ none
                | some doc ↦
                    if can_access_collection w.tables u doc.collection_id then some doc else none
              ])
              none
      which none h = refl
      which (some d) h = ap (λ b. if b then some d else none) (h d refl)

  pub get_accessible-id :
      (u : User) (i : ℕ) (w : State points tags index) (d : Document)
      → get_accessible points tags index sha256 table s library u i w ≡ some d
      → d.id ≡ i
  unfolding get_accessible
  get_accessible-id u i w d h = which (find_document i w.documents) refl h
    where
      allowed : (e : Document) (b : Bool) → (if b then some e else none) ≡ some d → e ≡ d
      allowed e true k = some-injective e d k
      allowed e false k = absurd (cc k)

      which :
          (o : Option Document)
          → find_document i w.documents ≡ o
          → (elim o [
            | none ↦ none
            | some doc ↦
                if can_access_collection w.tables u doc.collection_id then some doc else none
          ])
            ≡ some d
          → d.id ≡ i
      which none e k = absurd (cc k)
      which (some f) e k =
          ap (λ (d : Document). d.id)
            (sym (allowed f (can_access_collection w.tables u f.collection_id) k))
          ∙ find_document-id i w.documents f e

  abbrev pub IsRefused : {A : Type 0} → Answer points tags index sha256 table s library A → Type 0
  IsRefused r = r.0 ≡ raise document_not_found

  pub reindex_refused :
      (faults : Faults) (job : ℕ) (u : User) (i : ℕ) (w : State points tags index)
      → IsRefused (reindex_document points tags index sha256 table s library faults job u i w)
      → get_accessible points tags index sha256 table s library u i w ≡ none
  unfolding reindex_document reindex
  reindex_refused faults job u i w =
      which (get_accessible points tags index sha256 table s library u i w)
    where
      NotRefused : Answer points tags index sha256 table s library Document → Type 0
      NotRefused r = IsRefused r → ⊥

      never :
          (doc : Document)
          → NotRefused (reindex points tags index sha256 table s library faults job doc w)
      never doc =
          by_test NotRefused faults.commit (λ k. cc)
            (by_test NotRefused faults.cache (λ k. cc)
              (by_test NotRefused faults.enqueue (λ k. cc) (λ k. cc)))

      which :
          (o : Option Document)
          → IsRefused (elim o [
            | none ↦ (raise document_not_found, w)
            | some doc ↦ reindex points tags index sha256 table s library faults job doc w
          ])
          → o ≡ none
      which none k = refl
      which (some doc) k = absurd (never doc k)

  pub delete_refused :
      (faults : Faults) (u : User) (i : ℕ) (w : State points tags index)
      → IsRefused (delete_document points tags index sha256 table s library faults u i w)
      → get_accessible points tags index sha256 table s library u i w ≡ none
  unfolding delete_document delete
  delete_refused faults u i w =
      which (get_accessible points tags index sha256 table s library u i w)
    where
      NotRefused : Answer points tags index sha256 table s library (Unit {0}) → Type 0
      NotRefused r = IsRefused r → ⊥

      never :
          (doc : Document)
          → NotRefused (delete points tags index sha256 table s library faults u doc.id w)
      never doc =
          by_test NotRefused faults.qdrant (λ k. cc)
            (by_test NotRefused faults.cache (λ k. cc)
              (by_test NotRefused faults.commit (λ k. cc) (λ k. cc)))

      which :
          (o : Option Document)
          → IsRefused (elim o [
            | none ↦ (raise document_not_found, w)
            | some doc ↦ delete points tags index sha256 table s library faults u doc.id w
          ])
          → o ≡ none
      which none k = refl
      which (some doc) k = absurd (never doc k)
