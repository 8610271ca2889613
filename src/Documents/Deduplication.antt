-- ===== src/Documents/Deduplication.antt =====
-- The deduplication of app/services/documents.py: one document per collection and content.
use agentic_rag_claude_code.Prelude.{
  ℕ, ◌≡◌, refl, true, Option, none, some, List, [], ◌∷◌, Text, All, ok, raise, ◌==◌, ==_iff,
  by_test, arith,
}
use agentic_rag_claude_code.Settings.{Settings}
use agentic_rag_claude_code.Characters.{CharTable}
use agentic_rag_claude_code.Access.Rbac.{User, Document, pending, can_access_collection}
use agentic_rag_claude_code.Cache.Stores.{Points, Tags}
use agentic_rag_claude_code.Ingestion.FileType.{FileType, detect}
use agentic_rag_claude_code.Documents.Filenames.{safe_filename}
use agentic_rag_claude_code.Documents.State.{VectorIndex, State, Faults, with_content, without}
use agentic_rag_claude_code.Documents.Service.{
  document_not_found, unsupported_media_type, Answer, Library, add_document, new_document,
  create_document, get_accessible, set_pending, reindex, reindex_document, delete, delete_document,
}

-- A row is no document of collection c with the content of this hash.
abbrev pub IsOther : ℕ → ℕ → Document → Type 0
IsOther c hash d = d.collection_id ≡ c → d.content_hash ≡ hash → ⊥

abbrev pub IsDistinct : List Document → Type 0
IsDistinct [] = Unit
IsDistinct (d ∷ ds) = All (IsOther d.collection_id d.content_hash) ds × IsDistinct ds

with_content-IsOther :
    (c hash : ℕ) (ds : List Document) → with_content c hash ds ≡ none → All (IsOther c hash) ds
with_content-IsOther c hash [] h = tt
with_content-IsOther c hash (d ∷ ds) h =
    ground
      (arith, with_content-IsOther c hash ds, ==_iff d.collection_id c, ==_iff d.content_hash hash)

module _ (P : Document → Type 0) (i : ℕ) where
  without-All : (ds : List Document) → All P ds → All P (without (λ (d : Document). d.id) i ds)
  without-All [] h = tt
  without-All (d ∷ ds) h =
      by_test (All P) (d.id == i) (without-All ds h.1) (h.0, without-All ds h.1)

  -- P reads nothing that a reindexing changes
  set_pending-All :
      ((d : Document) → P d → P (record d { status = pending; error = none }))
      → (ds : List Document) → All P ds
      → All P (set_pending i ds)
  set_pending-All f [] h = tt
  set_pending-All f (d ∷ ds) h = (by_test P (d.id == i) (f d h.0) h.0, set_pending-All f ds h.1)

without-IsDistinct :
    (i : ℕ) (ds : List Document)
    → IsDistinct ds
    → IsDistinct (without (λ (d : Document). d.id) i ds)
without-IsDistinct i [] h = tt
without-IsDistinct i (d ∷ ds) h =
    by_test IsDistinct (d.id == i) (without-IsDistinct i ds h.1)
      (without-All (IsOther d.collection_id d.content_hash) i ds h.0, without-IsDistinct i ds h.1)

set_pending-IsDistinct :
    (i : ℕ) (ds : List Document) → IsDistinct ds → IsDistinct (set_pending i ds)
set_pending-IsDistinct i [] h = tt
set_pending-IsDistinct i (d ∷ ds) h =
    let rest : All (IsOther d.collection_id d.content_hash) (set_pending i ds)
        × IsDistinct (set_pending i ds) =
      (
        set_pending-All (IsOther d.collection_id d.content_hash) i (λ e k. k) ds h.0,
        set_pending-IsDistinct i ds h.1,
      ) in
    by_test (λ e. IsDistinct (e ∷ set_pending i ds)) (d.id == i) rest rest

module _ (points : Points) (tags : Tags) (index : VectorIndex) (sha256 : List ℕ → ℕ)
    (table : CharTable) (s : Settings) (library : Library) where
  abbrev pub Request : Type 0 → Type 0
  Request A = Answer points tags index sha256 table s library A

  abbrev KeepsDistinct : {A : Type 0} → Request A → Type 0
  KeepsDistinct r = IsDistinct r.1.documents

  create-IsDistinct :
      (faults : Faults) (id job : ℕ) (u : User) (c : ℕ) (name bytes : Text)
      (w : State points tags index)
      → IsDistinct w.documents
      → KeepsDistinct
          (create_document points tags index sha256 table s library faults id job u c name bytes w)
  unfolding create_document add_document
  create-IsDistinct faults id job u c name bytes w h =
      by_test KeepsDistinct (can_access_collection w.tables u c)
        (detected (detect (library.extension (safe_filename table name)) bytes)) h
    where
      added :
          (f : FileType)
          → with_content c (library.hash bytes) w.documents ≡ none
          → KeepsDistinct (
              add_document points tags index sha256 table s library faults
                (new_document points tags index sha256 table s library id c u
                  (safe_filename table name)
                  f
                  bytes)
                job
                u
                bytes
                w)
      added f e =
          let new : All (IsOther c (library.hash bytes)) w.documents × IsDistinct w.documents =
            (with_content-IsOther c (library.hash bytes) w.documents e, h) in
          by_test KeepsDistinct faults.save h
            (by_test KeepsDistinct faults.commit h (by_test KeepsDistinct faults.enqueue new new))

      looked_up :
          (f : FileType) (o : Option Document)
          → with_content c (library.hash bytes) w.documents ≡ o
          → KeepsDistinct (elim o [
            | none ↦
                add_document points tags index sha256 table s library faults
                  (new_document points tags index sha256 table s library id c u
                    (safe_filename table name)
                    f
                    bytes)
                  job
                  u
                  bytes
                  w
            | some existing ↦ (ok (existing, true), w)
          ])
      looked_up f none e = added f e
      looked_up f (some d) e = h

      detected :
          (o : Option FileType)
          → KeepsDistinct (elim o [
            | none ↦ (raise unsupported_media_type, w)
            | some f ↦ elim (with_content c (library.hash bytes) w.documents) [
              | none ↦
                  add_document points tags index sha256 table s library faults
                    (new_document points tags index sha256 table s library id c u
                      (safe_filename table name)
                      f
                      bytes)
                    job
                    u
                    bytes
                    w
              | some existing ↦ (ok (existing, true), w)
            ]
          ])
      detected none = h
      detected (some f) = looked_up f (with_content c (library.hash bytes) w.documents) refl

  reindex-IsDistinct :
      (faults : Faults) (job : ℕ) (u : User) (i : ℕ) (w : State points tags index)
      → IsDistinct w.documents
      → KeepsDistinct (reindex_document points tags index sha256 table s library faults job u i w)
  unfolding reindex_document reindex
  reindex-IsDistinct faults job u i w h =
      which (get_accessible points tags index sha256 table s library u i w)
    where
      which :
          (o : Option Document)
          → KeepsDistinct (elim o [
            | none ↦ (raise document_not_found, w)
            | some doc ↦ reindex points tags index sha256 table s library faults job doc w
          ])
      which none = h
      which (some doc) =
          let new = set_pending-IsDistinct doc.id w.documents h in
          by_test KeepsDistinct faults.commit h
            (by_test KeepsDistinct faults.cache new (by_test KeepsDistinct faults.enqueue new new))

  delete-IsDistinct :
      (faults : Faults) (u : User) (i : ℕ) (w : State points tags index)
      → IsDistinct w.documents
      → KeepsDistinct (delete_document points tags index sha256 table s library faults u i w)
  unfolding delete_document delete
  delete-IsDistinct faults u i w h =
      which (get_accessible points tags index sha256 table s library u i w)
    where
      which :
          (o : Option Document)
          → KeepsDistinct (elim o [
            | none ↦ (raise document_not_found, w)
            | some doc ↦ delete points tags index sha256 table s library faults u doc.id w
          ])
      which none = h
      which (some doc) = by_test KeepsDistinct faults.qdrant h (
          by_test KeepsDistinct faults.cache h
            (by_test KeepsDistinct faults.commit h (without-IsDistinct doc.id w.documents h)))

  abbrev pub after : {A : Type 0} → Request A → State points tags index
  after r = r.1

  -- Requests one after the other, each with the calls that raise in it.
  pub data Steps (w : State points tags index) : State points tags index → Type 0 where
    start : Steps w w
    created :
        (faults : Faults) (id job : ℕ) (u : User) (c : ℕ) (name bytes : Text)
        (v : State points tags index)
        → Steps w v
        → Steps w (
            after (
              create_document points tags index sha256 table s library faults id job u c name bytes
                v))
    reindexed :
        (faults : Faults) (job : ℕ) (u : User) (i : ℕ) (v : State points tags index)
        → Steps w v
        → Steps w
            (after (reindex_document points tags index sha256 table s library faults job u i v))
    deleted :
        (faults : Faults) (u : User) (i : ℕ) (v : State points tags index)
        → Steps w v
        → Steps w (after (delete_document points tags index sha256 table s library faults u i v))

  -- No sequence of uploads, reindexings and deletions, whichever of their calls raise, makes a second
  -- document of a collection with the same content hash.
  pub Steps-IsDistinct :
      (w v : State points tags index) → IsDistinct w.documents → Steps w v → IsDistinct v.documents
  Steps-IsDistinct w v h start = h
  Steps-IsDistinct w _ h (created faults id job u c name bytes v p) =
      create-IsDistinct faults id job u c name bytes v (Steps-IsDistinct w v h p)
  Steps-IsDistinct w _ h (reindexed faults job u i v p) =
      reindex-IsDistinct faults job u i v (Steps-IsDistinct w v h p)
  Steps-IsDistinct w _ h (deleted faults u i v p) =
      delete-IsDistinct faults u i v (Steps-IsDistinct w v h p)
