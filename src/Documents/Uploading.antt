-- ===== src/Documents/Uploading.antt =====
-- A second upload of the same content to app/services/documents.py.
use agentic_rag_claude_code.Prelude.{
  ℕ, ◌≡◌, refl, sym, ap, ◌∙◌, Bool, true, Option, none, some, List, ◌∷◌, Text, ok, raise,
  ok-injective, by_test, ==_refl, arith,
}
use agentic_rag_claude_code.Settings.{Settings}
use agentic_rag_claude_code.Characters.{CharTable}
use agentic_rag_claude_code.Access.Rbac.{User, Document, can_access_collection}
use agentic_rag_claude_code.Cache.Stores.{Points, Tags}
use agentic_rag_claude_code.Ingestion.FileType.{FileType, detect}
use agentic_rag_claude_code.Documents.Filenames.{safe_filename}
use agentic_rag_claude_code.Documents.State.{VectorIndex, State, Faults, with_content}
use agentic_rag_claude_code.Documents.Service.{
  HttpError, collection_not_found, unsupported_media_type, failed, Library, Answer, add_document,
  new_document, create_document,
}

module _ (points : Points) (tags : Tags) (index : VectorIndex) (sha256 : List ℕ → ℕ)
    (table : CharTable) (s : Settings) (library : Library) where
  abbrev Reply : Type 0
  Reply = Answer points tags index sha256 table s library (Document × Bool)

  -- The reply is an error, or the document is found again by its content.
  abbrev IsFound : ℕ → ℕ → Reply → Type 0
  IsFound c hash r =
      (d : Document) → (dup : Bool) → r.0 ≡ ok (d, dup) → with_content c hash r.1.documents ≡ some d

  raised-IsFound :
      (c hash : ℕ) (e : HttpError) (w : State points tags index) → IsFound c hash (raise e, w)
  raised-IsFound c hash e w d dup k = cc

  answered-IsFound :
      (c hash : ℕ) (a : Document × Bool) (w : State points tags index)
      → with_content c hash w.documents ≡ some a.0
      → IsFound c hash (ok a, w)
  answered-IsFound c hash a w h d dup k =
      h ∙ ap (λ (a : Document × Bool). some a.0) (ok-injective k)

  head-found :
      (doc : Document) (ds : List Document)
      → with_content doc.collection_id doc.content_hash (doc ∷ ds) ≡ some doc
  head-found doc ds = ground (arith, ==_refl doc.collection_id, ==_refl doc.content_hash)

  create-IsFound :
      (faults : Faults) (id job : ℕ) (u : User) (c : ℕ) (name bytes : Text)
      (w : State points tags index)
      → IsFound c
          (library.hash bytes)
          (create_document points tags index sha256 table s library faults id job u c name bytes w)
  unfolding create_document add_document
  create-IsFound faults id job u c name bytes w =
      by_test P (can_access_collection w.tables u c)
        (detected (detect (library.extension (safe_filename table name)) bytes))
        (raised-IsFound c (library.hash bytes) collection_not_found w)
    where
      P : Reply → Type 0
      P r = IsFound c (library.hash bytes) r

      added : (f : FileType) → Reply
      added f =
          add_document points tags index sha256 table s library faults
            (new_document points tags index sha256 table s library id c u (safe_filename table name)
              f bytes)
            job u bytes w

      added-P : (f : FileType) → P (added f)
      added-P f =
          let doc =
            new_document points tags index sha256 table s library id c u (safe_filename table name)
              f bytes in
          by_test P faults.save (raised-IsFound c (library.hash bytes) failed w) (
            by_test P faults.commit (λ d dup k. cc)
              (by_test P faults.enqueue (λ d dup k. cc)
                (λ d dup k.
                  head-found doc w.documents
                  ∙ ap (λ (a : Document × Bool). some a.0) (ok-injective k))))

      looked_up :
          (f : FileType) (o : Option Document)
          → with_content c (library.hash bytes) w.documents ≡ o
          → P (elim o [ none ↦ added f | some existing ↦ (ok (existing, true), w) ])
      looked_up f none e = added-P f
      looked_up f (some d) e = answered-IsFound c (library.hash bytes) (d, true) w e

      detected :
          (o : Option FileType)
          → P (elim o [
            | none ↦ (raise unsupported_media_type, w)
            | some f ↦ elim (with_content c (library.hash bytes) w.documents) [
              | none ↦ added f
              | some existing ↦ (ok (existing, true), w)
            ]
          ])
      detected none = raised-IsFound c (library.hash bytes) unsupported_media_type w
      detected (some f) = looked_up f (with_content c (library.hash bytes) w.documents) refl

  -- A user who reads the collection uploads content that was uploaded there before, under any name with
  -- a known file type: the answer is the document of the first upload, marked as a duplicate, and
  -- nothing changes.
  create_again :
      (faults again : Faults) (id id2 job job2 : ℕ) (u u2 : User) (c : ℕ) (name name2 bytes : Text)
      (w v : State points tags index) (doc : Document) (dup : Bool) (f : FileType)
      → create_document points tags index sha256 table s library faults id job u c name bytes w
        ≡ (ok (doc, dup), v)
      → can_access_collection v.tables u2 c ≡ true
      → detect (library.extension (safe_filename table name2)) bytes ≡ some f
      → create_document points tags index sha256 table s library again id2 job2 u2 c name2 bytes v
        ≡ (ok (doc, true), v)
  unfolding create_document
  create_again faults again id id2 job job2 u u2 c name name2 bytes w v doc dup f h a d =
      rw (a, d, found)
    where
      found : with_content c (library.hash bytes) v.documents ≡ some doc
      found =
          ap (λ (r : Reply). with_content c (library.hash bytes) r.1.documents) (sym h)
          ∙ create-IsFound faults id job u c name bytes w doc dup (ap (λ (r : Reply). r.0) h)
