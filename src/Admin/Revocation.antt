-- ===== src/Admin/Revocation.antt =====
-- What the revocation of a permission in app/api/admin.py leaves.
use agentic_rag_claude_code.Prelude.{
  ℕ, ◌≡◌, ◌≢◌, refl, ap, subst, ◌∙◌, Bool, true, false, not, Option, none, some, List, [], ◌∷◌,
  Text, In, filter_by, find_if-filter_by, In-filter_by_sound, ◌==◌, ==_iff, arith, if◌then◌else◌,
  Result, ok, raise, inl,
}
use agentic_rag_claude_code.Settings.{Settings}
use agentic_rag_claude_code.Characters.{CharTable}
use agentic_rag_claude_code.Access.Rbac.{
  User, Permission, ResourceType, same_resource, collection, Tables, accessible_collection_ids,
}
use agentic_rag_claude_code.Access.Readable.{
  Granted, to_user, to_department, Readable, as_admin, by_department, by_grant,
  accessible_collection_ids_iff,
}
use agentic_rag_claude_code.Auth.Tokens.{KeyStore}
use agentic_rag_claude_code.Cache.Stores.{Points, Tags, Tag, coll, doc}
use agentic_rag_claude_code.Cache.Semantic.{invalidate_document, invalidate_collection, evict}
use agentic_rag_claude_code.Cache.Tagged.{IsTagged}
use agentic_rag_claude_code.Cache.History.{IsGone, evict-IsGone}
use agentic_rag_claude_code.Admin.State.{AdminError, permission_change, permission_not_found}
use agentic_rag_claude_code.Admin.Service.{
  Admin, find_permission, tag_of, record_audit, invalidate_for_permission, revoke_permission,
}

abbrev kept : ℕ → List Permission → List Permission
kept i ps = filter_by (λ (p : Permission). not (p.id == i)) ps

find_permission-kept : (i : ℕ) (ps : List Permission) → find_permission i (kept i ps) ≡ none
find_permission-kept i [] = refl
find_permission-kept i (p ∷ ps) = which (p.id == i) refl (find_permission-kept i ps)
  where
    which :
        (b : Bool)
        → (p.id == i) ≡ b
        → find_permission i (kept i ps) ≡ none
        → find_permission i (if not b then p ∷ kept i ps else kept i ps) ≡ none
    which true e ih = ih
    which false e ih = ap (λ b. if b then some p else find_permission i (kept i ps)) e ∙ ih

find_permission-other :
    (i j : ℕ) (ps : List Permission) → j ≢ i → find_permission j (kept i ps) ≡ find_permission j ps
find_permission-other i j ps n =
    find_if-filter_by (λ (p : Permission). p.id == j) (λ (p : Permission). not (p.id == i)) ps
      (λ p h. other p.id h)
  where
    other : (k : ℕ) → (k == j) ≡ true → not (k == i) ≡ true
    other k h = ground (arith, ==_iff k j, ==_iff k i)

-- On what a collection stays readable without the permission i: no permission at all, or another one alone.
pub data Basis (i : ℕ) (db : Tables) (u : User) (c : ℕ) : Type 0 where
  no_permission : Readable (record db { permissions = [] }) u c → Basis i db u c
  another :
      (q : Permission)
      → In q db.permissions
      → q.id ≢ i
      → Readable (record db { permissions = q ∷ [] }) u c
      → Basis i db u c

other_id : (i j : ℕ) → not (j == i) ≡ true → j ≢ i
other_id i j h e = absurd (cc (h, (==_iff j i).1 e))

kept-Basis :
    (i : ℕ) (db : Tables) (u : User) (c : ℕ)
    → Readable (record db { permissions = kept i db.permissions }) u c
    → Basis i db u c
kept-Basis i db u c (as_admin k a m e) = no_permission (as_admin k a m e)
kept-Basis i db u c (by_department a o) = no_permission (by_department a o)
kept-Basis i db u c (by_grant a (to_user q m g)) =
    let n = In-filter_by_sound (λ (p : Permission). not (p.id == i)) q db.permissions m in
    another q n.0 (other_id i q.id n.1) (by_grant a (to_user q (inl refl) g))
kept-Basis i db u c (by_grant a (to_department q d o m g)) =
    let n = In-filter_by_sound (λ (p : Permission). not (p.id == i)) q db.permissions m in
    another q n.0 (other_id i q.id n.1) (by_grant a (to_department q d o (inl refl) g))

module _ (keys : KeyStore) (points : Points) (tags : Tags) (sha256 : List ℕ → ℕ) (table : CharTable)
    (s : Settings) (hash_password : Text → Text) where
  abbrev Server : Type 0
  Server = Admin keys points tags sha256 table s hash_password

  -- The permission p is gone and with it every cached answer that used its resource; the other
  -- permissions stand, and no user may read a collection that the user could not read before.
  pub record IsRevoked (i : ℕ) (w w' : Server) : Type 0 where
    pub permission : Permission
    pub found : find_permission i w.tables.permissions ≡ some permission
    pub gone : find_permission i w'.tables.permissions ≡ none
    pub others :
        (j : ℕ)
        → j ≢ i
        → find_permission j w'.tables.permissions ≡ find_permission j w.tables.permissions
    pub no_answer : IsGone points tags (tag_of permission) w'.cache
    pub no_gain :
        (u : User) (c : ℕ)
        → In c (accessible_collection_ids w'.tables u)
        → In c (accessible_collection_ids w.tables u)
    pub basis :
        (u : User) (c : ℕ) → In c (accessible_collection_ids w'.tables u) → Basis i w.tables u c

  invalidate-IsGone :
      (p : Permission) (w : Server)
      → IsTagged points tags (tag_of p) w.cache
      → IsGone points tags
          (tag_of p)
          (invalidate_for_permission keys points tags sha256 table s hash_password p w).cache
  unfolding invalidate_for_permission invalidate_document invalidate_collection
  invalidate-IsGone p w = which (same_resource p.resource_type collection)
    where
      which :
          (b : Bool)
          → IsTagged points tags (if b then coll p.resource_id else doc p.resource_id) w.cache
          → IsGone points tags (if b then coll p.resource_id else doc p.resource_id) (
              if b
              then (evict points tags sha256 table s (coll p.resource_id) w.cache).1
              else (evict points tags sha256 table s (doc p.resource_id) w.cache).1)
      which true h = evict-IsGone points tags sha256 table s (coll p.resource_id) w.cache h
      which false h = evict-IsGone points tags sha256 table s (doc p.resource_id) w.cache h

  kept-Granted :
      (i : ℕ) (ps : List Permission) (u : ℕ) (o : Option ℕ) (r : ResourceType) (c : ℕ)
      → Granted (kept i ps) u o r c
      → Granted ps u o r c
  kept-Granted i ps u o r c (to_user p m g) =
      to_user p (In-filter_by_sound (λ (p : Permission). not (p.id == i)) p ps m).0 g
  kept-Granted i ps u o r c (to_department p d e m g) =
      to_department p d e (In-filter_by_sound (λ (p : Permission). not (p.id == i)) p ps m).0 g

  kept-Readable :
      (i : ℕ) (db : Tables) (u : User) (c : ℕ)
      → Readable (record db { permissions = kept i db.permissions }) u c
      → Readable db u c
  kept-Readable i db u c (as_admin k a m e) = as_admin k a m e
  kept-Readable i db u c (by_department a o) = by_department a o
  kept-Readable i db u c (by_grant a g) =
      by_grant a (kept-Granted i db.permissions u.id u.department_id collection c g)

  -- A permission that is revoked is gone, and so is every cached answer that used its resource; the other
  -- permissions stand. No user may read a collection that the user could not read before, and who may
  -- still read one may do so without any permission, or by another permission alone. The cache is taken
  -- to have each entry in the sets of what it used, as its operations leave it where the tags get
  -- written.
  pub revoke_permission-IsRevoked :
      (i : ℕ) (admin : User) (w w' : Server)
      → ((t : Tag) → IsTagged points tags t w.cache)
      → revoke_permission keys points tags sha256 table s hash_password i admin w ≡ (ok tt, w')
      → IsRevoked i w w'
  unfolding revoke_permission
  revoke_permission-IsRevoked i admin w w' h e =
      which (find_permission i w.tables.permissions) refl e
    where
      cleared : Permission → Server
      cleared p =
          record_audit keys points tags sha256 table s hash_password permission_change admin
            p.resource_id
            (invalidate_for_permission keys points tags sha256 table s hash_password p w)

      after : Permission → Server
      after p = record (cleared p) {
        tables = record w.tables { permissions = kept i w.tables.permissions };
      }

      revoked :
          (p : Permission)
          → find_permission i w.tables.permissions ≡ some p
          → IsRevoked i w (after p)
      revoked p f = record {
        permission = p;
        found = f;
        gone = find_permission-kept i w.tables.permissions;
        others = λ j n. find_permission-other i j w.tables.permissions n;
        no_answer = invalidate-IsGone p w (h (tag_of p));
        no_gain = λ u c m. (accessible_collection_ids_iff w.tables u c).1 (
            kept-Readable i w.tables u c (
              (accessible_collection_ids_iff
                  (record w.tables { permissions = kept i w.tables.permissions }) u c).0
                m));
        basis = λ u c m. kept-Basis i w.tables u c (
            (accessible_collection_ids_iff
                (record w.tables { permissions = kept i w.tables.permissions }) u c).0
              m);
      }

      which :
          (o : Option Permission)
          → find_permission i w.tables.permissions ≡ o
          → ◌≡◌ {A = Result AdminError (Unit {0}) × Server}
              (elim o [ none ↦ (raise permission_not_found, w) | some p ↦ (ok tt, after p) ])
              (ok tt, w')
          → IsRevoked i w w'
      which none f k = absurd (cc (ap (λ (r : Result AdminError (Unit {0}) × Server). r.0) k))
      which (some p) f k =
          subst (IsRevoked i w) (ap (λ (r : Result AdminError (Unit {0}) × Server). r.1) k)
            (revoked p f)
