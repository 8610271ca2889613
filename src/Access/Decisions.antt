-- ===== src/Access/Decisions.antt =====
-- What the two checks of app/core/rbac.py answer, by the rules of access.
use agentic_rag_claude_code.Prelude.{
  ℕ, ◌≡◌, refl, ◌↔◌, ◌⊎◌, inl, inr, Bool, true, false, ◌||◌, List, In, elem, elem→In, In→elem,
  if◌then◌else◌,
}
use agentic_rag_claude_code.Access.Rbac.{
  Role, document, User, Document, Tables, is_admin, principals, granted_to_all,
  accessible_collection_ids, can_access_collection, can_access_document,
}
use agentic_rag_claude_code.Access.Readable.{
  Granted, Readable, to_principals_sound, to_principals_complete, accessible_collection_ids_iff,
}

is_admin_iff : (r : Role) → (is_admin r ≡ true) ↔ (r ≡ Role.admin)
is_admin_iff Role.admin = (λ h. refl, λ h. refl)
is_admin_iff Role.user = (λ h. cc, λ h. cc)

or_iff : (a b : Bool) → ((a || b) ≡ true) ↔ ((a ≡ true) ⊎ (b ≡ true))
or_iff true b = (λ h. inl refl, λ h. refl)
or_iff false b = (λ h. inr h, λ h. elim h [ inl k ↦ cc | inr k ↦ k ])

elem_iff : (a : ℕ) (xs : List ℕ) → (elem a xs ≡ true) ↔ In a xs
elem_iff a xs = (elem→In a xs, In→elem a xs)

module _ (db : Tables) (u : User) (id : ℕ) where
  -- can_access_collection answers true exactly for an admin and for a readable collection.
  can_access_collection_iff :
      (can_access_collection db u id ≡ true) ↔ ((u.role ≡ Role.admin) ⊎ Readable db u id)
  unfolding can_access_collection
  can_access_collection_iff = (to, from)
    where
      to : can_access_collection db u id ≡ true → (u.role ≡ Role.admin) ⊎ Readable db u id
      to h = elim ((or_iff (is_admin u.role) (elem id (accessible_collection_ids db u))).0 h) [
        | inl a ↦ inl ((is_admin_iff u.role).0 a)
        | inr e ↦ inr (
            (accessible_collection_ids_iff db u id).0
              (elem→In id (accessible_collection_ids db u) e))
      ]

      from : (u.role ≡ Role.admin) ⊎ Readable db u id → can_access_collection db u id ≡ true
      from (inl a) =
          (or_iff (is_admin u.role) (elem id (accessible_collection_ids db u))).1
            (inl ((is_admin_iff u.role).1 a))
      from (inr q) = (or_iff (is_admin u.role) (elem id (accessible_collection_ids db u))).1 (
          inr (
            In→elem id (accessible_collection_ids db u)
              ((accessible_collection_ids_iff db u id).1 q)))

three_iff :
    (a b c : Bool)
    → ((if a then true else if b then true else c) ≡ true)
      ↔ ((a ≡ true) ⊎ ((b ≡ true) ⊎ (c ≡ true)))
three_iff true b c = (λ h. inl refl, λ h. refl)
three_iff false true c = (λ h. inr (inl refl), λ h. refl)
three_iff false false c =
    (λ h. inr (inr h), λ h. elim h [ inl k ↦ cc | inr k ↦ elim k [ inl l ↦ cc | inr l ↦ l ] ])

module _ (db : Tables) (u : User) (d : Document) where
  unfoldable pub MayReadDocument : Type 0
  MayReadDocument =
      (u.role ≡ Role.admin)
      ⊎ (Readable db u d.collection_id ⊎ Granted db.permissions u.id u.department_id document d.id)

  document_tests_iff : (can_access_document db u d ≡ true) ↔ (
      (is_admin u.role ≡ true)
      ⊎ ((can_access_collection db u d.collection_id ≡ true)
          ⊎ (elem d.id (granted_to_all document (principals u) db.permissions) ≡ true)))
  unfolding can_access_document
  document_tests_iff =
      three_iff (is_admin u.role) (can_access_collection db u d.collection_id)
        (elem d.id (granted_to_all document (principals u) db.permissions))

  document_sound : can_access_document db u d ≡ true → MayReadDocument
  unfolding MayReadDocument
  document_sound h = elim (document_tests_iff.0 h) [
    | inl a ↦ inl ((is_admin_iff u.role).0 a)
    | inr k ↦ elim k [
      | inl c ↦ elim ((can_access_collection_iff db u d.collection_id).0 c) [
        | inl a ↦ inl a
        | inr q ↦ inr (inl q)
      ]
      | inr g ↦ inr (
          inr (
            to_principals_sound db.permissions u.id u.department_id document d.id
              ((elem_iff d.id (granted_to_all document (principals u) db.permissions)).0 g)))
    ]
  ]

  document_complete : MayReadDocument → can_access_document db u d ≡ true
  unfolding MayReadDocument
  document_complete (inl a) = document_tests_iff.1 (inl ((is_admin_iff u.role).1 a))
  document_complete (inr (inl q)) =
      document_tests_iff.1 (inr (inl ((can_access_collection_iff db u d.collection_id).1 (inr q))))
  document_complete (inr (inr g)) = document_tests_iff.1 (
      inr (
        inr (
          (elem_iff d.id (granted_to_all document (principals u) db.permissions)).1
            (to_principals_complete db.permissions u.id u.department_id document d.id g))))

  -- can_access_document answers true exactly for an admin, for a document whose collection the user
  -- may read, and for a document that a permission row grants to the user or to the user's
  -- department.
  pub can_access_document_iff : (can_access_document db u d ≡ true) ↔ MayReadDocument
  can_access_document_iff = (document_sound, document_complete)
