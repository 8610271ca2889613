-- ===== src/Access/Readable.antt =====
-- The rules of access in the head comment of app/core/rbac.py, and that its queries decide them.
use mathlib.Core.List.{map}
use agentic_rag_claude_code.Prelude.{
  ℕ, ◌≡◌, refl, sym, subst, ◌↔◌, ◌⊎◌, inl, inr, Option, none, some, List, [], ◌++◌, In,
  In-append_left, In-append_right, In-append_split, if◌then◌else◌,
}
use agentic_rag_claude_code.Access.Rbac.{
  Role, PrincipalType, department, ResourceType, collection, User, Collection, Permission, Tables,
  is_admin, granted, principals_of, principals, granted_to_all, own_department,
  accessible_collection_ids,
}
use agentic_rag_claude_code.Access.Queries.{
  In-map_id, In-map_of, department_collections_sound, department_collections_complete, IsGrant,
  granted_sound, granted_complete,
}

-- A row of ps grants the resource id of kind r to the user i, or to the user's department o.
pub data Granted (ps : List Permission) (i : ℕ) (o : Option ℕ) (r : ResourceType) (id : ℕ)
    : Type 0 where
  to_user : (p : Permission) → In p ps → IsGrant r PrincipalType.user i id p → Granted ps i o r id
  to_department :
      (p : Permission) (d : ℕ)
      → o ≡ some d
      → In p ps
      → IsGrant r department d id p
      → Granted ps i o r id

-- A collection of the user's department.
pub data OwnedBy (cs : List Collection) (o : Option ℕ) (id : ℕ) : Type 0 where
  of_department :
      (c : Collection) (d : ℕ)
      → o ≡ some d
      → In c cs
      → c.department_id ≡ some d
      → c.id ≡ id
      → OwnedBy cs o id

-- The rules for the collections that a user may read.
pub data Readable (db : Tables) (u : User) (id : ℕ) : Type 0 where
  as_admin :
      (c : Collection) → u.role ≡ Role.admin → In c db.collections → c.id ≡ id → Readable db u id
  by_department : u.role ≡ Role.user → OwnedBy db.collections u.department_id id → Readable db u id
  by_grant :
      u.role ≡ Role.user
      → Granted db.permissions u.id u.department_id collection id
      → Readable db u id

owned_sound :
    (cs : List Collection) (o : Option ℕ) (id : ℕ) → In id (own_department o cs) → OwnedBy cs o id
unfolding own_department
owned_sound cs none id m = elim m [ ]
owned_sound cs (some d) id m =
    let (c, l, h, e) = department_collections_sound d id cs m in of_department c d refl l h e

owned_complete :
    (cs : List Collection) (o : Option ℕ) (id : ℕ) → OwnedBy cs o id → In id (own_department o cs)
unfolding own_department
owned_complete cs o id (of_department c d q l h e) =
    subst (λ o. In id (own_department o cs)) (sym q)
      (department_collections_complete d id cs c l h e)

pub to_principals_sound :
    (ps : List Permission) (i : ℕ) (o : Option ℕ) (r : ResourceType) (id : ℕ)
    → In id (granted_to_all r (principals_of i o) ps)
    → Granted ps i o r id
unfolding granted_to_all
to_principals_sound ps i none r id m =
    elim (In-append_split id (granted r PrincipalType.user i ps) [] m) [
      | inl l ↦ let (p, k, g) = granted_sound r PrincipalType.user i id ps l in to_user p k g
      | inr l ↦ elim l [ ]
    ]
to_principals_sound ps i (some d) r id m =
    elim (In-append_split id (granted r PrincipalType.user i ps) (granted r department d ps ++ [])
      m) [
        | inl l ↦ let (p, k, g) = granted_sound r PrincipalType.user i id ps l in to_user p k g
        | inr l ↦ elim (In-append_split id (granted r department d ps) [] l) [
          | inl n ↦
              let (p, k, g) = granted_sound r department d id ps n in to_department p d refl k g
          | inr n ↦ elim n [ ]
        ]
      ]

first_principal :
    (ps : List Permission) (i : ℕ) (o : Option ℕ) (r : ResourceType) (id : ℕ)
    → In id (granted r PrincipalType.user i ps)
    → In id (granted_to_all r (principals_of i o) ps)
unfolding granted_to_all
first_principal ps i none r id m = In-append_left id (granted r PrincipalType.user i ps) [] m
first_principal ps i (some d) r id m =
    In-append_left id (granted r PrincipalType.user i ps) (granted r department d ps ++ []) m

pub to_principals_complete :
    (ps : List Permission) (i : ℕ) (o : Option ℕ) (r : ResourceType) (id : ℕ)
    → Granted ps i o r id
    → In id (granted_to_all r (principals_of i o) ps)
unfolding granted_to_all
to_principals_complete ps i o r id (to_user p k g) =
    first_principal ps i o r id (granted_complete r PrincipalType.user i id ps p k g)
to_principals_complete ps i o r id (to_department p d q k g) =
    subst (λ o. In id (granted_to_all r (principals_of i o) ps)) (sym q)
      (In-append_right id (granted r PrincipalType.user i ps) (granted r department d ps ++ []) (
        In-append_left id (granted r department d ps) []
          (granted_complete r department d id ps p k g)))

pub Role-cases : (r : Role) → (r ≡ Role.admin) ⊎ (r ≡ Role.user)
Role-cases Role.admin = inl refl
Role-cases Role.user = inr refl

module _ (db : Tables) (u : User) (id : ℕ) where
  own : List ℕ
  own = own_department u.department_id db.collections

  rows : List ℕ
  rows = granted_to_all collection (principals u) db.permissions

  user_sound : u.role ≡ Role.user → In id (own ++ rows) → Readable db u id
  unfolding own rows
  user_sound h m = elim (In-append_split id own rows m) [
    | inl l ↦ by_department h (owned_sound db.collections u.department_id id l)
    | inr l ↦ by_grant h (to_principals_sound db.permissions u.id u.department_id collection id l)
  ]

  user_complete : Readable db u id → u.role ≡ Role.user → In id (own ++ rows)
  unfolding own rows
  user_complete (as_admin c a l e) h = cc
  user_complete (by_department k o) h =
      In-append_left id own rows (owned_complete db.collections u.department_id id o)
  user_complete (by_grant k g) h =
      In-append_right id own rows
        (to_principals_complete db.permissions u.id u.department_id collection id g)

  admin_sound :
      u.role ≡ Role.admin → In id (map (λ (c : Collection). c.id) db.collections) → Readable db u id
  admin_sound h m = let (c, l, e) = In-map_id id db.collections m in as_admin c h l e

  admin_complete :
      Readable db u id → u.role ≡ Role.admin → In id (map (λ (c : Collection). c.id) db.collections)
  admin_complete (as_admin c a l e) h = In-map_of id db.collections c l e
  admin_complete (by_department k o) h = cc
  admin_complete (by_grant k g) h = cc

  -- An id is among the accessible collection ids of a user exactly when a rule of access gives it:
  -- for an admin when it is the id of a collection, for a user when it is a collection of the
  -- user's department or a permission row grants it to the user or to that department.
  pub accessible_collection_ids_iff : In id (accessible_collection_ids db u) ↔ Readable db u id
  unfolding accessible_collection_ids own rows
  accessible_collection_ids_iff = elim (Role-cases u.role) [
    | inl h ↦
        subst
          (λ r.
            In id
              (if is_admin r then map (λ (c : Collection). c.id) db.collections else (own ++ rows))
            ↔ Readable db u id)
          (sym h) (admin_sound h, λ q. admin_complete q h)
    | inr h ↦
        subst
          (λ r.
            In id
              (if is_admin r then map (λ (c : Collection). c.id) db.collections else (own ++ rows))
            ↔ Readable db u id)
          (sym h) (user_sound h, λ q. user_complete q h)
  ]
