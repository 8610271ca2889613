-- ===== src/Admin/Service.antt =====
-- The endpoints of app/api/admin.py. The identifiers of new rows and the temporary password are random
-- values of the call; `hash_password` is that of bcrypt. A call of Redis or of the vector database that
-- raises ends the request in the source and is not modelled.
use agentic_rag_claude_code.Prelude.{
  ℕ, Bool, true, false, not, ◌&&◌, Option, none, some, List, [], ◌∷◌, Text, text_eq, take, is_some,
  ltb, get_or_else, filter_by, find_if, ◌==◌, if◌then◌else◌, Result, ok, raise,
}
use agentic_rag_claude_code.Settings.{Settings}
use agentic_rag_claude_code.Characters.{CharTable}
use agentic_rag_claude_code.Access.Rbac.{
  User, Collection, AccessLevel, Permission, same_resource, same_principal, collection,
}
use agentic_rag_claude_code.Auth.Tokens.{KeyStore, bump_session_epoch}
use agentic_rag_claude_code.Auth.Requests.{find_user}
use agentic_rag_claude_code.Cache.Stores.{Points, Tags, Tag, coll, doc}
use agentic_rag_claude_code.Cache.Semantic.{invalidate_document, invalidate_collection}
use agentic_rag_claude_code.Admin.State.{
  Department, AuditAction, admin_action, permission_change, AuditLog, State, AdminError,
  department_exists, unknown_department, email_registered, permission_exists, user_not_found,
  permission_not_found, UserCreate, UserUpdate, PermissionCreate,
}

abbrev pub has_name : Text → Department → Bool
has_name name d = text_eq d.name name

abbrev pub has_email : Text → User → Bool
has_email email u = text_eq u.email email

-- No department is given, or one that exists.
abbrev pub knows_department : Option ℕ → List Department → Bool
knows_department none ds = true
knows_department (some i) ds = is_some (find_if (λ (d : Department). d.id == i) ds)

-- the unique columns of a permission
abbrev pub same_grant : PermissionCreate → Permission → Bool
same_grant body p =
    same_principal p.principal_type body.principal_type
    && p.principal_id == body.principal_id
    && same_resource p.resource_type body.resource_type
    && p.resource_id == body.resource_id

-- The row of this id with its new columns.
abbrev pub update_user_row : (User → User) → ℕ → List User → List User
update_user_row f i [] = []
update_user_row f i (u ∷ us) =
    let rest = update_user_row f i us in if u.id == i then f u ∷ us else u ∷ rest

abbrev pub set_level : AccessLevel → ℕ → List Permission → List Permission
set_level level i [] = []
set_level level i (p ∷ ps) =
    let rest = set_level level i ps in
    if p.id == i then record p { access_level = level } ∷ ps else p ∷ rest

abbrev pub find_permission : ℕ → List Permission → Option Permission
find_permission i ps = find_if (λ (p : Permission). p.id == i) ps

-- department_id is written where it is given
abbrev pub or_old : Option ℕ → Option ℕ → Option ℕ
or_old none old = old
or_old (some i) old = some i

abbrev pub updated : UserUpdate → User → User
updated body u = record u {
  role = get_or_else body.role u.role;
  department_id = or_old body.department_id u.department_id;
  is_active = get_or_else body.is_active u.is_active;
}

abbrev pub is_suspended : Option Bool → Bool → Bool
is_suspended none active = false
is_suspended (some given) active = active && not given

-- _invalidate_for_permission
abbrev pub tag_of : Permission → Tag
tag_of p =
    if same_resource p.resource_type collection then coll p.resource_id else doc p.resource_id

module _ (keys : KeyStore) (points : Points) (tags : Tags) (sha256 : List ℕ → ℕ) (table : CharTable)
    (s : Settings) (hash_password : Text → Text) where
  abbrev pub Admin : Type 0
  Admin = State keys points tags

  abbrev pub record_audit : AuditAction → User → ℕ → Admin → Admin
  record_audit action admin i w = record w {
    audit = record { action = action; user_id = admin.id; resource_id = i } ∷ w.audit;
  }

  unfoldable pub create_department : ℕ → Text → User → Admin → Result AdminError Department × Admin
  create_department id name admin w =
      let dept : Department = record { id = id; name = name } in
      if is_some (find_if (has_name name) w.departments) then (raise department_exists, w) else (
        ok dept,
        record_audit admin_action admin id (record w { departments = dept ∷ w.departments }),
      )

  unfoldable pub create_user : ℕ → UserCreate → User → Admin → Result AdminError User × Admin
  create_user id body admin w =
      let u : User = record {
        id = id;
        role = body.role;
        department_id = body.department_id;
        is_active = true;
        email = body.email;
        hashed_password = hash_password body.password;
      } in
      if not (knows_department body.department_id w.departments)
      then (raise unknown_department, w)
      else if is_some (find_if (has_email body.email) w.users)
      then (raise email_registered, w)
      else (ok u, record_audit admin_action admin id (record w { users = u ∷ w.users }))

  unfoldable pub create_collection :
      ℕ → Text → Option ℕ → User → Admin → Result AdminError Collection × Admin
  create_collection id name department_id admin w =
      let c : Collection = record { id = id; name = name; department_id = department_id } in
      if not (knows_department department_id w.departments)
      then (raise unknown_department, w)
      else (
        ok c,
        record_audit admin_action admin id
            (record w { tables = record w.tables { collections = c ∷ w.tables.collections } }),
      )

  unfoldable pub grant_permission :
      ℕ → PermissionCreate → User → Admin → Result AdminError Permission × Admin
  grant_permission id body admin w =
      let p : Permission = record {
        id = id;
        resource_type = body.resource_type;
        resource_id = body.resource_id;
        principal_type = body.principal_type;
        principal_id = body.principal_id;
        access_level = body.access_level;
      } in
      if is_some (find_if (same_grant body) w.tables.permissions)
      then (raise permission_exists, w)
      else (
        ok p,
        record_audit permission_change admin body.resource_id
            (record w { tables = record w.tables { permissions = p ∷ w.tables.permissions } }),
      )

  -- the newest rows
  unfoldable pub list_audit_logs : ℕ → Admin → List AuditLog
  list_audit_logs limit w = take (if ltb 500 limit then 500 else limit) w.audit

  unfoldable pub update_user : ℕ → ℕ → UserUpdate → User → Admin → Result AdminError User × Admin
  unfolding bump_session_epoch
  update_user now i body admin w = elim (find_user i w.users) [
    | none ↦ (raise user_not_found, w)
    | some u ↦
        let store =
          if is_suspended body.is_active u.is_active
          then bump_session_epoch keys now i w.store
          else w.store in
        (
          ok (updated body u),
          record_audit admin_action admin i
              (record w { users = update_user_row (updated body) i w.users; store = store }),
        )
  ]

  unfoldable pub revoke_sessions : ℕ → ℕ → User → Admin → Result AdminError (Unit {0}) × Admin
  unfolding bump_session_epoch
  revoke_sessions now i admin w = elim (find_user i w.users) [
    | none ↦ (raise user_not_found, w)
    | some u ↦ (
      ok tt,
      record_audit admin_action admin i
          (record w { store = bump_session_epoch keys now i w.store }),
    )
  ]

  unfoldable pub reset_credential : ℕ → ℕ → Text → User → Admin → Result AdminError Text × Admin
  unfolding bump_session_epoch
  reset_credential now i temp admin w = elim (find_user i w.users) [
    | none ↦ (raise user_not_found, w)
    | some u ↦ (
      ok temp,
      record_audit admin_action admin i (record w {
        users =
            update_user_row (λ (u : User). record u { hashed_password = hash_password temp }) i
              w.users;
        store = bump_session_epoch keys now i w.store;
      }),
    )
  ]

  unfoldable pub invalidate_for_permission : Permission → Admin → Admin
  unfolding invalidate_document invalidate_collection
  invalidate_for_permission p w = record w {
    cache =
        if same_resource p.resource_type collection
        then (invalidate_collection points tags sha256 table s p.resource_id w.cache).1
        else (invalidate_document points tags sha256 table s p.resource_id w.cache).1;
  }

  unfoldable pub edit_permission :
      ℕ → AccessLevel → User → Admin → Result AdminError Permission × Admin
  unfolding invalidate_for_permission
  edit_permission i level admin w = elim (find_permission i w.tables.permissions) [
    | none ↦ (raise permission_not_found, w)
    | some p ↦ (
      ok (record p { access_level = level }),
      record_audit permission_change admin p.resource_id (
          invalidate_for_permission p (record w {
            tables = record w.tables { permissions = set_level level i w.tables.permissions };
          })),
    )
  ]

  unfoldable pub revoke_permission : ℕ → User → Admin → Result AdminError (Unit {0}) × Admin
  unfolding invalidate_for_permission
  revoke_permission i admin w = elim (find_permission i w.tables.permissions) [
    | none ↦ (raise permission_not_found, w)
    | some p ↦
        let cleared =
          record_audit permission_change admin p.resource_id (invalidate_for_permission p w) in
        (
          ok tt,
          record cleared {
            tables = record w.tables {
              permissions = filter_by (λ (p : Permission). not (p.id == i)) w.tables.permissions;
            };
          },
        )
  ]
