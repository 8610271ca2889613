-- ===== src/Access/Rbac.antt =====
-- app/core/rbac.py over the rows of the tables that it selects from. A set of ids is a list; a NULL
-- department equals none.
use agentic_rag_claude_code.Prelude.{
  ℕ, Bool, true, false, ◌&&◌, ◌||◌, Option, none, some, Text, List, [], ◌∷◌, ◌++◌, map, elem, ◌==◌,
  if◌then◌else◌,
}
use agentic_rag_claude_code.Ingestion.FileType.{FileType}

pub data Role : Type 0 where
  admin user : Role

pub data PrincipalType : Type 0 where
  user department : PrincipalType

pub data ResourceType : Type 0 where
  collection document : ResourceType

pub record User : Type 0 where
  pub id : ℕ
  pub role : Role
  pub department_id : Option ℕ
  pub is_active : Bool
  pub email : Text
  pub hashed_password : Text

pub record Collection : Type 0 where
  pub id : ℕ
  pub name : Text
  pub department_id : Option ℕ

pub data AccessLevel : Type 0 where
  read write admin : AccessLevel

pub record Permission : Type 0 where
  pub id : ℕ
  pub resource_type : ResourceType
  pub resource_id : ℕ
  pub principal_type : PrincipalType
  pub principal_id : ℕ
  pub access_level : AccessLevel

pub data DocumentStatus : Type 0 where
  pending processing indexed failed duplicate : DocumentStatus

pub record Document : Type 0 where
  pub id : ℕ
  pub collection_id : ℕ
  pub filename : Text
  pub file_type : FileType
  pub content_hash : ℕ
  pub status : DocumentStatus
  pub error : Option Text
  pub uploaded_by_id : Option ℕ

pub record Tables : Type 0 where
  pub collections : List Collection
  pub permissions : List Permission

abbrev pub is_admin : Role → Bool
is_admin Role.admin = true
is_admin Role.user = false

abbrev pub same_resource : ResourceType → ResourceType → Bool
same_resource collection collection = true
same_resource document document = true
same_resource collection document = false
same_resource document collection = false

abbrev pub same_principal : PrincipalType → PrincipalType → Bool
same_principal PrincipalType.user PrincipalType.user = true
same_principal department department = true
same_principal PrincipalType.user department = false
same_principal department PrincipalType.user = false

abbrev pub equals_some : Option ℕ → ℕ → Bool
equals_some none d = false
equals_some (some e) d = e == d

-- select(Collection.id).where(Collection.department_id == d)
unfoldable pub department_collections : ℕ → List Collection → List ℕ
department_collections d [] = []
department_collections d (c ∷ cs) =
    let rest = department_collections d cs in
    if equals_some c.department_id d then c.id ∷ rest else rest

abbrev pub grants_to : ResourceType → PrincipalType → ℕ → Permission → Bool
grants_to r t i p =
    same_resource p.resource_type r && same_principal p.principal_type t && p.principal_id == i

-- select(Permission.resource_id).where(...)
unfoldable pub granted : ResourceType → PrincipalType → ℕ → List Permission → List ℕ
granted r t i [] = []
granted r t i (p ∷ ps) =
    let rest = granted r t i ps in if grants_to r t i p then p.resource_id ∷ rest else rest

-- the user, and the user's department if there is one
abbrev pub principals_of : ℕ → Option ℕ → List (PrincipalType × ℕ)
principals_of i none = (PrincipalType.user, i) ∷ []
principals_of i (some d) = (PrincipalType.user, i) ∷ (department, d) ∷ []

abbrev pub principals : User → List (PrincipalType × ℕ)
principals u = principals_of u.id u.department_id

unfoldable pub granted_to_all : ResourceType → List (PrincipalType × ℕ) → List Permission → List ℕ
unfolding granted
granted_to_all r [] ps = []
granted_to_all r ((t, i) ∷ rest) ps = granted r t i ps ++ granted_to_all r rest ps

unfoldable pub own_department : Option ℕ → List Collection → List ℕ
unfolding department_collections
own_department none cs = []
own_department (some d) cs = department_collections d cs

unfoldable pub accessible_collection_ids : Tables → User → List ℕ
unfolding own_department granted_to_all
accessible_collection_ids db u =
    if is_admin u.role
    then map (λ c. c.id) db.collections
    else own_department u.department_id db.collections
      ++ granted_to_all collection (principals u) db.permissions

unfoldable pub can_access_collection : Tables → User → ℕ → Bool
unfolding accessible_collection_ids
can_access_collection db u c = is_admin u.role || elem c (accessible_collection_ids db u)

unfoldable pub can_access_document : Tables → User → Document → Bool
unfolding can_access_collection
can_access_document db u d =
    if is_admin u.role
    then true
    else if can_access_collection db u d.collection_id
    then true
    else elem d.id (granted_to_all document (principals u) db.permissions)
