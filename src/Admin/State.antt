-- ===== src/Admin/State.antt =====
-- What app/api/admin.py reads and writes: the rows, the session epochs in Redis and the semantic cache.
use agentic_rag_claude_code.Prelude.{ℕ, Bool, Option, List, Text}
use agentic_rag_claude_code.Access.Rbac.{
  Role, User, AccessLevel, PrincipalType, ResourceType, Tables,
}
use agentic_rag_claude_code.Auth.Tokens.{KeyStore}
use agentic_rag_claude_code.Cache.Stores.{Points, Tags}
use agentic_rag_claude_code.Cache.Semantic.{Stores}

pub record Department : Type 0 where
  pub id : ℕ
  pub name : Text

pub data AuditAction : Type 0 where
  admin_action permission_change : AuditAction

-- An audit row of an administrator; `resource_id` is that of the row that changed.
pub record AuditLog : Type 0 where
  pub action : AuditAction
  pub user_id : ℕ
  pub resource_id : ℕ

pub record State (keys : KeyStore) (points : Points) (tags : Tags) : Type 0 where
  pub users : List User
  pub departments : List Department
  pub tables : Tables
  pub audit : List AuditLog
  pub store : keys.Store
  pub cache : Stores points tags

pub data AdminError : Type 0 where
  department_exists unknown_department email_registered permission_exists user_not_found
        permission_not_found :
      AdminError

-- The bodies of the requests; a field of an update that is not given is none.
pub record UserCreate : Type 0 where
  pub email : Text
  pub password : Text
  pub role : Role
  pub department_id : Option ℕ

pub record UserUpdate : Type 0 where
  pub role : Option Role
  pub department_id : Option ℕ
  pub is_active : Option Bool

pub record PermissionCreate : Type 0 where
  pub principal_type : PrincipalType
  pub principal_id : ℕ
  pub resource_type : ResourceType
  pub resource_id : ℕ
  pub access_level : AccessLevel
