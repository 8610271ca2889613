-- ===== src/Tests/Admin.antt =====
-- Administration on concrete rows, and the examples of its theorems.
use agentic_rag_claude_code.Prelude.{
  ℕ, ◌≡◌, ◌≢◌, refl, Option, none, some, List, [], ◌∷◌, Text, codes, ok, raise, arith,
}
use agentic_rag_claude_code.Settings.{defaults}
use agentic_rag_claude_code.Characters.{ascii}
use agentic_rag_claude_code.Access.Rbac.{PrincipalType, collection, read, User}
use agentic_rag_claude_code.Auth.Tokens.{access, bump_session_epoch}
use agentic_rag_claude_code.Auth.Requests.{
  non_empty, or_else, Audit, get_current_user, Issued, Session, refresh_tokens,
}
use agentic_rag_claude_code.Cache.Stores.{Tag}
use agentic_rag_claude_code.Cache.Tagged.{IsTagged}
use agentic_rag_claude_code.Cache.Semantic.{invalidate_collection}
use agentic_rag_claude_code.Admin.State.{State, admin_action, permission_change, user_not_found}
use agentic_rag_claude_code.Admin.Service.{revoke_sessions, revoke_permission}
use agentic_rag_claude_code.Admin.Sessions.{revoked, ended_refused}
use agentic_rag_claude_code.Admin.Revocation.{IsRevoked, revoke_permission-IsRevoked}
use agentic_rag_claude_code.Tests.Auth.{tokens, key_store, grace, grace_claims, grace_access}
use agentic_rag_claude_code.Tests.Cache.{vectors, tag_sets, digest, nothing}

abbrev rows : State key_store vectors tag_sets
rows = record {
  users = grace ∷ [];
  departments = [];
  tables = record {
    collections = record { id = 20; name = codes "c"; department_id = none } ∷ [];
    permissions =
        record {
          id = 60;
          resource_type = collection;
          resource_id = 20;
          principal_type = PrincipalType.user;
          principal_id = 9;
          access_level = read;
        }
        ∷ [];
  };
  audit = [];
  store = ([], λ u. none);
  cache = nothing;
}

abbrev ended : State key_store vectors tag_sets
ended = record rows {
  store = bump_session_epoch key_store 7 3 rows.store;
  audit = record { action = admin_action; user_id = 3; resource_id = 3 } ∷ [];
}

revoked_sessions :
    revoke_sessions key_store vectors tag_sets digest ascii defaults (λ t. t) 7 3 grace rows
    ≡ (ok tt, ended)
unfolding revoke_sessions
revoked_sessions = refl

unknown_user :
    (revoke_sessions key_store vectors tag_sets digest ascii defaults (λ t. t) 7 4 grace rows).0
    ≡ raise user_not_found
unfolding revoke_sessions
unknown_user = refl

answered : key_store.get_epoch 10 3 ended.store ≢ none
unfolding bump_session_epoch
answered e = cc

ended_refused_example :
    (¬ (
      (u : User) × (get_current_user key_store tokens ended.users 10 (some grace_access) ended.store
        ≡ ok u)))
    × ¬ (
        (fresh : ℕ) × (fresh' : ℕ) × (body : Option Text) × (cookie : Option Text) × (audit : List
          Audit)
        × (r : Issued × Session key_store) × (non_empty (or_else (non_empty body) cookie)
            ≡ some grace_access)
        × (refresh_tokens key_store tokens defaults ended.users 10 fresh fresh' body cookie
              (record { store = ended.store; audit = audit })
            ≡ ok r))
ended_refused_example =
    ended_refused key_store vectors tag_sets digest ascii defaults (λ t. t) tokens 7 10 3 rows ended
      grace_access (record grace_claims { token_type = access }) (revoked grace revoked_sessions)
      answered refl refl refl (omega arith)

abbrev cut : State key_store vectors tag_sets
cut = record rows {
  tables = record rows.tables { permissions = [] };
  cache = (invalidate_collection vectors tag_sets digest ascii defaults 20 nothing).1;
  audit = record { action = permission_change; user_id = 3; resource_id = 20 } ∷ [];
}

revoked_permission :
    revoke_permission key_store vectors tag_sets digest ascii defaults (λ t. t) 60 grace rows
    ≡ (ok tt, cut)
unfolding revoke_permission
revoked_permission = refl

no_entries : (t : Tag) → IsTagged vectors tag_sets t nothing
unfolding IsTagged
no_entries t i e k n = absurd (cc k)

revoke_permission-IsRevoked_example :
    IsRevoked key_store vectors tag_sets digest ascii defaults (λ t. t) 60 rows cut
revoke_permission-IsRevoked_example =
    revoke_permission-IsRevoked key_store vectors tag_sets digest ascii defaults (λ t. t) 60 grace
      rows cut no_entries revoked_permission
