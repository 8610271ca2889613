-- ===== src/Auth/Requests.antt =====
-- app/core/deps.py, and the endpoints login, refresh and logout of app/api/auth.py. `verify` is the
-- password check of app/core/security.py, which calls bcrypt. A read that finds no row is none; audit
-- rows keep their action and their user.
use agentic_rag_claude_code.Prelude.{
  ℕ, ◌*◌, Bool, not, Option, none, some, List, [], ◌∷◌, ◌++◌, Text, text_eq, is_empty, leb, ◌==◌,
  if◌then◌else◌, Result, ok, raise, ◌>>=◌, ◌>>◌, require, or_raise,
}
use agentic_rag_claude_code.Settings.{Settings}
use agentic_rag_claude_code.Access.Rbac.{User, is_admin}
use agentic_rag_claude_code.Auth.Tokens.{
  Claims, is_access, is_refresh, Jwt, create_access_token, create_refresh_token, KeyStore,
  revoke_jti, is_revoked, session_epoch, ttl_seconds,
}

pub data AuthError : Type 0 where
  could_not_validate admin_role_required invalid_credentials account_disabled : AuthError
  no_refresh_token invalid_refresh_token not_a_refresh_token refresh_token_revoked : AuthError

-- `not x` of a text that may be None
abbrev pub non_empty : Option Text → Option Text
non_empty none = none
non_empty (some t) = if is_empty t then none else some t

abbrev pub or_else : Option Text → Option Text → Option Text
or_else none b = b
or_else (some a) b = some a

-- db.get(User, user_id)
abbrev pub find_user : ℕ → List User → Option User
find_user i [] = none
find_user i (u ∷ us) = let rest = find_user i us in if u.id == i then some u else rest

-- select(User).where(User.email == email); emails are unique
abbrev pub user_of_email : Text → List User → Option User
user_of_email e [] = none
user_of_email e (u ∷ us) =
    let rest = user_of_email e us in if text_eq u.email e then some u else rest

module _ (keys : KeyStore) (jwt : Jwt) (users : List User) where
  -- The checks behind the decoding, which get_current_user and refresh make in the same order: the
  -- denylist (the exception `revoked`), the user (`invalid`), the session epoch (`old`).
  unfoldable pub live_user :
      AuthError → AuthError → AuthError → ℕ → Claims → keys.Store → Result AuthError (ℕ × User)
  live_user revoked invalid old now payload s = do
    jti ← or_raise payload.jti revoked
    require (not (is_revoked keys now jti s)) revoked
    user_id ← or_raise payload.sub invalid
    user ← or_raise (find_user user_id users) invalid
    require user.is_active invalid
    require (leb (session_epoch keys now user.id s) payload.iat) old
    ok (jti, user)

  unfoldable pub get_current_user : ℕ → Option Text → keys.Store → Result AuthError User
  unfolding live_user
  get_current_user now creds s = do
    token ← or_raise (non_empty creds) could_not_validate
    payload ← or_raise (jwt.decode now token) could_not_validate
    require (is_access payload.token_type) could_not_validate
    live ← live_user could_not_validate could_not_validate could_not_validate now payload s
    ok live.1

  unfoldable pub require_admin : ℕ → Option Text → keys.Store → Result AuthError User
  unfolding get_current_user
  require_admin now creds s = do
    user ← get_current_user now creds s
    require (is_admin user.role) admin_role_required
    ok user

pub data AuditAction : Type 0 where
  login_succeeded login_failed token_refresh logged_out : AuditAction

pub record Audit : Type 0 where
  pub action : AuditAction
  pub user_id : Option ℕ

pub record TokenResponse : Type 0 where
  pub access_token : Text
  pub refresh_token : Text
  pub expires_in : ℕ

-- The response and the cookie that it sets.
pub record Issued : Type 0 where
  pub response : TokenResponse
  pub cookie : Text

-- `fresh` and `fresh'` are the UUIDs of the two tokens.
unfoldable pub issue_pair : Jwt → Settings → ℕ → ℕ → ℕ → User → Issued
unfolding create_access_token create_refresh_token
issue_pair jwt s now fresh fresh' user =
    let a = create_access_token jwt s now fresh user.id user.role user.department_id in
    let r = create_refresh_token jwt s now fresh' user.id user.role user.department_id in
    record {
      response = record {
        access_token = a.token;
        refresh_token = r.token;
        expires_in = s.access_token_ttl_min * 60;
      };
      cookie = r.token;
    }

module _ (keys : KeyStore) where
  pub record Session : Type 0 where
    pub store : keys.Store
    pub audit : List Audit

  abbrev pub record_audit : AuditAction → Option ℕ → Session → Session
  record_audit action user_id w = record w {
    audit = w.audit ++ (record { action = action; user_id = user_id }) ∷ [];
  }

abbrev pub id_of : Option User → Option ℕ
id_of none = none
id_of (some u) = some u.id

module _ (keys : KeyStore) (jwt : Jwt) (s : Settings) (users : List User) where
  -- A failed login is recorded before the exception is raised.
  abbrev pub login_user :
      (Text → Text → Bool)
      → ℕ
      → ℕ
      → ℕ
      → Text
      → Session keys
      → Option User
      → Result AuthError Issued × Session keys
  login_user verify now fresh fresh' password w none =
      (raise invalid_credentials, record_audit keys login_failed none w)
  login_user verify now fresh fresh' password w (some u) =
      if not (verify password u.hashed_password)
      then (raise invalid_credentials, record_audit keys login_failed (some u.id) w)
      else if not u.is_active
      then (raise account_disabled, record_audit keys login_failed (some u.id) w)
      else (
        ok (issue_pair jwt s now fresh fresh' u),
        record_audit keys login_succeeded (some u.id) w,
      )

  unfoldable pub login :
      (Text → Text → Bool)
      → ℕ
      → ℕ
      → ℕ
      → Text
      → Text
      → Session keys
      → Result AuthError Issued × Session keys
  login verify now fresh fresh' email password w =
      login_user verify now fresh fresh' password w (user_of_email email users)

  -- A request that raises leaves the session as it was.
  unfoldable pub refresh_tokens :
      ℕ
      → ℕ
      → ℕ
      → Option Text
      → Option Text
      → Session keys
      → Result AuthError (Issued × Session keys)
  unfolding live_user
  refresh_tokens now fresh fresh' body cookie w = do
    presented ← or_raise (non_empty (or_else (non_empty body) cookie)) no_refresh_token
    payload ← or_raise (jwt.decode now presented) invalid_refresh_token
    require (is_refresh payload.token_type) not_a_refresh_token
    live ←
        live_user keys jwt users refresh_token_revoked invalid_refresh_token refresh_token_revoked
          now payload w.store
    ok (
      issue_pair jwt s now fresh fresh' live.1,
      record_audit keys token_refresh (some live.1.id)
          (record w { store = revoke_jti keys now live.0 (ttl_seconds now payload.exp) w.store }),
    )

  abbrev pub revoke_claims : ℕ → Claims → keys.Store → keys.Store
  revoke_claims now c store = elim c.jti [
    | none ↦ store
    | some j ↦ revoke_jti keys now j (ttl_seconds now c.exp) store
  ]

  -- The refresh token of the cookie is revoked too, unless it cannot be decoded.
  abbrev pub revoke_cookie : ℕ → Option Text → keys.Store → keys.Store
  revoke_cookie now none store = store
  revoke_cookie now (some t) store = elim (jwt.decode now t) [
    | none ↦ store
    | some c ↦ revoke_claims now c store
  ]

  unfoldable pub logout :
      ℕ → Option Text → Option Text → Session keys → Result AuthError (Session keys)
  unfolding get_current_user
  logout now creds cookie w = do
    user ← get_current_user keys jwt users now creds w.store
    token ← or_raise creds could_not_validate
    payload ← or_raise (jwt.decode now token) could_not_validate
    ok (
        record_audit keys logged_out (some user.id) (record w {
          store = revoke_cookie now (non_empty cookie) (revoke_claims now payload w.store);
        }))
