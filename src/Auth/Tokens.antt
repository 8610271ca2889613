-- ===== src/Auth/Tokens.antt =====
-- The tokens of app/core/security.py and the denylist and session epochs of app/core/redis.py. The
-- signing library and Redis are not part of the repository: records of their calls, with what they
-- are documented to do as laws. Redis may fail to answer a read, which is `none`; a write that fails
-- ends the request in the source and is not modelled.
use agentic_rag_claude_code.Prelude.{
  ℕ, ◌+◌, ◌-◌, ◌*◌, ◌/◌, ◌≤◌, ◌<◌, ◌≡◌, ◌≢◌, ◌⊎◌, Bool, true, false, Option, none, some, Text, leb,
  if◌then◌else◌,
}
use agentic_rag_claude_code.Settings.{Settings}
use agentic_rag_claude_code.Access.Rbac.{Role}

-- microseconds of a second
abbrev pub second : ℕ
second = 1000000

abbrev pub seconds_of : ℕ → ℕ
seconds_of now = now / second

-- the claim "type"
pub data TokenType : Type 0 where
  access refresh other : TokenType

abbrev pub is_access : TokenType → Bool
is_access access = true
is_access refresh = false
is_access other = false

abbrev pub is_refresh : TokenType → Bool
is_refresh access = false
is_refresh refresh = true
is_refresh other = false

-- The payload of a token: a missing or empty `jti` is none, so is a `sub` that is no UUID, and a
-- missing `iat` or `exp` is 0. `exp` is in seconds.
pub record Claims : Type 0 where
  pub sub : Option ℕ
  pub role : Role
  pub dept : Option ℕ
  pub token_type : TokenType
  pub jti : Option ℕ
  pub iat : ℕ
  pub exp : ℕ

pub record Jwt : Type 0 where
  pub encode : Claims → Text
  -- at a time; none where the library raises JWTError
  pub decode : ℕ → Text → Option Claims
  pub decode-encode :
      (now : ℕ) (c : Claims) → seconds_of now ≤ c.exp → decode now (encode c) ≡ some c
  pub decode-unexpired :
      (now : ℕ) (t : Text) (c : Claims) → decode now t ≡ some c → seconds_of now ≤ c.exp
  pub decode-same :
      (now later : ℕ) (t : Text) (c d : Claims)
      → decode now t ≡ some c
      → decode later t ≡ some d
      → c ≡ d

pub record IssuedToken : Type 0 where
  pub token : Text
  pub jti : ℕ
  pub expires_at : ℕ

-- `fresh` is the random UUID of the call; ttl is in microseconds.
unfoldable pub create_token : Jwt → ℕ → ℕ → ℕ → Role → Option ℕ → TokenType → ℕ → IssuedToken
create_token jwt now fresh subject role department_id kind ttl =
    let expires_at = now + ttl in
    let payload : Claims = record {
      sub = some subject;
      role = role;
      dept = department_id;
      token_type = kind;
      jti = some fresh;
      iat = now;
      exp = seconds_of expires_at;
    } in
    record { token = jwt.encode payload; jti = fresh; expires_at = expires_at }

unfoldable pub create_access_token : Jwt → Settings → ℕ → ℕ → ℕ → Role → Option ℕ → IssuedToken
unfolding create_token
create_access_token jwt s now fresh subject role department_id =
    create_token jwt now fresh subject role department_id access
      (s.access_token_ttl_min * 60 * second)

unfoldable pub create_refresh_token : Jwt → Settings → ℕ → ℕ → ℕ → Role → Option ℕ → IssuedToken
unfolding create_token
create_refresh_token jwt s now fresh subject role department_id =
    create_token jwt now fresh subject role department_id refresh
      (s.refresh_token_ttl_days * 86400 * second)

-- The keys jwt:denylist:<jti> and user:session_epoch:<user>. The answers are those at a time: a key
-- with an expiry is there until it, and `none` is a call that raises.
pub record KeyStore : Type 1 where
  pub Store : Type 0
  pub exists : ℕ → ℕ → Store → Option Bool
  pub set_denied : ℕ → ℕ → ℕ → Store → Store
  pub get_epoch : ℕ → ℕ → Store → Option (Option ℕ)
  pub set_epoch : ℕ → ℕ → Store → Store
  pub exists-set_denied :
      (now jti ttl at : ℕ) (s : Store)
      → at < now + ttl * second
      → exists at jti (set_denied now jti ttl s) ≢ some false
  pub other-set_denied :
      (now jti ttl at other : ℕ) (s : Store)
      → other ≢ jti
      → exists at other (set_denied now jti ttl s) ≡ exists at other s
  pub exists-set_epoch :
      (user epoch at jti : ℕ) (s : Store) → exists at jti (set_epoch user epoch s) ≡ exists at jti s
  pub epoch-set_epoch :
      (user epoch at : ℕ) (s : Store)
      → (get_epoch at user (set_epoch user epoch s) ≡ none)
        ⊎ (get_epoch at user (set_epoch user epoch s) ≡ some (some epoch))

module _ (keys : KeyStore) where
  -- ttl_seconds is 0 where the token has expired
  unfoldable pub revoke_jti : ℕ → ℕ → ℕ → keys.Store → keys.Store
  revoke_jti now jti ttl_seconds s =
      if leb ttl_seconds 0 then s else keys.set_denied now jti ttl_seconds s

  -- A check that fails answers false: it fails open.
  abbrev pub answered : Option Bool → Bool
  answered none = false
  answered (some b) = b

  unfoldable pub is_revoked : ℕ → ℕ → keys.Store → Bool
  is_revoked now jti s = answered (keys.exists now jti s)

  unfoldable pub bump_session_epoch : ℕ → ℕ → keys.Store → keys.Store
  bump_session_epoch now user_id s = keys.set_epoch user_id now s

  abbrev pub epoch_or_zero : Option (Option ℕ) → ℕ
  epoch_or_zero none = 0
  epoch_or_zero (some none) = 0
  epoch_or_zero (some (some e)) = e

  unfoldable pub session_epoch : ℕ → ℕ → keys.Store → ℕ
  session_epoch now user_id s = epoch_or_zero (keys.get_epoch now user_id s)

-- `_ttl_seconds` of app/api/auth.py
unfoldable pub ttl_seconds : ℕ → ℕ → ℕ
ttl_seconds now exp = exp - seconds_of now
