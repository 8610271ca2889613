-- ===== src/Tests/Auth.antt =====
-- A signing library and a key store that do what is documented, requests at them, and the examples of
-- the theorems on tokens.
use agentic_rag_claude_code.Prelude.{
  ℕ, zero, suc, ◌+◌, ◌*◌, ◌≤◌, ◌<◌, ◌≡◌, ◌≢◌, refl, sym, ap, ◌∙◌, ◌↔◌, inl, inr, Bool, true, false,
  ◌&&◌, Option, none, some, some-injective, List, [], ◌∷◌, Text, leb, leb→le, ltb, lt→ltb, ◌==◌,
  ==_iff, ==_refl, Bool-cases, arith, if◌then◌else◌, ok, raise, ◌>>=◌, ◌>>◌, require, or_raise,
}
use agentic_rag_claude_code.Settings.{defaults}
use agentic_rag_claude_code.Access.Rbac.{Role, User}
use agentic_rag_claude_code.Auth.Tokens.{
  second, seconds_of, TokenType, access, refresh, other, Claims, Jwt, KeyStore, revoke_jti,
  is_revoked, session_epoch, ttl_seconds,
}
use agentic_rag_claude_code.Auth.Requests.{
  AuthError, Issued, Session, token_refresh, get_current_user, issue_pair, refresh_tokens,
}
use agentic_rag_claude_code.Auth.Authorized.{IsAuthorized, get_current_user_iff}
use agentic_rag_claude_code.Auth.Denied.{now_still}
use agentic_rag_claude_code.Auth.Rotation.{refresh_once}

abbrev number : Option ℕ → ℕ
number none = 0
number (some n) = suc n

abbrev option : ℕ → Option ℕ
option zero = none
option (suc n) = some n

abbrev role_number : Role → ℕ
role_number Role.admin = 0
role_number Role.user = 1

abbrev role_of : ℕ → Role
role_of zero = Role.admin
role_of (suc n) = Role.user

abbrev type_number : TokenType → ℕ
type_number access = 0
type_number refresh = 1
type_number other = 2

abbrev type_of : ℕ → TokenType
type_of zero = access
type_of (suc zero) = refresh
type_of (suc (suc n)) = other

abbrev write : Claims → Text
write c =
    number c.sub
    ∷ role_number c.role
    ∷ number c.dept
    ∷ type_number c.token_type
    ∷ number c.jti
    ∷ c.iat
    ∷ c.exp
    ∷ []

abbrev read : Text → Option Claims
read (s ∷ r ∷ d ∷ t ∷ j ∷ i ∷ e ∷ rest) = some (record {
  sub = option s;
  role = role_of r;
  dept = option d;
  token_type = type_of t;
  jti = option j;
  iat = i;
  exp = e;
})
read _ = none

abbrev unexpired : ℕ → Option Claims → Option Claims
unexpired now none = none
unexpired now (some c) = if leb (seconds_of now) c.exp then some c else none

pub unexpired-some :
    (now : ℕ) (o : Option Claims) (c : Claims)
    → unexpired now o ≡ some c
    → (o ≡ some c) × (seconds_of now ≤ c.exp)
unexpired-some now none c h = cc
unexpired-some now (some d) c h = elim (Bool-cases (leb (seconds_of now) d.exp)) [
  | inl o ↦
      let e = some-injective _ _ (sym (ap (λ b. if b then some d else none) o) ∙ h) in
      (ap (λ c. some c) e, leb→le _ _ (ap (λ (c : Claims). leb (seconds_of now) c.exp) (sym e) ∙ o))
  | inr o ↦ elim (never d c (sym (ap (λ b. if b then some d else none) o) ∙ h)) [ ]
]
  where
    never : (d c : Claims) → ◌≡◌ {A = Option Claims} none (some c) → ⊥
    never d c e = cc

option-number : (o : Option ℕ) → option (number o) ≡ o
option-number none = refl
option-number (some n) = refl

role_of-number : (r : Role) → role_of (role_number r) ≡ r
role_of-number Role.admin = refl
role_of-number Role.user = refl

type_of-number : (t : TokenType) → type_of (type_number t) ≡ t
type_of-number access = refl
type_of-number refresh = refl
type_of-number other = refl

le→leb : (a b : ℕ) → a ≤ b → leb a b ≡ true
le→leb a b h = ground arith

read-write : (c : Claims) → read (write c) ≡ some c
read-write c =
    rw
      (
        option-number c.sub,
        role_of-number c.role,
        option-number c.dept,
        type_of-number c.token_type,
        option-number c.jti,
      )
      refl

pub decode-write :
    (now : ℕ) (c : Claims) → seconds_of now ≤ c.exp → unexpired now (read (write c)) ≡ some c
decode-write now c h =
    ap (unexpired now) (read-write c)
    ∙ ap (λ b. if b then some c else none) (le→leb (seconds_of now) c.exp h)

pub read-same :
    (now later : ℕ) (t : Text) (c d : Claims)
    → unexpired now (read t) ≡ some c
    → unexpired later (read t) ≡ some d
    → c ≡ d
read-same now later t c d h k =
    some-injective _ _
      (sym (unexpired-some now (read t) c h).0 ∙ (unexpired-some later (read t) d k).0)

abbrev pub tokens : Jwt
tokens = record {
  encode = write;
  decode = λ now t. unexpired now (read t);
  decode-encode = decode-write;
  decode-unexpired = λ now t c h. (unexpired-some now (read t) c h).1;
  decode-same = read-same;
}

abbrev Keys : Type 0
Keys = List (ℕ × ℕ) × (ℕ → Option ℕ)

abbrev holds : ℕ → ℕ → List (ℕ × ℕ) → Bool
holds at jti [] = false
holds at jti ((k, until) ∷ rest) =
    let others = holds at jti rest in if k == jti && ltb at until then true else others

pub holds-written :
    (at jti until : ℕ) (rest : List (ℕ × ℕ))
    → at < until
    → ◌≢◌ {A = Option Bool} (some (holds at jti ((jti, until) ∷ rest))) (some false)
holds-written at jti until rest h = shut (==_refl jti) (lt→ltb at until h)
  where
    shut :
        (jti == jti) ≡ true
        → ltb at until ≡ true
        → ◌≢◌ {A = Option Bool} (some (holds at jti ((jti, until) ∷ rest))) (some false)
    shut a b e = ground arith

pub holds-other :
    (at jti until k : ℕ) (rest : List (ℕ × ℕ))
    → k ≢ jti
    → holds at k ((jti, until) ∷ rest) ≡ holds at k rest
holds-other at jti until k rest d = ground (arith, ==_iff jti k)

abbrev epochs_with : ℕ → ℕ → (ℕ → Option ℕ) → ℕ → Option ℕ
epochs_with user epoch epochs u = if u == user then some epoch else epochs u

abbrev pub key_store : KeyStore
key_store = record {
  Store = Keys;
  exists = λ at jti s. some (holds at jti s.0);
  set_denied = λ now jti ttl s. ((jti, now + ttl * second) ∷ s.0, s.1);
  get_epoch = λ at user s. some (s.1 user);
  set_epoch = λ user epoch s. (s.0, epochs_with user epoch s.1);
  exists-set_denied = λ now jti ttl at s h. holds-written at jti (now + ttl * second) s.0 h;
  other-set_denied =
      λ now jti ttl at k s d. ap (λ b. some b) (holds-other at jti (now + ttl * second) k s.0 d);
  exists-set_epoch = λ user epoch at jti s. refl;
  epoch-set_epoch =
      λ user epoch at s. inr (ap (λ b. some (if b then some epoch else s.1 user)) (==_refl user));
}

abbrev pub grace : User
grace = record {
  id = 3;
  role = Role.admin;
  department_id = none;
  is_active = true;
  email = [];
  hashed_password = [];
}

-- A refresh token of grace that expires 100 seconds after the start of time.
abbrev pub grace_claims : Claims
grace_claims = record {
  sub = some 3;
  role = Role.admin;
  dept = none;
  token_type = refresh;
  jti = some 41;
  iat = 5;
  exp = 100;
}

abbrev grace_token : Text
grace_token = write grace_claims

abbrev pub grace_access : Text
grace_access = write (record grace_claims { token_type = access })

abbrev nobody_yet : Session key_store
nobody_yet = record { store = ([], λ u. none); audit = [] }

access_granted :
    get_current_user key_store tokens (grace ∷ []) 10 (some grace_access) nobody_yet.store
    ≡ ok grace
unfolding get_current_user is_revoked session_epoch require or_raise ◌>>=◌ ◌>>◌
access_granted = refl

get_current_user_iff_example :
    (get_current_user key_store tokens (grace ∷ []) 10 (some grace_access) nobody_yet.store
      ≡ ok grace)
    ↔ IsAuthorized key_store tokens (grace ∷ []) 10 (some grace_access) nobody_yet.store grace
get_current_user_iff_example =
    get_current_user_iff key_store tokens (grace ∷ []) 10 (some grace_access) nobody_yet.store grace

abbrev refreshed_at : ℕ → Issued × Session key_store
refreshed_at now = (
  issue_pair tokens defaults now 50 51 grace,
  record {
    store = revoke_jti key_store now 41 (ttl_seconds now 100) nobody_yet.store;
    audit = (record { action = token_refresh; user_id = some 3 }) ∷ [];
  },
)

refreshed :
    refresh_tokens key_store tokens defaults
      (grace ∷ [])
      10
      50
      51
      none
      (some grace_token)
      nobody_yet
    ≡ ok (refreshed_at 10)
unfolding refresh_tokens is_revoked session_epoch require or_raise ◌>>=◌ ◌>>◌
refreshed = refl

refresh_once_example :
    (e : AuthError) × (refresh_tokens key_store tokens defaults
        (grace ∷ [])
        99
        60
        61
        (some grace_token)
        none
        (refreshed_at 10).1
      ≡ raise e)
unfolding revoke_jti ttl_seconds
refresh_once_example =
    refresh_once key_store tokens defaults (grace ∷ []) 10 99 50 51 60 61 none (some grace_token)
      (some grace_token) none grace_token grace_claims 41 (refreshed_at 10).0 nobody_yet
      (refreshed_at 10).1 (refreshed_at 10).1 refl refl refl (omega arith) refreshed now_still refl
      (inl (omega arith)) (λ e. cc)

refreshed_last_second :
    refresh_tokens key_store tokens defaults
      (grace ∷ [])
      100000000
      50
      51
      none
      (some grace_token)
      nobody_yet
    ≡ ok (refreshed_at 100000000)
unfolding refresh_tokens is_revoked session_epoch require or_raise ◌>>=◌ ◌>>◌
refreshed_last_second = refl
