-- ===== src/Auth/Authorized.antt =====
-- The conditions in the head comment of app/core/deps.py, and that get_current_user decides them.
use agentic_rag_claude_code.Prelude.{
  ℕ, ◌≡◌, refl, sym, ap, subst, ◌∙◌, ◌↔◌, Bool, true, false, not, Option, some, List, Text, leb, ok,
  ok-injective, bind-inv, bind-ok, or_raise-inv, require-inv, or_raise-some, require-true,
}
use agentic_rag_claude_code.Access.Rbac.{User}
use agentic_rag_claude_code.Auth.Tokens.{
  Claims, is_access, Jwt, KeyStore, is_revoked, session_epoch,
}
use agentic_rag_claude_code.Auth.Requests.{
  AuthError, could_not_validate, non_empty, find_user, live_user, get_current_user,
}

module _ (keys : KeyStore) (jwt : Jwt) (users : List User) where
  -- A user's payload that is not revoked: its jti is not on the denylist, and its user exists, is
  -- active, and has no session epoch later than the token.
  pub record IsLive (now : ℕ) (payload : Claims) (s : keys.Store) (jti : ℕ) (user : User)
      : Type 0 where
    pub user_id : ℕ
    pub has_jti : payload.jti ≡ some jti
    pub unrevoked : is_revoked keys now jti s ≡ false
    pub has_sub : payload.sub ≡ some user_id
    pub found : find_user user_id users ≡ some user
    pub active : user.is_active ≡ true
    pub in_epoch : leb (session_epoch keys now user.id s) payload.iat ≡ true

  pub record IsAuthorized (now : ℕ) (creds : Option Text) (s : keys.Store) (user : User)
      : Type 0 where
    pub token : Text
    pub payload : Claims
    pub jti : ℕ
    pub presented : non_empty creds ≡ some token
    pub decoded : jwt.decode now token ≡ some payload
    pub of_access : is_access payload.token_type ≡ true
    pub live : IsLive now payload s jti user

  becomes_false : (b : Bool) → not b ≡ true → b ≡ false
  becomes_false true h = cc
  becomes_false false h = refl

  becomes_true : (b : Bool) → b ≡ false → not b ≡ true
  becomes_true true h = cc
  becomes_true false h = refl

  pub live_user-IsLive :
      (e e' e'' : AuthError) (now : ℕ) (payload : Claims) (s : keys.Store) (jti : ℕ) (user : User)
      → live_user keys jwt users e e' e'' now payload s ≡ ok (jti, user)
      → IsLive now payload s jti user
  unfolding live_user
  live_user-IsLive e e' e'' now payload s jti user h =
      let (j, h4, k4) = or_raise-inv _ _ _ h in
      let (h5, k5) = require-inv _ _ _ k4 in
      let (user_id, h6, k6) = or_raise-inv _ _ _ k5 in
      let (u, h7, k7) = or_raise-inv _ _ _ k6 in
      let (h8, k8) = require-inv _ _ _ k7 in
      let (h9, k9) = require-inv _ _ _ k8 in
      let p = ok-injective k9 in
      let same = ap (λ (r : ℕ × User). r.1) p in
      record {
        user_id = user_id;
        has_jti = h4 ∙ ap (λ (r : ℕ × User). some r.0) p;
        unrevoked = ap (λ (r : ℕ × User). is_revoked keys now r.0 s) (sym p) ∙ becomes_false _ h5;
        has_sub = h6;
        found = h7 ∙ ap (λ u. some u) same;
        active = ap (λ (u : User). u.is_active) (sym same) ∙ h8;
        in_epoch =
            ap (λ (u : User). leb (session_epoch keys now u.id s) payload.iat) (sym same) ∙ h9;
      }

  pub IsLive-live_user :
      (e e' e'' : AuthError) (now : ℕ) (payload : Claims) (s : keys.Store) (jti : ℕ) (user : User)
      → IsLive now payload s jti user
      → live_user keys jwt users e e' e'' now payload s ≡ ok (jti, user)
  unfolding live_user
  IsLive-live_user e e' e'' now payload s jti user l =
      or_raise-some _ _ _ jti l.has_jti
      ∙ require-true _ _ _ (becomes_true _ l.unrevoked)
      ∙ or_raise-some _ _ _ l.user_id l.has_sub
      ∙ or_raise-some _ _ _ user l.found
      ∙ require-true _ _ _ l.active
      ∙ require-true _ _ _ l.in_epoch

  get_current_user_sound :
      (now : ℕ) (creds : Option Text) (s : keys.Store) (user : User)
      → get_current_user keys jwt users now creds s ≡ ok user
      → IsAuthorized now creds s user
  unfolding get_current_user
  get_current_user_sound now creds s user h =
      let (token, h1, k1) = or_raise-inv _ _ _ h in
      let (payload, h2, k2) = or_raise-inv _ _ _ k1 in
      let (h3, k3) = require-inv _ _ _ k2 in
      let (live, h4, k4) = bind-inv _ _ k3 in
      record {
        token = token;
        payload = payload;
        jti = live.0;
        presented = h1;
        decoded = h2;
        of_access = h3;
        live = subst (IsLive now payload s live.0) (ok-injective k4) (
            live_user-IsLive could_not_validate could_not_validate could_not_validate now payload s
              live.0 live.1 h4);
      }

  get_current_user_complete :
      (now : ℕ) (creds : Option Text) (s : keys.Store) (user : User)
      → IsAuthorized now creds s user
      → get_current_user keys jwt users now creds s ≡ ok user
  unfolding get_current_user
  get_current_user_complete now creds s user a =
      or_raise-some _ _ _ a.token a.presented
      ∙ or_raise-some _ _ _ a.payload a.decoded
      ∙ require-true _ _ _ a.of_access
      ∙ bind-ok _ _ (a.jti, user)
          (IsLive-live_user could_not_validate could_not_validate could_not_validate now a.payload s
            a.jti user a.live)

  -- A request is made by a user exactly when it carries a token that decodes, is an access token, has a
  -- jti that the denylist is not known to hold, and names this user, who exists, is active and has a
  -- session epoch that is not later than the token.
  pub get_current_user_iff :
      (now : ℕ) (creds : Option Text) (s : keys.Store) (user : User)
      → (get_current_user keys jwt users now creds s ≡ ok user) ↔ IsAuthorized now creds s user
  get_current_user_iff now creds s user =
      (get_current_user_sound now creds s user, get_current_user_complete now creds s user)
