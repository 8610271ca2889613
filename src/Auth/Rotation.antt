-- ===== src/Auth/Rotation.antt =====
-- The rotation of refresh tokens in app/api/auth.py: a token that was used is no use again.
use agentic_rag_claude_code.Prelude.{
  ℕ, ◌*◌, ◌≤◌, ◌<◌, ◌≡◌, ◌≢◌, refl, sym, ap, subst, ◌∙◌, ◌⊎◌, inl, inr, true, false, Option, none,
  some, List, Text, some-injective, Result, ok, raise, ok-injective, bind-inv, bind-ok,
  or_raise-inv, require-inv, or_raise-some, require-true, arith,
}
use agentic_rag_claude_code.Settings.{Settings}
use agentic_rag_claude_code.Access.Rbac.{User}
use agentic_rag_claude_code.Auth.Tokens.{
  second, seconds_of, Claims, is_refresh, Jwt, KeyStore, revoke_jti, is_revoked, ttl_seconds,
}
use agentic_rag_claude_code.Auth.Requests.{
  AuthError, invalid_refresh_token, refresh_token_revoked, non_empty, or_else, token_refresh,
  Issued, issue_pair, Session, record_audit, refresh_tokens,
}
use agentic_rag_claude_code.Auth.Authorized.{IsLive, live_user-IsLive, IsLive-live_user}
use agentic_rag_claude_code.Auth.Denied.{
  Denied, Later, Denied-Later, revoke_jti-Denied, revoke_jti-last_second, Denied-is_revoked,
}

module _ (keys : KeyStore) (jwt : Jwt) (s : Settings) (users : List User) where
  -- The token that a request to refresh presents: that of the body, else that of the cookie.
  abbrev pub presented : Option Text → Option Text → Option Text
  presented body cookie = non_empty (or_else (non_empty body) cookie)

  -- What a successful refresh found and did.
  pub record IsRotated (now : ℕ) (body cookie : Option Text) (w w' : Session keys) : Type 0 where
    pub token : Text
    pub payload : Claims
    pub jti : ℕ
    pub user : User
    pub shown : presented body cookie ≡ some token
    pub decoded : jwt.decode now token ≡ some payload
    pub of_refresh : is_refresh payload.token_type ≡ true
    pub live : IsLive keys jwt users now payload w.store jti user
    pub stored : w'.store ≡ revoke_jti keys now jti (ttl_seconds now payload.exp) w.store

  pub refresh-IsRotated :
      (now fresh fresh' : ℕ) (body cookie : Option Text) (w w' : Session keys) (issued : Issued)
      → refresh_tokens keys jwt s users now fresh fresh' body cookie w ≡ ok (issued, w')
      → IsRotated now body cookie w w'
  unfolding refresh_tokens
  refresh-IsRotated now fresh fresh' body cookie w w' issued h =
      let (token, h1, k1) = or_raise-inv _ _ _ h in
      let (payload, h2, k2) = or_raise-inv _ _ _ k1 in
      let (h3, k3) = require-inv _ _ _ k2 in
      let (live, h4, k4) = bind-inv _ _ k3 in
      record {
        token = token;
        payload = payload;
        jti = live.0;
        user = live.1;
        shown = h1;
        decoded = h2;
        of_refresh = h3;
        live =
            live_user-IsLive keys jwt users refresh_token_revoked invalid_refresh_token
              refresh_token_revoked now payload w.store live.0 live.1 h4;
        stored = sym (ap (λ (r : Issued × Session keys). r.1.store) (ok-injective k4));
      }

  -- Used again, before its last second or after it, the token is refused.
  rotated_refused :
      (now now' fresh fresh' : ℕ) (body cookie : Option Text) (t : Text) (c : Claims) (j : ℕ)
      (w w' : Session keys)
      → jwt.decode now t ≡ some c
      → c.jti ≡ some j
      → presented body cookie ≡ some t
      → Denied keys j (c.exp * second) w.store
      → (now' < c.exp * second) ⊎ (c.exp < seconds_of now')
      → keys.exists now' j w.store ≢ none
      → (issued : Issued)
      → refresh_tokens keys jwt s users now' fresh fresh' body cookie w ≡ ok (issued, w')
      → ⊥
  rotated_refused now now' fresh fresh' body cookie t c j w w' hd hj hp den (inr late) ans issued
        h =
      let r = refresh-IsRotated now' fresh fresh' body cookie w w' issued h in
      let same_token = some-injective _ _ (sym r.shown ∙ hp) in
      let d = subst (λ t. jwt.decode now' t ≡ some r.payload) same_token r.decoded in
      let e = jwt.decode-same now now' t c r.payload hd d in
      too_late late (
        subst (λ (p : Claims). seconds_of now' ≤ p.exp) (sym e)
          (jwt.decode-unexpired now' t r.payload d))
    where
      too_late : c.exp < seconds_of now' → seconds_of now' ≤ c.exp → ⊥
      too_late a b = omega arith
  rotated_refused now now' fresh fresh' body cookie t c j w w' hd hj hp den (inl soon) ans issued
        h =
      let r = refresh-IsRotated now' fresh fresh' body cookie w w' issued h in
      let same_token = some-injective _ _ (sym r.shown ∙ hp) in
      let d = subst (λ t. jwt.decode now' t ≡ some r.payload) same_token r.decoded in
      let e = jwt.decode-same now now' t c r.payload hd d in
      let same_jti =
        some-injective _ _ (sym r.live.has_jti ∙ ap (λ (p : Claims). p.jti) (sym e) ∙ hj) in
      contradiction (
        sym (subst (λ k. is_revoked keys now' k w.store ≡ false) same_jti r.live.unrevoked)
        ∙ Denied-is_revoked keys now' j (c.exp * second) w.store den soon ans)
    where
      contradiction : false ≡ true → ⊥
      contradiction b = cc

  -- A refresh token can be used once. Where a request refreshed with a token before the last second
  -- of the token, a later request with the same token, in the body or in the cookie, is refused,
  -- whatever tokens were revoked and epochs bumped between the two, provided that it comes before the
  -- token's last second or after it, and that the check of the denylist gets an answer.
  pub refresh_once :
      (now now' fresh fresh' more more' : ℕ) (body cookie body' cookie' : Option Text) (t : Text)
      (c : Claims) (j : ℕ) (issued : Issued) (w v v' : Session keys)
      → presented body cookie ≡ some t
      → jwt.decode now t ≡ some c
      → c.jti ≡ some j
      → seconds_of now < c.exp
      → refresh_tokens keys jwt s users now fresh fresh' body cookie w ≡ ok (issued, v)
      → Later keys j (c.exp * second) v.store v'.store
      → presented body' cookie' ≡ some t
      → (now' < c.exp * second) ⊎ (c.exp < seconds_of now')
      → keys.exists now' j v'.store ≢ none
      → (e : AuthError) × (refresh_tokens keys jwt s users now' more more' body' cookie' v'
          ≡ raise e)
  refresh_once now now' fresh fresh' more more' body cookie body' cookie' t c j issued w v v' hp hd
        hj early h later hp' at ans =
      refused (refresh_tokens keys jwt s users now' more more' body' cookie' v') refl
    where
      r : IsRotated now body cookie w v
      r = refresh-IsRotated now fresh fresh' body cookie w v issued h

      same_token : r.token ≡ t
      same_token = some-injective _ _ (sym r.shown ∙ hp)

      same : r.payload ≡ c
      same =
          some-injective _ _
            (sym (subst (λ t. jwt.decode now t ≡ some r.payload) same_token r.decoded) ∙ hd)

      same_jti : r.jti ≡ j
      same_jti = some-injective _ _ (sym r.live.has_jti ∙ ap (λ (p : Claims). p.jti) same ∙ hj)

      stored : v.store ≡ revoke_jti keys now j (ttl_seconds now c.exp) w.store
      stored =
          r.stored
          ∙ ap (λ k. revoke_jti keys now k (ttl_seconds now r.payload.exp) w.store) same_jti
          ∙ ap (λ (p : Claims). revoke_jti keys now j (ttl_seconds now p.exp) w.store) same

      denied : Denied keys j (c.exp * second) v'.store
      denied =
          Denied-Later keys j (c.exp * second) v.store v'.store
            (subst (Denied keys j (c.exp * second)) (sym stored)
              (revoke_jti-Denied keys now j c.exp w.store early))
            later

      refused :
          (x : Result AuthError (Issued × Session keys))
          → refresh_tokens keys jwt s users now' more more' body' cookie' v' ≡ x
          → (e : AuthError) × (x ≡ raise e)
      refused (raise e) q = (e, refl)
      refused (ok (i, u)) q =
          elim (rotated_refused now now' more more' body' cookie' t c j v' u hd hj hp' denied at ans
            i q) [ ]

  -- In the last second of a refresh token its rotation has no effect: the token that was just used is
  -- accepted again at the same time, and a second pair is issued.
  refresh_again_in_last_second :
      (now fresh fresh' more more' : ℕ) (body cookie : Option Text) (t : Text) (c : Claims)
      (issued : Issued) (w v : Session keys)
      → presented body cookie ≡ some t
      → jwt.decode now t ≡ some c
      → seconds_of now ≡ c.exp
      → refresh_tokens keys jwt s users now fresh fresh' body cookie w ≡ ok (issued, v)
      → (again : Issued) × (v' : Session keys) × (refresh_tokens keys jwt s users now more more'
            body cookie v
          ≡ ok (again, v'))
  unfolding refresh_tokens
  refresh_again_in_last_second now fresh fresh' more more' body cookie t c issued w v hp hd last h =
      (
        issue_pair jwt s now more more' r.user,
        record_audit keys token_refresh (some r.user.id) (record v {
          store = revoke_jti keys now r.jti (ttl_seconds now r.payload.exp) v.store;
        }),
        or_raise-some _ _ _ r.token r.shown
            ∙ or_raise-some _ _ _ r.payload r.decoded
            ∙ require-true _ _ _ r.of_refresh
            ∙ bind-ok _ _ (r.jti, r.user)
                (IsLive-live_user keys jwt users refresh_token_revoked invalid_refresh_token
                  refresh_token_revoked now r.payload v.store r.jti r.user
                  (subst (λ x. IsLive keys jwt users now r.payload x r.jti r.user) (sym same_store)
                    r.live)),
      )
    where
      r : IsRotated now body cookie w v
      r = refresh-IsRotated now fresh fresh' body cookie w v issued h

      same : r.payload ≡ c
      same = some-injective _ _ (
          sym (
            subst (λ t. jwt.decode now t ≡ some r.payload) (some-injective _ _ (sym r.shown ∙ hp))
              r.decoded)
          ∙ hd)

      over : r.payload.exp ≤ seconds_of now
      over = subst (λ (p : Claims). p.exp ≤ seconds_of now) (sym same) (reached last)
        where
          reached : seconds_of now ≡ c.exp → c.exp ≤ seconds_of now
          reached e = omega arith

      same_store : v.store ≡ w.store
      same_store = r.stored ∙ revoke_jti-last_second keys now r.jti r.payload.exp w.store over
