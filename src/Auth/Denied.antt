-- ===== src/Auth/Denied.antt =====
-- The denylist over time: app/core/redis.py and the lifetimes that app/api/auth.py gives its keys.
use agentic_rag_claude_code.Prelude.{
  ℕ, ◌+◌, ◌-◌, ◌*◌, ◌≤◌, ◌<◌, ◌≡◌, ◌≢◌, refl, sym, ap, subst, ◌∙◌, Bool, true, false, Option, none,
  some, leb, arith, if◌then◌else◌, leb→le, leb_false→lt, Bool-cases, inl, inr,
}
use agentic_rag_claude_code.Auth.Tokens.{
  second, seconds_of, KeyStore, revoke_jti, answered, is_revoked, ttl_seconds,
}

module _ (keys : KeyStore) where
  -- Before the time `until`, no check that answers says that jti is not revoked.
  abbrev pub Denied : ℕ → ℕ → keys.Store → Type 0
  Denied jti until s = (at : ℕ) → at < until → keys.exists at jti s ≢ some false

  -- The store later on: other tokens are revoked, this one is revoked again for no less time, and
  -- session epochs are bumped.
  pub data Later (jti until : ℕ) (s : keys.Store) : keys.Store → Type 0 where
    now_still : Later jti until s s
    other_revoked :
        (now other ttl : ℕ) (v : keys.Store)
        → jti ≢ other
        → Later jti until s v
        → Later jti until s (keys.set_denied now other ttl v)
    revoked_again :
        (now ttl : ℕ) (v : keys.Store)
        → until ≤ now + ttl * second
        → Later jti until s v
        → Later jti until s (keys.set_denied now jti ttl v)
    epoch_bumped :
        (user epoch : ℕ) (v : keys.Store)
        → Later jti until s v
        → Later jti until s (keys.set_epoch user epoch v)

  pub Denied-Later :
      (jti until : ℕ) (s v : keys.Store)
      → Denied jti until s
      → Later jti until s v
      → Denied jti until v
  Denied-Later jti until s v d now_still at h e = d at h e
  Denied-Later jti until s _ d (other_revoked now other ttl v n l) at h e =
      Denied-Later jti until s v d l at h (sym (keys.other-set_denied now other ttl at jti v n) ∙ e)
  Denied-Later jti until s _ d (revoked_again now ttl v m l) at h e =
      keys.exists-set_denied now jti ttl at v (below h m) e
    where
      below : at < until → until ≤ now + ttl * second → at < now + ttl * second
      below h m = omega arith
  Denied-Later jti until s _ d (epoch_bumped user epoch v l) at h e =
      Denied-Later jti until s v d l at h (sym (keys.exists-set_epoch user epoch at jti v) ∙ e)

  -- Until its last second, a token's key outlives it.
  pub revoke_jti-Denied :
      (now jti exp : ℕ) (s : keys.Store)
      → seconds_of now < exp
      → Denied jti (exp * second) (revoke_jti keys now jti (ttl_seconds now exp) s)
  unfolding revoke_jti ttl_seconds
  revoke_jti-Denied now jti exp s h at b = elim (Bool-cases (leb (exp - seconds_of now) 0)) [
    | inl o ↦ elim (positive (leb→le (exp - seconds_of now) 0 o)) [ ]
    | inr o ↦
        subst
          (λ t.
            keys.exists at jti (if t then s else keys.set_denied now jti (exp - seconds_of now) s)
            ≢ some false)
          (sym o) (keys.exists-set_denied now jti (exp - seconds_of now) at s lives)
  ]
    where
      positive : exp - seconds_of now ≤ 0 → ⊥
      positive k = omega arith

      lives : at < now + (exp - seconds_of now) * second
      lives = omega arith

  -- In its last second, and after it, a token has no key written.
  pub revoke_jti-last_second :
      (now jti exp : ℕ) (s : keys.Store)
      → exp ≤ seconds_of now
      → revoke_jti keys now jti (ttl_seconds now exp) s ≡ s
  unfolding revoke_jti ttl_seconds
  revoke_jti-last_second now jti exp s h = elim (Bool-cases (leb (exp - seconds_of now) 0)) [
    | inl o ↦ ap (λ t. if t then s else keys.set_denied now jti (exp - seconds_of now) s) o
    | inr o ↦ elim (positive (leb_false→lt (exp - seconds_of now) 0 o)) [ ]
  ]
    where
      positive : 0 < exp - seconds_of now → ⊥
      positive k = omega arith

  pub Denied-is_revoked :
      (now jti until : ℕ) (s : keys.Store)
      → Denied jti until s
      → now < until
      → keys.exists now jti s ≢ none
      → is_revoked keys now jti s ≡ true
  unfolding is_revoked
  Denied-is_revoked now jti until s d h a = says (keys.exists now jti s) (d now h) a
    where
      says : (o : Option Bool) → o ≢ some false → o ≢ none → answered keys o ≡ true
      says none f n = elim (n refl) [ ]
      says (some true) f n = refl
      says (some false) f n = elim (f refl) [ ]
