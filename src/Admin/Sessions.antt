-- ===== src/Admin/Sessions.antt =====
-- The sessions that app/api/admin.py ends: tokens issued before are refused.
use agentic_rag_claude_code.Prelude.{
  ℕ, ◌≤◌, ◌<◌, ◌≡◌, ◌≢◌, refl, sym, ap, subst, ◌∙◌, ◌⊎◌, inl, inr, Bool, true, false, ◌&&◌, Option,
  none, some, some-injective, List, [], ◌∷◌, Text, leb, leb→le, ◌==◌, ==_iff, arith, if◌then◌else◌,
  Result, ok, raise, is_empty,
}
use agentic_rag_claude_code.Settings.{Settings}
use agentic_rag_claude_code.Characters.{CharTable}
use agentic_rag_claude_code.Access.Rbac.{User}
use agentic_rag_claude_code.Auth.Tokens.{
  Claims, Jwt, KeyStore, bump_session_epoch, session_epoch, epoch_or_zero,
}
use agentic_rag_claude_code.Auth.Requests.{
  Audit, find_user, non_empty, or_else, get_current_user, Issued, Session, refresh_tokens,
}
use agentic_rag_claude_code.Auth.Rotation.{refresh-IsRotated}
use agentic_rag_claude_code.Auth.Authorized.{IsLive, get_current_user_iff}
use agentic_rag_claude_code.Cache.Stores.{Points, Tags}
use agentic_rag_claude_code.Admin.State.{AdminError, admin_action, user_not_found, UserUpdate}
use agentic_rag_claude_code.Admin.Service.{
  Admin, is_suspended, updated, update_user_row, record_audit, update_user, revoke_sessions,
  reset_credential,
}

find_user-id : (i : ℕ) (us : List User) (u : User) → find_user i us ≡ some u → u.id ≡ i
find_user-id i [] u h = absurd (cc h)
find_user-id i (v ∷ us) u h = found (v.id == i) refl h (find_user-id i us u)
  where
    found :
        (b : Bool)
        → (v.id == i) ≡ b
        → (if b then some v else find_user i us) ≡ some u
        → (find_user i us ≡ some u → u.id ≡ i)
        → u.id ≡ i
    found true e k ih = ap (λ (u : User). u.id) (sym (some-injective v u k)) ∙ (==_iff v.id i).0 e
    found false e k ih = ih k

module _ (keys : KeyStore) where
  epoch-bump :
      (now at i : ℕ) (store : keys.Store)
      → keys.get_epoch at i (bump_session_epoch keys now i store) ≢ none
      → session_epoch keys at i (bump_session_epoch keys now i store) ≡ now
  unfolding bump_session_epoch session_epoch
  epoch-bump now at i store answers = which (keys.epoch-set_epoch i now at store)
    where
      which :
          (keys.get_epoch at i (keys.set_epoch i now store) ≡ none)
            ⊎ (keys.get_epoch at i (keys.set_epoch i now store) ≡ some (some now))
          → epoch_or_zero keys (keys.get_epoch at i (keys.set_epoch i now store)) ≡ now
      which (inl e) = absurd (answers e)
      which (inr e) = ap (λ o. epoch_or_zero keys o) e

  module _ (jwt : Jwt) (users : List User) where
    -- A payload of the user from before the bump is live no more.
    bumped_dead :
        (now at i jti : ℕ) (store : keys.Store) (payload : Claims) (u : User)
        → keys.get_epoch at i (bump_session_epoch keys now i store) ≢ none
        → payload.sub ≡ some i
        → payload.iat < now
        → IsLive keys jwt users at payload (bump_session_epoch keys now i store) jti u
        → ⊥
    bumped_dead now at i jti store payload u answers of_user early l = too_late (
        leb→le now payload.iat (
          subst (λ e. leb e payload.iat ≡ true) (epoch-bump now at i store answers)
            (subst
              (λ j.
                leb (session_epoch keys at j (bump_session_epoch keys now i store)) payload.iat
                ≡ true)
              same l.in_epoch)))
      where
        same : u.id ≡ i
        same =
            find_user-id l.user_id users u l.found
            ∙ some-injective l.user_id i (sym l.has_sub ∙ of_user)

        too_late : now ≤ payload.iat → ⊥
        too_late k = omega arith

module _ (keys : KeyStore) (points : Points) (tags : Tags) (sha256 : List ℕ → ℕ) (table : CharTable)
    (s : Settings) (hash_password : Text → Text) where
  abbrev Server : Type 0
  Server = Admin keys points tags sha256 table s hash_password

  -- The requests that end the sessions of user i at a time: they succeed.
  pub data EndsSessions (now i : ℕ) (w w' : Server) : Type 0 where
    revoked :
        (admin : User)
        → revoke_sessions keys points tags sha256 table s hash_password now i admin w ≡ (ok tt, w')
        → EndsSessions now i w w'
    reset :
        (temp : Text) (admin : User)
        → reset_credential keys points tags sha256 table s hash_password now i temp admin w
          ≡ (ok temp, w')
        → EndsSessions now i w w'
    suspended :
        (body : UserUpdate) (admin u v : User)
        → body.is_active ≡ some false
        → find_user i w.users ≡ some u
        → u.is_active ≡ true
        → update_user keys points tags sha256 table s hash_password now i body admin w ≡ (ok v, w')
        → EndsSessions now i w w'

  ends-bumps :
      (now i : ℕ) (w w' : Server)
      → EndsSessions now i w w'
      → w'.store ≡ bump_session_epoch keys now i w.store
  unfolding revoke_sessions reset_credential update_user
  ends-bumps now i w w' (revoked admin h) = which (find_user i w.users) h
    where
      which :
          (o : Option User)
          → ◌≡◌ {A = Result AdminError (Unit {0}) × Server}
              (elim o [
                | none ↦ (raise user_not_found, w)
                | some u ↦ (
                  ok tt,
                  record_audit keys points tags sha256 table s hash_password admin_action admin i
                      (record w { store = bump_session_epoch keys now i w.store }),
                )
              ])
              (ok tt, w')
          → w'.store ≡ bump_session_epoch keys now i w.store
      which none k = absurd (cc (ap (λ (r : Result AdminError (Unit {0}) × Server). r.0) k))
      which (some u) k = sym (ap (λ (r : Result AdminError (Unit {0}) × Server). r.1.store) k)
  ends-bumps now i w w' (reset temp admin h) = which (find_user i w.users) h
    where
      which :
          (o : Option User)
          → ◌≡◌ {A = Result AdminError Text × Server}
              (elim o [
                | none ↦ (raise user_not_found, w)
                | some u ↦ (
                  ok temp,
                  record_audit keys points tags sha256 table s hash_password admin_action admin i
                      (record w {
                        users =
                            update_user_row
                              (λ (u : User). record u { hashed_password = hash_password temp })
                              i
                              w.users;
                        store = bump_session_epoch keys now i w.store;
                      }),
                )
              ])
              (ok temp, w')
          → w'.store ≡ bump_session_epoch keys now i w.store
      which none k = absurd (cc (ap (λ (r : Result AdminError Text × Server). r.0) k))
      which (some u) k = sym (ap (λ (r : Result AdminError Text × Server). r.1.store) k)
  ends-bumps now i w w' (suspended body admin u v off f on h) = which (find_user i w.users) f h
    where
      store_of : User → keys.Store
      store_of u =
          if is_suspended body.is_active u.is_active
          then bump_session_epoch keys now i w.store
          else w.store

      which :
          (o : Option User)
          → o ≡ some u
          → ◌≡◌ {A = Result AdminError User × Server}
              (elim o [
                | none ↦ (raise user_not_found, w)
                | some u ↦ (
                  ok (updated body u),
                  record_audit keys points tags sha256 table s hash_password admin_action admin i
                      (record w {
                        users = update_user_row (updated body) i w.users;
                        store = store_of u;
                      }),
                )
              ])
              (ok v, w')
          → w'.store ≡ bump_session_epoch keys now i w.store
      which none e k = absurd (cc e)
      which (some x) e k =
          sym (ap (λ (r : Result AdminError User × Server). r.1.store) k)
          ∙ ap store_of (some-injective x u e)
          ∙ ap (λ b. if b then bump_session_epoch keys now i w.store else w.store)
              (ap (λ o. is_suspended o u.is_active) off ∙ ap (λ b. b && true) on)

  given : (t : Text) → is_empty t ≡ false → non_empty (some t) ≡ some t
  given t h = ap (λ b. if b then none else some t) h

  -- A session of a user that an administrator ended, by revoking the sessions, by a new credential or by
  -- suspending the user, is over in the state that the request leaves: where Redis answers for the epoch,
  -- no request is authenticated there by a token that the user was issued before, and none exchanges it
  -- for a new pair, whether it is sent in the body or in the cookie.
  pub ended_refused :
      (jwt : Jwt) (now at i : ℕ) (w w' : Server) (t : Text) (payload : Claims)
      → EndsSessions now i w w'
      → keys.get_epoch at i w'.store ≢ none
      → is_empty t ≡ false
      → jwt.decode at t ≡ some payload
      → payload.sub ≡ some i
      → payload.iat < now
      → (¬ ((u : User) × (get_current_user keys jwt w'.users at (some t) w'.store ≡ ok u)))
        × ¬ (
            (fresh : ℕ) × (fresh' : ℕ) × (body : Option Text) × (cookie : Option Text)
            × (audit : List Audit) × (r : Issued × Session keys) × (non_empty
                  (or_else (non_empty body) cookie)
                ≡ some t)
            × (refresh_tokens keys jwt s w'.users at fresh fresh' body cookie
                  (record { store = w'.store; audit = audit })
                ≡ ok r))
  ended_refused jwt now at i w w' t payload ends answers shown decoded of_user early = (
    (λ (u, h).
        let a = (get_current_user_iff keys jwt w'.users at (some t) w'.store u).0 h in
        dead a.token a.payload a.jti u (sym a.presented ∙ given t shown) a.decoded a.live),
    (λ (fresh, fresh', body, cookie, audit, r, sent, h).
        let a =
          refresh-IsRotated keys jwt s w'.users at fresh fresh' body cookie
            (record { store = w'.store; audit = audit }) r.1 r.0 h in
        dead a.token a.payload a.jti a.user (sym a.shown ∙ sent) a.decoded a.live),
  )
    where
      bumped : w'.store ≡ bump_session_epoch keys now i w.store
      bumped = ends-bumps now i w w' ends

      dead :
          (token : Text) (c : Claims) (jti : ℕ) (u : User)
          → some token ≡ some t
          → jwt.decode at token ≡ some c
          → IsLive keys jwt w'.users at c w'.store jti u
          → ⊥
      dead token c jti u e d l =
          let same : payload ≡ c =
            some-injective payload c
              (sym decoded ∙ ap (λ t. jwt.decode at t) (sym (some-injective token t e)) ∙ d) in
          bumped_dead keys jwt w'.users now at i jti w.store c u
            (subst (λ s. keys.get_epoch at i s ≢ none) bumped answers)
            (subst (λ (c : Claims). c.sub ≡ some i) same of_user)
            (subst (λ (c : Claims). c.iat < now) same early)
            (subst (λ store. IsLive keys jwt w'.users at c store jti u) bumped l)
