-- ===== src/Access/Counters.antt =====
-- What one acquisition and one release of app/core/ratelimit.py do to the counters.
use agentic_rag_claude_code.Prelude.{
  ℕ, zero, suc, ◌≡◌, ◌≢◌, refl, sym, ap, subst, ◌∙◌, ◌⊎◌, inl, inr, Bool, true, false, Option, none,
  some, Bool-cases, if◌then◌else◌,
}
use agentic_rag_claude_code.Settings.{Settings}
use agentic_rag_claude_code.Access.Redis.{
  ℤ, pos, negsuc, sucℤ, predℤ, exceeds, below_zero, Key, Key-cases, rpm, inflight, global_inflight,
  Redis,
}
use agentic_rag_claude_code.Access.Quota.{
  Rejection, rate_limit_exceeded, too_many_concurrent_requests, at_capacity, inflight_ttl, is_one,
  check_request_rate, acquire_inflight, release_inflight, acquire_global_slot, release_global_slot,
}

abbrev raised_if : {S : Type 0} → Bool → Rejection → S → Option Rejection × S
raised_if b e t = if b then (some e, t) else (none, t)

pub pred-suc : (z : ℤ) → predℤ (sucℤ z) ≡ z
pred-suc (pos n) = refl
pred-suc (negsuc zero) = refl
pred-suc (negsuc (suc n)) = refl

-- one less, but never below 0
abbrev pub clamped : ℤ → ℤ
clamped z = if below_zero (predℤ z) then pos 0 else predℤ z

module _ (redis : Redis) where
  -- Every counter has the same value in both stores.
  abbrev pub Same : redis.Store → redis.Store → Type 0
  Same s t = (j : Key) → redis.value t j ≡ redis.value s j

  -- Every other counter has.
  abbrev pub SameBut : Key → redis.Store → redis.Store → Type 0
  SameBut k s t = (j : Key) → j ≢ k → redis.value t j ≡ redis.value s j

  -- An acquisition of k within max: refused with e and every counter as before, or granted with k
  -- one up and the others as before.
  abbrev pub Acquired : Key → ℕ → Rejection → redis.Store → Option Rejection × redis.Store → Type 0
  Acquired k max e s r =
      ((exceeds (sucℤ (redis.value s k)) max ≡ true) × (r.0 ≡ some e) × Same s r.1)
      ⊎ ((exceeds (sucℤ (redis.value s k)) max ≡ false)
          × (r.0 ≡ none)
          × (redis.value r.1 k ≡ sucℤ (redis.value s k))
          × SameBut k s r.1)

  incr_expire-SameBut :
      (k : Key) (t : ℕ) (s : redis.Store) → SameBut k s (redis.expire k t (redis.incr k s).1)
  incr_expire-SameBut k t s j d =
      redis.value-expire k j t (redis.incr k s).1 ∙ redis.other-incr k j s d

  incr_expire-value :
      (k : Key) (t : ℕ) (s : redis.Store)
      → redis.value (redis.expire k t (redis.incr k s).1) k ≡ sucℤ (redis.value s k)
  incr_expire-value k t s = redis.value-expire k k t (redis.incr k s).1 ∙ redis.value-incr k s

  incr_decr-Same :
      (k : Key) (t : ℕ) (s : redis.Store)
      → Same s (redis.decr k (redis.expire k t (redis.incr k s).1)).1
  incr_decr-Same k t s j = elim (Key-cases j k) [
    | inl e ↦
        subst
          (λ j.
            redis.value (redis.decr k (redis.expire k t (redis.incr k s).1)).1 j ≡ redis.value s j)
          (sym e)
          (redis.value-decr k (redis.expire k t (redis.incr k s).1)
            ∙ ap predℤ (incr_expire-value k t s)
            ∙ pred-suc (redis.value s k))
    | inr d ↦
        redis.other-decr k j (redis.expire k t (redis.incr k s).1) d ∙ incr_expire-SameBut k t s j d
  ]

  acquire : Key → ℕ → Rejection → redis.Store → Option Rejection × redis.Store
  acquire k max e s =
      let t = redis.expire k inflight_ttl (redis.incr k s).1 in
      if exceeds (redis.incr k s).0 max then (some e, (redis.decr k t).1) else (none, t)

  acquire-Acquired :
      (k : Key) (max : ℕ) (e : Rejection) (s : redis.Store) → Acquired k max e s (acquire k max e s)
  unfolding acquire
  acquire-Acquired k max e s = elim (Bool-cases (exceeds (redis.incr k s).0 max)) [
    | inl h ↦
        let t = redis.expire k inflight_ttl (redis.incr k s).1 in
        subst (λ b. Acquired k max e s (if b then (some e, (redis.decr k t).1) else (none, t)))
          (sym h)
          (inl (
            subst (λ z. exceeds z max ≡ true) (redis.reply-incr k s) h,
            refl,
            incr_decr-Same k inflight_ttl s,
          ))
    | inr h ↦
        let t = redis.expire k inflight_ttl (redis.incr k s).1 in
        subst (λ b. Acquired k max e s (if b then (some e, (redis.decr k t).1) else (none, t)))
          (sym h)
          (inr (
            subst (λ z. exceeds z max ≡ false) (redis.reply-incr k s) h,
            refl,
            incr_expire-value k inflight_ttl s,
            incr_expire-SameBut k inflight_ttl s,
          ))
  ]

  abbrev pub Released : Key → redis.Store → redis.Store → Type 0
  Released k s t = (redis.value t k ≡ clamped (redis.value s k)) × SameBut k s t

  release : Key → redis.Store → redis.Store
  release k s =
      let (left, s) = redis.decr k s in if below_zero left then redis.set k (pos 0) s else s

  release-Released : (k : Key) (s : redis.Store) → Released k s (release k s)
  unfolding release
  release-Released k s = elim (Bool-cases (below_zero (redis.decr k s).0)) [
    | inl h ↦
        let t = (redis.decr k s).1 in
        subst (λ b. Released k s (if b then redis.set k (pos 0) t else t)) (sym h)
          (
            redis.value-set k (pos 0) t
                ∙ sym (
                    ap (λ b. if b then pos 0 else predℤ (redis.value s k))
                      (sym (ap below_zero (redis.reply-decr k s)) ∙ h)),
            λ j d. redis.other-set k j (pos 0) t d ∙ redis.other-decr k j s d,
          )
    | inr h ↦
        let t = (redis.decr k s).1 in
        subst (λ b. Released k s (if b then redis.set k (pos 0) t else t)) (sym h)
          (
            redis.value-decr k s
                ∙ sym (
                    ap (λ b. if b then pos 0 else predℤ (redis.value s k))
                      (sym (ap below_zero (redis.reply-decr k s)) ∙ h)),
            λ j d. redis.other-decr k j s d,
          )
  ]

  expire_if-SameBut :
      (b : Bool) (k : Key) (s : redis.Store)
      → SameBut k s (if b then redis.expire k 70 (redis.incr k s).1 else (redis.incr k s).1)
  expire_if-SameBut true k s = incr_expire-SameBut k 70 s
  expire_if-SameBut false k s = λ j d. redis.other-incr k j s d

  raised_if-Checked :
      (b : Bool) (z : ℤ) (m : ℕ) (k : Key) (s t : redis.Store)
      → exceeds z m ≡ b
      → SameBut k s t
      → (((exceeds z m ≡ true) × ((raised_if b rate_limit_exceeded t).0 ≡ some rate_limit_exceeded))
          ⊎ ((exceeds z m ≡ false) × ((raised_if b rate_limit_exceeded t).0 ≡ none)))
        × SameBut k s (raised_if b rate_limit_exceeded t).1
  raised_if-Checked true z m k s t h d = (inl (h, refl), d)
  raised_if-Checked false z m k s t h d = (inr (h, refl), d)

module _ (redis : Redis) (cfg : Settings) where
  pub acquire_inflight-Acquired :
      (u : ℕ) (s : redis.Store)
      → Acquired redis
          (inflight u)
          cfg.per_user_max_inflight
          too_many_concurrent_requests
          s
          (acquire_inflight redis cfg u s)
  unfolding acquire_inflight acquire
  acquire_inflight-Acquired u s =
      acquire-Acquired redis (inflight u) cfg.per_user_max_inflight too_many_concurrent_requests s

  pub acquire_global_slot-Acquired :
      (s : redis.Store)
      → Acquired redis global_inflight cfg.global_max_inflight at_capacity s
          (acquire_global_slot redis cfg s)
  unfolding acquire_global_slot acquire
  acquire_global_slot-Acquired s =
      acquire-Acquired redis global_inflight cfg.global_max_inflight at_capacity s

  pub release_inflight-Released :
      (u : ℕ) (s : redis.Store) → Released redis (inflight u) s (release_inflight redis cfg u s)
  unfolding release_inflight release
  release_inflight-Released u s = release-Released redis (inflight u) s

  pub release_global_slot-Released :
      (s : redis.Store) → Released redis global_inflight s (release_global_slot redis cfg s)
  unfolding release_global_slot release
  release_global_slot-Released s = release-Released redis global_inflight s

  abbrev pub Checked : ℕ → ℕ → redis.Store → Option Rejection × redis.Store → Type 0
  Checked u w s r =
      (((exceeds (sucℤ (redis.value s (rpm u w))) cfg.per_user_requests_per_min ≡ true)
          × (r.0 ≡ some rate_limit_exceeded))
        ⊎ ((exceeds (sucℤ (redis.value s (rpm u w))) cfg.per_user_requests_per_min ≡ false)
            × (r.0 ≡ none)))
      × SameBut redis (rpm u w) s r.1

  pub check_request_rate-Checked :
      (u w : ℕ) (s : redis.Store) → Checked u w s (check_request_rate redis cfg u w s)
  unfolding check_request_rate
  check_request_rate-Checked u w s =
      let k = rpm u w in
      let p = redis.incr k s in
      let t = if is_one p.0 then redis.expire k 70 p.1 else p.1 in
      let m = cfg.per_user_requests_per_min in
      raised_if-Checked redis (exceeds p.0 m) (sucℤ (redis.value s k)) m k s t
        (ap (λ z. exceeds z m) (sym (redis.reply-incr k s)))
        (expire_if-SameBut redis (is_one p.0) k s)
