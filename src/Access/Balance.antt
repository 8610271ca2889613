-- ===== src/Access/Balance.antt =====
-- The dependency rate_limit of app/core/ratelimit.py as a whole.
use agentic_rag_claude_code.Prelude.{
  ℕ, ◌≡◌, ◌≢◌, refl, sym, ap, subst, ◌∙◌, ◌⊎◌, inl, inr, true, false, Option, none, some,
}
use agentic_rag_claude_code.Settings.{Settings}
use agentic_rag_claude_code.Access.Redis.{
  pos, sucℤ, exceeds, Key, Key-cases, rpm, inflight, global_inflight, Redis,
}
use agentic_rag_claude_code.Access.Quota.{
  Rejection, rate_limit_exceeded, too_many_concurrent_requests, at_capacity, check_request_rate,
  acquire_inflight, release_inflight, acquire_global_slot, and_then, on_raise, enter,
}
use agentic_rag_claude_code.Access.Counters.{
  Same, SameBut, clamped, acquire_inflight-Acquired, acquire_global_slot-Acquired,
  release_inflight-Released, check_request_rate-Checked,
}

module _ {S : Type 0} (next : S → Option Rejection × S) (handler : S → S) where
  pub and_then_ok : (r : Option Rejection × S) → r.0 ≡ none → and_then r next ≡ next r.1
  and_then_ok r h = ap (λ o. elim o [ none ↦ next r.1 | some e ↦ (some e, r.1) ]) h

  pub and_then_raised :
      (r : Option Rejection × S) (e : Rejection) → r.0 ≡ some e → and_then r next ≡ (some e, r.1)
  and_then_raised r e h = ap (λ o. elim o [ none ↦ next r.1 | some e ↦ (some e, r.1) ]) h

  on_raise_ok : (r : Option Rejection × S) → r.0 ≡ none → on_raise r handler ≡ (none, r.1)
  on_raise_ok r h = ap (λ o. elim o [ none ↦ (none, r.1) | some e ↦ (some e, handler r.1) ]) h

  on_raise_raised :
      (r : Option Rejection × S) (e : Rejection)
      → r.0 ≡ some e
      → on_raise r handler ≡ (some e, handler r.1)
  on_raise_raised r e h = ap (λ o. elim o [ none ↦ (none, r.1) | some e ↦ (some e, handler r.1) ]) h

module _ (redis : Redis) (cfg : Settings) where
  -- The limit whose counter, raised by this request, is exceeded.
  unfoldable pub IsOver : ℕ → ℕ → redis.Store → Rejection → Type 0
  IsOver u w s rate_limit_exceeded =
      exceeds (sucℤ (redis.value s (rpm u w))) cfg.per_user_requests_per_min ≡ true
  IsOver u w s too_many_concurrent_requests =
      exceeds (sucℤ (redis.value s (inflight u))) cfg.per_user_max_inflight ≡ true
  IsOver u w s at_capacity =
      exceeds (sucℤ (redis.value s global_inflight)) cfg.global_max_inflight ≡ true

  -- No limit is exceeded.
  unfoldable pub IsUnder : ℕ → ℕ → redis.Store → Type 0
  IsUnder u w s =
      (exceeds (sucℤ (redis.value s (rpm u w))) cfg.per_user_requests_per_min ≡ false)
      × (exceeds (sucℤ (redis.value s (inflight u))) cfg.per_user_max_inflight ≡ false)
      × (exceeds (sucℤ (redis.value s global_inflight)) cfg.global_max_inflight ≡ false)

  -- Both slots are taken, and nothing else but the rate counter moves.
  unfoldable pub HoldsSlots : ℕ → ℕ → redis.Store → redis.Store → Type 0
  HoldsSlots u w s t =
      (redis.value t (inflight u) ≡ sucℤ (redis.value s (inflight u)))
      × (redis.value t global_inflight ≡ sucℤ (redis.value s global_inflight))
      × ((j : Key)
          → j ≢ rpm u w
          → j ≢ inflight u
          → j ≢ global_inflight
          → redis.value t j ≡ redis.value s j)

  unfoldable pub Outcome : ℕ → ℕ → redis.Store → Option Rejection × redis.Store → Type 0
  unfolding IsOver IsUnder HoldsSlots
  Outcome u w s r =
      ((e : Rejection) × (r.0 ≡ some e) × IsOver u w s e × SameBut redis (rpm u w) s r.1)
      ⊎ ((r.0 ≡ none) × IsUnder u w s × HoldsSlots u w s r.1)

  refused :
      (u w : ℕ) (s : redis.Store) (e : Rejection) (t : redis.Store)
      → IsOver u w s e
      → SameBut redis (rpm u w) s t
      → Outcome u w s (some e, t)
  unfolding Outcome
  refused u w s e t o k = inl (e, refl, o, k)

  module _ (u w : ℕ) (s : redis.Store) (n : ℕ) (nonneg : redis.value s (inflight u) ≡ pos n) where
    -- The counter of the user is taken in t, nothing but it and the rate counter moved.
    HoldsOne : redis.Store → Type 0
    HoldsOne t =
        (redis.value t (inflight u) ≡ sucℤ (redis.value s (inflight u)))
        × ((j : Key) → j ≢ rpm u w → j ≢ inflight u → redis.value t j ≡ redis.value s j)

    released-SameBut :
        (t v : redis.Store)
        → HoldsOne t
        → Same redis t v
        → SameBut redis (rpm u w) s (release_inflight redis cfg u v)
    unfolding HoldsOne
    released-SameBut t v (a, b) same j d =
        let rel = release_inflight-Released redis cfg u v in
        elim (Key-cases j (inflight u)) [
          | inl e ↦
              subst (λ j. redis.value (release_inflight redis cfg u v) j ≡ redis.value s j) (sym e)
                (rel.0 ∙ ap clamped (same (inflight u) ∙ a ∙ ap sucℤ nonneg) ∙ sym nonneg)
          | inr f ↦ rel.1 j f ∙ same j ∙ b j d f
        ]

    global_step :
        (t : redis.Store)
        → HoldsOne t
        → exceeds (sucℤ (redis.value s (rpm u w))) cfg.per_user_requests_per_min ≡ false
        → exceeds (sucℤ (redis.value s (inflight u))) cfg.per_user_max_inflight ≡ false
        → Outcome u w s (on_raise (acquire_global_slot redis cfg t) (release_inflight redis cfg u))
    unfolding Outcome IsOver IsUnder HoldsSlots HoldsOne
    global_step t (a, b) c d =
        let r = acquire_global_slot redis cfg t in
        let h = release_inflight redis cfg u in
        let g = b global_inflight (λ e. cc) (λ e. cc) in
        elim (acquire_global_slot-Acquired redis cfg t) [
          | inl (x, e, same) ↦
              subst (Outcome u w s) (sym (on_raise_raised (λ s. (none, s)) h r at_capacity e)) (
                inl (
                  at_capacity,
                  refl,
                  subst (λ z. exceeds (sucℤ z) cfg.global_max_inflight ≡ true) g x,
                  released-SameBut t r.1 (a, b) same,
                ))
          | inr (x, e, up, same) ↦
              subst (Outcome u w s) (sym (on_raise_ok (λ s. (none, s)) h r e)) (
                inr (
                  refl,
                  (c, d, subst (λ z. exceeds (sucℤ z) cfg.global_max_inflight ≡ false) g x),
                  (same (inflight u) (λ e. cc) ∙ a, up ∙ ap sucℤ g, λ j p q l. same j l ∙ b j p q),
                ))
        ]

    inflight_step :
        (t : redis.Store)
        → SameBut redis (rpm u w) s t
        → exceeds (sucℤ (redis.value s (rpm u w))) cfg.per_user_requests_per_min ≡ false
        → Outcome u w s (
            and_then
              (acquire_inflight redis cfg u t)
              (λ t. on_raise (acquire_global_slot redis cfg t) (release_inflight redis cfg u)))
    unfolding Outcome IsOver HoldsOne
    inflight_step t keep c =
        let r = acquire_inflight redis cfg u t in
        let next = λ (t : redis.Store).
          on_raise (acquire_global_slot redis cfg t) (release_inflight redis cfg u) in
        let g = keep (inflight u) (λ e. cc) in
        elim (acquire_inflight-Acquired redis cfg u t) [
          | inl (x, e, same) ↦
              subst (Outcome u w s)
                (sym (and_then_raised next (λ s. s) r too_many_concurrent_requests e))
                (inl (
                  too_many_concurrent_requests,
                  refl,
                  subst (λ z. exceeds (sucℤ z) cfg.per_user_max_inflight ≡ true) g x,
                  λ j d. same j ∙ keep j d,
                ))
          | inr (x, e, up, same) ↦ subst (Outcome u w s) (sym (and_then_ok next (λ s. s) r e)) (
              global_step r.1 (up ∙ ap sucℤ g, λ j p q. same j q ∙ keep j p) c
                (subst (λ z. exceeds (sucℤ z) cfg.per_user_max_inflight ≡ false) g x))
        ]

    -- Where the counter of the user's running requests is not negative, a request is either turned
    -- away with the error of a limit that it exceeds, every counter but the minute's being as
    -- before, or it exceeds no limit and is let in, both of its slots being taken.
    pub enter-Outcome : Outcome u w s (enter redis cfg u w s)
    unfolding enter Outcome IsOver
    enter-Outcome =
        let r = check_request_rate redis cfg u w s in
        let next = λ (t : redis.Store).
          and_then (acquire_inflight redis cfg u t)
            (λ t. on_raise (acquire_global_slot redis cfg t) (release_inflight redis cfg u)) in
        let q = check_request_rate-Checked redis cfg u w s in
        elim q.0 [
          | inl (x, e) ↦
              subst (Outcome u w s) (sym (and_then_raised next (λ s. s) r rate_limit_exceeded e))
                (inl (rate_limit_exceeded, refl, x, q.1))
          | inr (x, e) ↦
              subst (Outcome u w s) (sym (and_then_ok next (λ s. s) r e)) (inflight_step r.1 q.1 x)
        ]
