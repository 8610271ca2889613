-- ===== src/Access/Slots.antt =====
-- The counters of app/core/ratelimit.py over a request, and over requests that overlap.
use agentic_rag_claude_code.Prelude.{ℕ, ◌≡◌, ◌≢◌, sym, ap, subst, ◌∙◌, inl, inr, Option, none}
use agentic_rag_claude_code.Settings.{Settings}
use agentic_rag_claude_code.Access.Redis.{
  pos, sucℤ, Key, Key-cases, rpm, inflight, global_inflight, Redis,
}
use agentic_rag_claude_code.Access.Quota.{Rejection, release_global_slot, enter, leave, rate_limit}
use agentic_rag_claude_code.Access.Counters.{
  SameBut, clamped, release_inflight-Released, release_global_slot-Released,
}
use agentic_rag_claude_code.Access.Balance.{
  Outcome, HoldsSlots, enter-Outcome, and_then_ok, and_then_raised,
}

module _ (redis : Redis) (cfg : Settings) where
  -- What leaving does: one less on each slot of the user, nothing else.
  unfoldable pub Left : ℕ → redis.Store → redis.Store → Type 0
  Left u s t =
      (redis.value t (inflight u) ≡ clamped (redis.value s (inflight u)))
      × (redis.value t global_inflight ≡ clamped (redis.value s global_inflight))
      × ((j : Key) → j ≢ inflight u → j ≢ global_inflight → redis.value t j ≡ redis.value s j)

  pub leave-Left : (u : ℕ) (s : redis.Store) → Left u s (leave redis cfg u s)
  unfolding leave Left
  leave-Left u s =
      let v = release_global_slot redis cfg s in
      let g = release_global_slot-Released redis cfg s in
      let r = release_inflight-Released redis cfg u v in
      (
        r.0 ∙ ap clamped (g.1 (inflight u) (λ e. cc)),
        r.1 global_inflight (λ e. cc) ∙ g.0,
        λ j p q. r.1 j p ∙ g.1 j q,
      )

  module _ (u w : ℕ) (s : redis.Store) (n m : ℕ) (body : redis.Store → redis.Store) where
    restored :
        (t : redis.Store)
        → redis.value s (inflight u) ≡ pos n
        → redis.value s global_inflight ≡ pos m
        → ((t : redis.Store) (j : Key) → redis.value (body t) j ≡ redis.value t j)
        → HoldsSlots redis cfg u w s t
        → SameBut redis (rpm u w) s (leave redis cfg u (body t))
    unfolding HoldsSlots Left
    restored t hu hg keeps (a, b, c) j d =
        let l = leave-Left u (body t) in
        let v = leave redis cfg u (body t) in
        elim (Key-cases j (inflight u)) [
          | inl e ↦
              subst (λ j. redis.value v j ≡ redis.value s j) (sym e)
                (l.0 ∙ ap clamped (keeps t (inflight u) ∙ a ∙ ap sucℤ hu) ∙ sym hu)
          | inr f ↦ elim (Key-cases j global_inflight) [
            | inl e ↦
                subst (λ j. redis.value v j ≡ redis.value s j) (sym e)
                  (l.1 ∙ ap clamped (keeps t global_inflight ∙ b ∙ ap sucℤ hg) ∙ sym hg)
            | inr g ↦ l.2 j f g ∙ keeps t j ∙ c j d f g
          ]
        ]

    -- Where the two counters that a request uses are not negative and the work of the request
    -- leaves the counters alone, every counter but the minute's is, after the request, what it was
    -- before: no slot leaks, whether the request is let in or turned away at any of the three
    -- limits.
    pub rate_limit-restores :
        redis.value s (inflight u) ≡ pos n
        → redis.value s global_inflight ≡ pos m
        → ((t : redis.Store) (j : Key) → redis.value (body t) j ≡ redis.value t j)
        → SameBut redis (rpm u w) s (rate_limit redis cfg body u w s).1
    unfolding rate_limit Outcome
    rate_limit-restores hu hg keeps =
        let r = enter redis cfg u w s in
        let next : redis.Store → Option Rejection × redis.Store =
          λ t. (none, leave redis cfg u (body t)) in
        elim (enter-Outcome redis cfg u w s n hu) [
          | inl (e, h, o, k) ↦
              subst (λ x. SameBut redis (rpm u w) s x.1) (sym (and_then_raised next (λ s. s) r e h))
                k
          | inr (h, o, k) ↦
              subst (λ x. SameBut redis (rpm u w) s x.1) (sym (and_then_ok next (λ s. s) r h))
                (restored r.1 hu hg keeps k)
        ]
