-- ===== src/Access/Quota.antt =====
-- app/core/ratelimit.py: the quotas of a user and the admission of turns across all users. A 429 is
-- a Rejection, and `window` is the minute that check_request_rate reads from the clock.
use agentic_rag_claude_code.Prelude.{
  ℕ, zero, suc, Bool, true, false, Option, none, some, if◌then◌else◌,
}
use agentic_rag_claude_code.Settings.{Settings}
use agentic_rag_claude_code.Access.Redis.{
  ℤ, pos, negsuc, exceeds, below_zero, rpm, inflight, global_inflight, Redis,
}

pub data Rejection : Type 0 where
  rate_limit_exceeded : Rejection
  too_many_concurrent_requests : Rejection
  at_capacity : Rejection

abbrev pub inflight_ttl : ℕ
inflight_ttl = 300

abbrev pub is_one : ℤ → Bool
is_one (pos (suc zero)) = true
is_one (pos zero) = false
is_one (pos (suc (suc n))) = false
is_one (negsuc n) = false

-- What follows a call that may raise.
abbrev pub and_then :
    {S : Type 0} → Option Rejection × S → (S → Option Rejection × S) → Option Rejection × S
and_then r next = elim r.0 [ none ↦ next r.1 | some e ↦ (some e, r.1) ]

-- except HTTPException: ...; raise
abbrev pub on_raise : {S : Type 0} → Option Rejection × S → (S → S) → Option Rejection × S
on_raise r handler = elim r.0 [ none ↦ (none, r.1) | some e ↦ (some e, handler r.1) ]

module _ (redis : Redis) (cfg : Settings) where
  unfoldable pub check_request_rate : ℕ → ℕ → redis.Store → Option Rejection × redis.Store
  check_request_rate user_id window s =
      let key = rpm user_id window in
      let (count, s) = redis.incr key s in
      let s = if is_one count then redis.expire key 70 s else s in
      if exceeds count cfg.per_user_requests_per_min
      then (some rate_limit_exceeded, s)
      else (none, s)

  unfoldable pub acquire_inflight : ℕ → redis.Store → Option Rejection × redis.Store
  acquire_inflight user_id s =
      let key = inflight user_id in
      let (current, s) = redis.incr key s in
      let s = redis.expire key inflight_ttl s in
      if exceeds current cfg.per_user_max_inflight
      then (some too_many_concurrent_requests, (redis.decr key s).1)
      else (none, s)

  unfoldable pub release_inflight : ℕ → redis.Store → redis.Store
  release_inflight user_id s =
      let key = inflight user_id in
      let (left, s) = redis.decr key s in if below_zero left then redis.set key (pos 0) s else s

  unfoldable pub acquire_global_slot : redis.Store → Option Rejection × redis.Store
  acquire_global_slot s =
      let (current, s) = redis.incr global_inflight s in
      let s = redis.expire global_inflight inflight_ttl s in
      if exceeds current cfg.global_max_inflight
      then (some at_capacity, (redis.decr global_inflight s).1)
      else (none, s)

  unfoldable pub release_global_slot : redis.Store → redis.Store
  release_global_slot s =
      let (left, s) = redis.decr global_inflight s in
      if below_zero left then redis.set global_inflight (pos 0) s else s

  -- up to the yield
  unfoldable pub enter : ℕ → ℕ → redis.Store → Option Rejection × redis.Store
  unfolding check_request_rate acquire_inflight acquire_global_slot release_inflight
  enter user_id window s = and_then (check_request_rate user_id window s) (λ s.
      and_then (acquire_inflight user_id s)
        (λ s. on_raise (acquire_global_slot s) (release_inflight user_id)))

  -- the finally block
  unfoldable pub leave : ℕ → redis.Store → redis.Store
  unfolding release_global_slot release_inflight
  leave user_id s = release_inflight user_id (release_global_slot s)

  -- The dependency around the request that `body` runs.
  unfoldable pub rate_limit :
      (redis.Store → redis.Store) → ℕ → ℕ → redis.Store → Option Rejection × redis.Store
  unfolding enter leave
  rate_limit body user_id window s =
      and_then (enter user_id window s) (λ s. (none, leave user_id (body s)))
