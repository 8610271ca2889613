-- ===== src/Access/Overlap.antt =====
-- Requests of app/core/ratelimit.py that overlap: any order of entries and exits.
use agentic_rag_claude_code.Prelude.{
  ℕ, suc, ◌+◌, ◌≡◌, ◌≢◌, ◌≤◌, refl, sym, ap, subst, ◌∙◌, inl, inr, false, none, some, List, [], ◌∷◌,
  length, arith, lt→ltb, ◌==◌, ==_iff, ==_refl, if◌then◌else◌,
}
use agentic_rag_claude_code.Settings.{Settings}
use agentic_rag_claude_code.Access.Redis.{
  pos, sucℤ, exceeds, Nat-cases, inflight-injective, rpm, inflight, global_inflight, Redis,
}
use agentic_rag_claude_code.Access.Quota.{Rejection, enter, leave}
use agentic_rag_claude_code.Access.Counters.{SameBut, clamped}
use agentic_rag_claude_code.Access.Balance.{Outcome, IsUnder, HoldsSlots, enter-Outcome}
use agentic_rag_claude_code.Access.Slots.{Left, leave-Left}

-- how many of the running requests are the user's
abbrev pub count : ℕ → List ℕ → ℕ
count u [] = 0
count u (v ∷ vs) = (if v == u then 1 else 0) + count u vs

-- one request of the user less
abbrev pub remove : ℕ → List ℕ → List ℕ
remove u [] = []
remove u (v ∷ vs) = if v == u then vs else v ∷ remove u vs

count_self : (u : ℕ) (vs : List ℕ) → count u (u ∷ vs) ≡ suc (count u vs)
count_self u vs = ground (arith, ==_refl u)

count_other : (u v : ℕ) (vs : List ℕ) → u ≢ v → count v (u ∷ vs) ≡ count v vs
count_other u v vs d = ground (arith, ==_iff u v)

count_removed_self : (u : ℕ) (vs : List ℕ) (n : ℕ) → count u vs ≡ suc n → count u (remove u vs) ≡ n
count_removed_self u [] n h = cc
count_removed_self u (v ∷ vs) n h = ground (arith, count_removed_self u vs n)

count_removed_other : (u v : ℕ) (vs : List ℕ) → u ≢ v → count v (remove u vs) ≡ count v vs
count_removed_other u v [] d = refl
count_removed_other u v (x ∷ vs) d =
    ground (arith, count_removed_other u v vs d, ==_iff x u, ==_iff x v)

length_removed :
    (u : ℕ) (vs : List ℕ) (n : ℕ) → count u vs ≡ suc n → suc (length (remove u vs)) ≡ length vs
length_removed u [] n h = cc
length_removed u (v ∷ vs) n h = ground (arith, length_removed u vs n)

not_exceeding : (n m : ℕ) → exceeds (sucℤ (pos n)) m ≡ false → suc n ≤ m
not_exceeding n m h = ground (arith, lt→ltb m (suc n))

none-some : (e : Rejection) → none ≢ some e
none-some e h = cc

smaller : {a b n m : ℕ} → a ≡ n → b ≤ m → b ≡ suc n → a ≤ m
smaller e l h = omega arith

module _ (redis : Redis) (cfg : Settings) where
  -- A request enters and is let in, or is turned away, or a request that runs ends. The lists are
  -- the users of the requests that run.
  pub data Step : redis.Store → List ℕ → redis.Store → List ℕ → Type 0 where
    let_in :
        (u w : ℕ) (s : redis.Store) (run : List ℕ)
        → (enter redis cfg u w s).0 ≡ none
        → Step s run (enter redis cfg u w s).1 (u ∷ run)
    turned_away :
        (u w : ℕ) (s : redis.Store) (run : List ℕ) (e : Rejection)
        → (enter redis cfg u w s).0 ≡ some e
        → Step s run (enter redis cfg u w s).1 run
    ended :
        (u n : ℕ) (s : redis.Store) (run : List ℕ)
        → count u run ≡ suc n
        → Step s run (leave redis cfg u s) (remove u run)

  pub data Steps (s : redis.Store) (run : List ℕ) : redis.Store → List ℕ → Type 0 where
    start : Steps s run s run
    next :
        (t v : redis.Store) (mid end : List ℕ)
        → Steps s run t mid
        → Step t mid v end
        → Steps s run v end

  -- The counters count the running requests, which are within the limits.
  unfoldable pub IsBalanced : redis.Store → List ℕ → Type 0
  IsBalanced s run =
      (redis.value s global_inflight ≡ pos (length run))
      × ((u : ℕ) → redis.value s (inflight u) ≡ pos (count u run))
      × (length run ≤ cfg.global_max_inflight)
      × ((u : ℕ) → count u run ≤ cfg.per_user_max_inflight)

  let_in-IsBalanced :
      (u w : ℕ) (s t : redis.Store) (run : List ℕ)
      → IsBalanced s run
      → IsUnder redis cfg u w s
      → HoldsSlots redis cfg u w s t
      → IsBalanced t (u ∷ run)
  unfolding IsBalanced IsUnder HoldsSlots
  let_in-IsBalanced u w s t run (g, c, lg, lc) (x, y, z) (hu, hg, ho) = (
    hg ∙ ap sucℤ g,
    counts,
    not_exceeding (length run) cfg.global_max_inflight
        (subst (λ z. exceeds (sucℤ z) cfg.global_max_inflight ≡ false) g z),
    within,
  )
    where
      counts : (v : ℕ) → redis.value t (inflight v) ≡ pos (count v (u ∷ run))
      counts v = elim (Nat-cases u v) [
        | inl e ↦
            subst (λ v. redis.value t (inflight v) ≡ pos (count v (u ∷ run))) e
              (hu ∙ ap sucℤ (c u) ∙ ap (λ n. pos n) (sym (count_self u run)))
        | inr d ↦
            ho (inflight v) (λ e. cc) (λ e. d (sym (inflight-injective v u e))) (λ e. cc)
            ∙ c v
            ∙ ap (λ n. pos n) (sym (count_other u v run d))
      ]

      within : (v : ℕ) → count v (u ∷ run) ≤ cfg.per_user_max_inflight
      within v = elim (Nat-cases u v) [
        | inl e ↦
            subst (λ v. count v (u ∷ run) ≤ cfg.per_user_max_inflight) e
              (subst (λ n. n ≤ cfg.per_user_max_inflight) (sym (count_self u run))
                (not_exceeding (count u run) cfg.per_user_max_inflight
                  (subst (λ z. exceeds (sucℤ z) cfg.per_user_max_inflight ≡ false) (c u) y)))
        | inr d ↦ subst (λ n. n ≤ cfg.per_user_max_inflight) (sym (count_other u v run d)) (lc v)
      ]

  turned_away-IsBalanced :
      (u w : ℕ) (s t : redis.Store) (run : List ℕ)
      → IsBalanced s run
      → SameBut redis (rpm u w) s t
      → IsBalanced t run
  unfolding IsBalanced
  turned_away-IsBalanced u w s t run (g, c, lg, lc) same =
      (same global_inflight (λ e. cc) ∙ g, λ v. same (inflight v) (λ e. cc) ∙ c v, lg, lc)

  ended-IsBalanced :
      (u n : ℕ) (s t : redis.Store) (run : List ℕ)
      → IsBalanced s run
      → count u run ≡ suc n
      → Left redis cfg u s t
      → IsBalanced t (remove u run)
  unfolding IsBalanced Left
  ended-IsBalanced u n s t run (g, c, lg, lc) h (a, b, o) = (
    b ∙ ap clamped (g ∙ ap (λ n. pos n) (sym (length_removed u run n h))),
    counts,
    below (length_removed u run n h),
    within,
  )
    where
      counts : (v : ℕ) → redis.value t (inflight v) ≡ pos (count v (remove u run))
      counts v = elim (Nat-cases u v) [
        | inl e ↦
            subst (λ v. redis.value t (inflight v) ≡ pos (count v (remove u run))) e
              (a
                ∙ ap clamped (c u ∙ ap (λ n. pos n) h)
                ∙ ap (λ n. pos n) (sym (count_removed_self u run n h)))
        | inr d ↦
            o (inflight v) (λ e. d (sym (inflight-injective v u e))) (λ e. cc)
            ∙ c v
            ∙ ap (λ n. pos n) (sym (count_removed_other u v run d))
      ]

      below :
          suc (length (remove u run)) ≡ length run → length (remove u run) ≤ cfg.global_max_inflight
      below e = omega arith

      within : (v : ℕ) → count v (remove u run) ≤ cfg.per_user_max_inflight
      within v = elim (Nat-cases u v) [
        | inl e ↦
            subst (λ v. count v (remove u run) ≤ cfg.per_user_max_inflight) e
              (smaller (count_removed_self u run n h) (lc u) h)
        | inr d ↦
            subst (λ n. n ≤ cfg.per_user_max_inflight) (sym (count_removed_other u v run d)) (lc v)
      ]

  Step-IsBalanced :
      (s t : redis.Store) (run end : List ℕ)
      → IsBalanced s run
      → Step s run t end
      → IsBalanced t end
  unfolding IsBalanced Outcome
  Step-IsBalanced _ _ _ _ b (let_in u w s run h) =
      elim (enter-Outcome redis cfg u w s (count u run) (b.1 u)) [
        | inl (e, k, o, same) ↦ elim (none-some e (sym h ∙ k)) [ ]
        | inr (k, under, holds) ↦
            let_in-IsBalanced u w s (enter redis cfg u w s).1 run b under holds
      ]
  Step-IsBalanced _ _ _ _ b (turned_away u w s run e h) =
      elim (enter-Outcome redis cfg u w s (count u run) (b.1 u)) [
        | inl (f, k, o, same) ↦ turned_away-IsBalanced u w s (enter redis cfg u w s).1 run b same
        | inr (k, under, holds) ↦ elim (none-some e (sym k ∙ h)) [ ]
      ]
  Step-IsBalanced _ _ _ _ b (ended u n s run h) =
      ended-IsBalanced u n s (leave redis cfg u s) run b h (leave-Left redis cfg u s)

  -- From counters that count the running requests, after any order of requests that are let in,
  -- turned away and ended, the counters still count the running requests, never more than
  -- global_max_inflight requests run, and never more than per_user_max_inflight of one user.
  pub Steps-IsBalanced :
      (s : redis.Store) (run : List ℕ) (t : redis.Store) (end : List ℕ)
      → IsBalanced s run
      → Steps s run t end
      → IsBalanced t end
  Steps-IsBalanced s run t end b start = b
  Steps-IsBalanced s run _ _ b (next v t mid end p q) =
      Step-IsBalanced v t mid end (Steps-IsBalanced s run v mid b p) q
