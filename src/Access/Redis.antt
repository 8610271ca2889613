-- ===== src/Access/Redis.antt =====
-- The counters of app/core/ratelimit.py on the server that it calls. Redis is not part of the
-- repository: its commands are the fields of a record, with what they are documented to do as its
-- laws. A counter that is absent has the value 0.
use agentic_rag_claude_code.Prelude.{
  ℕ, zero, suc, ◌≡◌, ◌≢◌, refl, ap, ◌∙◌, ◌⊎◌, ◌↔◌, inl, inr, Bool, true, false, ltb, ◌==◌, ==_iff,
}

-- An integer: pos n is n, and negsuc n is - (n + 1).
pub data ℤ : Type 0 where
  pos : ℕ → ℤ
  negsuc : ℕ → ℤ

abbrev pub sucℤ : ℤ → ℤ
sucℤ (pos n) = pos (suc n)
sucℤ (negsuc zero) = pos 0
sucℤ (negsuc (suc n)) = negsuc n

abbrev pub predℤ : ℤ → ℤ
predℤ (pos zero) = negsuc 0
predℤ (pos (suc n)) = pos n
predℤ (negsuc n) = negsuc (suc n)

abbrev pub exceeds : ℤ → ℕ → Bool
exceeds (pos n) m = ltb m n
exceeds (negsuc n) m = false

abbrev pub below_zero : ℤ → Bool
below_zero (pos n) = false
below_zero (negsuc n) = true

-- quota:rpm:{user}:{window}, quota:inflight:{user} and admission:inflight:global
pub data Key : Type 0 where
  rpm : ℕ → ℕ → Key
  inflight : ℕ → Key
  global_inflight : Key

pub record Redis : Type 1 where
  pub Store : Type 0
  pub value : Store → Key → ℤ
  pub incr : Key → Store → ℤ × Store
  pub decr : Key → Store → ℤ × Store
  pub set : Key → ℤ → Store → Store
  pub expire : Key → ℕ → Store → Store
  pub reply-incr : (k : Key) (s : Store) → (incr k s).0 ≡ sucℤ (value s k)
  pub value-incr : (k : Key) (s : Store) → value (incr k s).1 k ≡ sucℤ (value s k)
  pub other-incr : (k j : Key) (s : Store) → j ≢ k → value (incr k s).1 j ≡ value s j
  pub reply-decr : (k : Key) (s : Store) → (decr k s).0 ≡ predℤ (value s k)
  pub value-decr : (k : Key) (s : Store) → value (decr k s).1 k ≡ predℤ (value s k)
  pub other-decr : (k j : Key) (s : Store) → j ≢ k → value (decr k s).1 j ≡ value s j
  pub value-set : (k : Key) (z : ℤ) (s : Store) → value (set k z s) k ≡ z
  pub other-set : (k j : Key) (z : ℤ) (s : Store) → j ≢ k → value (set k z s) j ≡ value s j
  pub value-expire : (k j : Key) (t : ℕ) (s : Store) → value (expire k t s) j ≡ value s j

pub inflight-injective : (u v : ℕ) → inflight u ≡ inflight v → u ≡ v
inflight-injective u v h = cc

pub false_not_true : false ≢ true
false_not_true h = cc

abbrev pub decided : {u v : ℕ} (b : Bool) → (b ≡ true) ↔ (u ≡ v) → (u ≡ v) ⊎ (u ≢ v)
decided true h = inl (h.0 refl)
decided false h = inr (λ e. false_not_true (h.1 e))

unfoldable pub Nat-cases : (u v : ℕ) → (u ≡ v) ⊎ (u ≢ v)
Nat-cases u v = decided (u == v) (==_iff u v)

unfoldable pub Key-cases : (j k : Key) → (j ≡ k) ⊎ (j ≢ k)
unfolding Nat-cases
Key-cases (rpm u w) (rpm v x) = elim (Nat-cases u v) [
  | inl e ↦ elim (Nat-cases w x) [
    | inl f ↦ inl (ap (λ u. rpm u w) e ∙ ap (λ w. rpm v w) f)
    | inr d ↦ inr (λ h. d cc)
  ]
  | inr d ↦ inr (λ h. d cc)
]
Key-cases (rpm u w) (inflight v) = inr (λ h. cc)
Key-cases (rpm u w) global_inflight = inr (λ h. cc)
Key-cases (inflight u) (rpm v x) = inr (λ h. cc)
Key-cases (inflight u) (inflight v) = elim (Nat-cases u v) [
  | inl e ↦ inl (ap (λ u. inflight u) e)
  | inr d ↦ inr (λ h. d (inflight-injective u v h))
]
Key-cases (inflight u) global_inflight = inr (λ h. cc)
Key-cases global_inflight (rpm v x) = inr (λ h. cc)
Key-cases global_inflight (inflight v) = inr (λ h. cc)
Key-cases global_inflight global_inflight = inl refl
