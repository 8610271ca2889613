-- ===== src/Characters/Strip.antt =====
-- str.strip() keeps characters only, and does nothing the second time.
use mathlib.Core.List.{reverse, reverse-cons, reverse-append, reverse-reverse}
use agentic_rag_claude_code.Prelude.{
  ℕ, ◌≡◌, refl, sym, ap, subst, ◌∙◌, Bool, true, false, [], ◌∷◌, ◌++◌, Text, All, All-append,
  by_test, if◌then◌else◌,
}
use agentic_rag_claude_code.Characters.{CharTable, lstrip, strip}

module _ (P : ℕ → Type 0) where
  All-reverse : (t : Text) → All P t → All P (reverse t)
  All-reverse [] h = tt
  All-reverse (c ∷ t) h =
      subst (All P) (sym (reverse-cons c t))
        (All-append P (reverse t) (c ∷ []) (All-reverse t h.1) (h.0, tt))

  lstrip-All : (table : CharTable) (t : Text) → All P t → All P (lstrip table t)
  unfolding lstrip
  lstrip-All table [] h = tt
  lstrip-All table (c ∷ t) h = by_test (All P) (table.is_space c) (lstrip-All table t h.1) h

  pub strip-All : (table : CharTable) (t : Text) → All P t → All P (strip table t)
  unfolding strip
  strip-All table t h = All-reverse (lstrip table (reverse (lstrip table t))) (
      lstrip-All table (reverse (lstrip table t))
        (All-reverse (lstrip table t) (lstrip-All table t h)))

module _ (table : CharTable) where
  abbrev StartsPlain : Text → Type 0
  StartsPlain [] = Unit
  StartsPlain (c ∷ t) = table.is_space c ≡ false

  lstrip-StartsPlain : (t : Text) → StartsPlain (lstrip table t)
  unfolding lstrip
  lstrip-StartsPlain [] = tt
  lstrip-StartsPlain (c ∷ t) = which (table.is_space c) refl (lstrip-StartsPlain t)
    where
      which :
          (b : Bool)
          → table.is_space c ≡ b
          → StartsPlain (lstrip table t)
          → StartsPlain (if b then lstrip table t else c ∷ t)
      which true e h = h
      which false e h = e

  lstrip_plain : (t : Text) → StartsPlain t → lstrip table t ≡ t
  unfolding lstrip
  lstrip_plain [] h = refl
  lstrip_plain (c ∷ t) h = ap (λ b. if b then lstrip table t else c ∷ t) h

  lstrip-append :
      (t : Text) (c : ℕ)
      → table.is_space c ≡ false
      → lstrip table (t ++ c ∷ []) ≡ lstrip table t ++ c ∷ []
  unfolding lstrip
  lstrip-append [] c h = ap (λ b. if b then [] else c ∷ []) h
  lstrip-append (d ∷ t) c h = which (table.is_space d) (lstrip-append t c h)
    where
      which :
          (b : Bool)
          → lstrip table (t ++ c ∷ []) ≡ lstrip table t ++ c ∷ []
          → (if b then lstrip table (t ++ c ∷ []) else d ∷ t ++ c ∷ [])
            ≡ (if b then lstrip table t else d ∷ t) ++ c ∷ []
      which true e = e
      which false e = refl

  -- The end of a text is stripped from behind its first character.
  rstrip-StartsPlain : (t : Text) → StartsPlain t → StartsPlain (reverse (lstrip table (reverse t)))
  unfolding lstrip
  rstrip-StartsPlain [] h = tt
  rstrip-StartsPlain (c ∷ t) h = subst StartsPlain (sym same) h
    where
      same : reverse (lstrip table (reverse (c ∷ t))) ≡ c ∷ reverse (lstrip table (reverse t))
      same =
          ap (λ l. reverse (lstrip table l)) (reverse-cons c t)
          ∙ ap reverse (lstrip-append (reverse t) c h)
          ∙ reverse-append (lstrip table (reverse t)) (c ∷ [])

  pub strip-strip : (t : Text) → strip table (strip table t) ≡ strip table t
  unfolding strip
  strip-strip t =
      ap (λ l. reverse (lstrip table (reverse l)))
        (lstrip_plain y (rstrip-StartsPlain (lstrip table t) (lstrip-StartsPlain t)))
      ∙ ap (λ l. reverse (lstrip table l))
          (reverse-reverse (lstrip table (reverse (lstrip table t))))
      ∙ ap reverse (
          lstrip_plain (lstrip table (reverse (lstrip table t)))
            (lstrip-StartsPlain (reverse (lstrip table t))))
    where
      y : Text
      y = reverse (lstrip table (reverse (lstrip table t)))
