-- ===== src/Prelude/Codes.antt =====
-- Texts as lists of code points.
use Prim.Native.Nat.{ℕ}
use Prim.Native.Char.{code}
use Prim.Native.String.{String}
use mathlib.Core.Bool.{Bool, true, false, ◌&&◌, ◌||◌}
use mathlib.Core.List.{List, [], ◌∷◌}
use mathlib.Core.Path.{◌≡◌, refl}
use native.Mathlib.Omega.{arith}
use agentic_rag_claude_code.Prelude.Tests.{◌==◌, ==_iff}

abbrev pub Text : Type 0
Text = List ℕ

-- The code points of a literal.
abbrev pub codes : String → Text
codes String.[] = []
codes (String.◌∷◌ c s) = code c ∷ codes s

abbrev pub text_eq : Text → Text → Bool
text_eq [] [] = true
text_eq [] (b ∷ t) = false
text_eq (a ∷ s) [] = false
text_eq (a ∷ s) (b ∷ t) = a == b && text_eq s t

pub text_eq→eq : (s t : Text) → text_eq s t ≡ true → s ≡ t
text_eq→eq [] [] h = refl
text_eq→eq [] (b ∷ t) h = cc
text_eq→eq (a ∷ s) [] h = cc
text_eq→eq (a ∷ s) (b ∷ t) h = ground (arith, text_eq→eq s t, ==_iff a b)

abbrev pub one_of : Text → List String → Bool
one_of w [] = false
one_of w (s ∷ ss) = text_eq w (codes s) || one_of w ss

abbrev pub text_in : Text → List Text → Bool
text_in t [] = false
text_in t (s ∷ ss) = text_eq s t || text_in t ss

abbrev pub starts_with : Text → Text → Bool
starts_with t [] = true
starts_with [] (c ∷ p) = false
starts_with (a ∷ t) (c ∷ p) = a == c && starts_with t p

-- `s in t`
abbrev pub is_infix : Text → Text → Bool
is_infix s [] = text_eq s []
is_infix s (b ∷ t) = starts_with (b ∷ t) s || is_infix s t
