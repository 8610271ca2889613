-- ===== src/Documents/Naming.antt =====
-- What `safe_filename` of app/ingestion/storage.py makes of any name.
use mathlib.Core.List.{append_assoc, append-nil}
use agentic_rag_claude_code.Prelude.{
  ℕ, ◌≡◌, ◌≢◌, refl, sym, ap, ◌∙◌, Bool, true, false, [], ◌∷◌, ◌++◌, Text, codes, All, All-append,
  ==_iff, ◌==◌, arith, if◌then◌else◌,
}
use agentic_rag_claude_code.Characters.{CharTable, strip}
use agentic_rag_claude_code.Characters.Strip.{strip-All, strip-strip}
use agentic_rag_claude_code.Documents.Filenames.{
  with_slashes, last_segment, is_no_name, safe_filename,
}

-- no slash and no backslash
abbrev pub IsPlain : ℕ → Type 0
IsPlain c = (c ≢ 47) × (c ≢ 92)

-- A name of an entry of a directory, which leads to no other directory.
abbrev pub IsSafe : Text → Type 0
IsSafe name = All IsPlain name × (is_no_name name ≡ false)

with_slashes-All : (name : Text) → All (λ c. c ≢ 92) (with_slashes name)
with_slashes-All [] = tt
with_slashes-All (c ∷ name) = (λ e. replaced (c == 92) refl e, with_slashes-All name)
  where
    replaced : (b : Bool) → (c == 92) ≡ b → (if b then 47 else c) ≡ 92 → ⊥
    replaced true p e = omega arith
    replaced false p e = absurd (cc (p, (==_iff c 92).1 e))

last_segment-All :
    (current name : Text)
    → All IsPlain current
    → All (λ c. c ≢ 92) name
    → All IsPlain (last_segment current name)
last_segment-All current [] h k = h
last_segment-All current (c ∷ name) h k =
    last_segment-All (if c == 47 then [] else current ++ c ∷ []) name (next (c == 47) refl) k.1
  where
    next : (b : Bool) → (c == 47) ≡ b → All IsPlain (if b then [] else current ++ c ∷ [])
    next true e = tt
    next false e =
        All-append IsPlain current (c ∷ []) h (((λ q. absurd (cc (e, (==_iff c 47).1 q))), k.0), tt)

differs : (c n : ℕ) → c ≢ n → (c == n) ≡ false
differs c n h = ground (arith, ==_iff c n)

with_slashes-plain : (name : Text) → All IsPlain name → with_slashes name ≡ name
with_slashes-plain [] h = refl
with_slashes-plain (c ∷ name) h =
    ap (λ b. (if b then 47 else c) ∷ with_slashes name) (differs c 92 h.0.1)
    ∙ ap (λ l. c ∷ l) (with_slashes-plain name h.1)

last_segment-plain :
    (current name : Text) → All IsPlain name → last_segment current name ≡ current ++ name
last_segment-plain current [] h = sym (append-nil current)
last_segment-plain current (c ∷ name) h =
    ap (λ b. last_segment (if b then [] else current ++ c ∷ []) name) (differs c 47 h.0.0)
    ∙ last_segment-plain (current ++ c ∷ []) name h.1
    ∙ append_assoc current (c ∷ []) name

default-IsPlain : All IsPlain (codes "upload.bin")
default-IsPlain = ground arith

module _ (t : CharTable) where
  base_name : Text → Text
  base_name filename = strip t (last_segment [] (with_slashes filename))

  base_name-plain : (name : Text) → All IsPlain name → strip t name ≡ name → base_name name ≡ name
  unfolding base_name
  base_name-plain name h k =
      ap (λ l. strip t (last_segment [] l)) (with_slashes-plain name h)
      ∙ ap (λ l. strip t l) (last_segment-plain [] name h)
      ∙ k

  IsKept : Text → Type 0
  IsKept name = IsSafe name × (safe_filename t name ≡ name)

  plain-IsKept :
      (name : Text) → All IsPlain name → strip t name ≡ name → is_no_name name ≡ false → IsKept name
  unfolding IsKept safe_filename base_name
  plain-IsKept name h k n = (
    (h, n),
    ap (λ l. if is_no_name l then codes "upload.bin" else l) (base_name-plain name h k)
        ∙ ap (λ b. if b then codes "upload.bin" else name) n,
  )

  base_name-All : (filename : Text) → All IsPlain (base_name filename)
  unfolding base_name
  base_name-All filename =
      strip-All IsPlain t (last_segment [] (with_slashes filename))
        (last_segment-All [] (with_slashes filename) tt (with_slashes-All filename))

  -- The name is that of an entry of the document's directory. To sanitize it again, as `save_document`
  -- does, changes nothing, so that the row and the file have the same name. The white space of the
  -- table is taken not to begin or end `upload.bin`.
  pub safe_filename-IsSafe :
      (filename : Text)
      → strip t (codes "upload.bin") ≡ codes "upload.bin"
      → IsSafe (safe_filename t filename)
        × (safe_filename t (safe_filename t filename) ≡ safe_filename t filename)
  unfolding safe_filename IsKept base_name
  safe_filename-IsSafe filename h = which (is_no_name (base_name filename)) refl
    where
      which :
          (b : Bool)
          → is_no_name (base_name filename) ≡ b
          → IsKept (if b then codes "upload.bin" else base_name filename)
      which true e = plain-IsKept (codes "upload.bin") default-IsPlain h refl
      which false e =
          plain-IsKept (base_name filename) (base_name-All filename)
            (strip-strip t (last_segment [] (with_slashes filename))) e
