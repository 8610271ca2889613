-- ===== src/Ingestion/Cuts.antt =====
-- How `_pack_paragraphs` of app/ingestion/chunker.py cuts paragraphs of any length into units.
use agentic_rag_claude_code.Prelude.{
  ℕ, zero, suc, ◌-◌, ◌≤◌, ◌<◌, ◌≡◌, refl, sym, ap, subst, ◌∙◌, inl, inr, Bool, true, false, Option,
  none, some, List, [], ◌∷◌, ◌++◌, Text, length, take, drop, length-take-le, length-drop,
  take-append-drop, All, All-append, ltb, ltb→lt, ltb_false→le, Bool-cases, arith, if◌then◌else◌,
}
use agentic_rag_claude_code.Characters.{CharTable}
use agentic_rag_claude_code.Ingestion.Paragraphs.{is_blank, cons_unit, add_cut, hard_split, units}

no_less : {n : ℕ} → n < 0 → ⊥
no_less h = omega arith

take-take : (n m : ℕ) (xs : Text) → n ≤ m → take n (take m xs) ≡ take n xs
take-take zero m xs h = refl
take-take (suc n) zero xs h = elim (no_less h) [ ]
take-take (suc n) (suc m) [] h = refl
take-take (suc n) (suc m) (x ∷ xs) h = ap (◌∷◌ x) (take-take n m xs (omega arith))

module _ (t : CharTable) (min_c max_c overlap_c : ℕ) where
  unfoldable pub IsShort : Text → Type 0
  IsShort u = length u ≤ max_c

  -- The paragraph again, from its units and its rest: each unit without what the next repeats.
  unfoldable pub rejoin : List Text → Text → Text
  rejoin [] q = q
  rejoin (u ∷ us) q = take (max_c - overlap_c) u ++ rejoin us q

  IsCut : Text → Option (List Text × Text) → Type 0
  unfolding rejoin IsShort
  IsCut p none = ⊥
  IsCut p (some (us, q)) = All IsShort us × IsShort q × (rejoin us q ≡ p)

  cons_unit-IsCut :
      (p : Text) (r : Option (List Text × Text))
      → IsCut (drop (max_c - overlap_c) p) r
      → IsCut p (cons_unit (take max_c p) r)
  unfolding IsCut rejoin IsShort
  cons_unit-IsCut p none h = h
  cons_unit-IsCut p (some (us, q)) (a, b, e) = (
    (length-take-le max_c p, a),
    b,
    ap (λ x. x ++ rejoin us q) (take-take (max_c - overlap_c) max_c p (omega arith))
        ∙ ap (λ x. take (max_c - overlap_c) p ++ x) e
        ∙ take-append-drop (max_c - overlap_c) p,
  )

  smaller :
      (fuel : ℕ) (p : Text)
      → overlap_c < max_c
      → length p < suc fuel
      → max_c < length p
      → length (drop (max_c - overlap_c) p) ≡ length p - (max_c - overlap_c)
      → length (drop (max_c - overlap_c) p) < fuel
  smaller fuel p o l h e = omega arith

  hard_split-IsCut :
      (fuel : ℕ) (p : Text)
      → overlap_c < max_c
      → length p < fuel
      → IsCut p (hard_split t min_c max_c overlap_c fuel p)
  unfolding hard_split IsCut rejoin IsShort
  hard_split-IsCut zero p o l = elim (no_less l) [ ]
  hard_split-IsCut (suc fuel) p o l =
      let q = drop (max_c - overlap_c) p in
      elim (Bool-cases (ltb max_c (length p))) [
        | inl h ↦
            subst
              (λ b. IsCut p (
                if b
                then cons_unit (take max_c p) (hard_split t min_c max_c overlap_c fuel q)
                else some ([], p)))
              (sym h)
              (cons_unit-IsCut p (hard_split t min_c max_c overlap_c fuel q) (
                hard_split-IsCut fuel q o (
                  smaller fuel p o l (ltb→lt max_c (length p) h)
                    (length-drop (max_c - overlap_c) p))))
        | inr h ↦
            subst
              (λ b. IsCut p (
                if b
                then cons_unit (take max_c p) (hard_split t min_c max_c overlap_c fuel q)
                else some ([], p)))
              (sym h) (tt, ltb_false→le max_c (length p) h, refl)
      ]

  unfoldable pub IsUnits : Option (List Text) → Type 0
  unfolding IsShort
  IsUnits none = ⊥
  IsUnits (some us) = All IsShort us

  with_rest-IsShort :
      (us : List Text) (q : Text)
      → All IsShort us
      → IsShort q
      → (b : Bool) → All IsShort (us ++ (if b then [] else q ∷ []))
  with_rest-IsShort us q h k true = All-append IsShort us [] h tt
  with_rest-IsShort us q h k false = All-append IsShort us (q ∷ []) h (k, tt)

  add_cut-IsUnits :
      (p : Text) (r : Option (List Text × Text)) (rest : Option (List Text))
      → IsCut p r
      → IsUnits rest
      → IsUnits (add_cut t min_c max_c overlap_c r rest)
  unfolding IsUnits IsCut
  add_cut-IsUnits p none rest h k = h
  add_cut-IsUnits p (some (us, q)) none h k = k
  add_cut-IsUnits p (some (us, q)) (some rest) (a, b, e) k =
      All-append IsShort (us ++ (if is_blank t q then [] else q ∷ [])) rest
        (with_rest-IsShort us q a b (is_blank t q)) k

  pub units-IsUnits :
      (ps : List Text) → overlap_c < max_c → IsUnits (units t min_c max_c overlap_c ps)
  unfolding units IsUnits
  units-IsUnits [] o = tt
  units-IsUnits (p ∷ ps) o =
      add_cut-IsUnits p (hard_split t min_c max_c overlap_c (suc (length p)) p)
        (units t min_c max_c overlap_c ps) (hard_split-IsCut (suc (length p)) p o (omega arith))
        (units-IsUnits ps o)

  cut_result :
      (p : Text) (r : Option (List Text × Text))
      → IsCut p r
      → (us : List Text) × (q : Text) × (r ≡ some (us, q))
        × All IsShort us
        × IsShort q
        × (rejoin us q ≡ p)
  unfolding IsCut
  cut_result p none h = elim h [ ]
  cut_result p (some (us, q)) (a, b, e) = (us, q, refl, a, b, e)

  -- Where the overlap is smaller than the maximum, the loop that cuts a paragraph ends within one
  -- round per character, no unit is longer than the maximum, and the units without what the next
  -- one repeats, followed by the rest, are the paragraph again.
  pub rejoin-hard_split :
      (p : Text)
      → overlap_c < max_c
      → (us : List Text) × (q : Text) × (hard_split t min_c max_c overlap_c (suc (length p)) p
          ≡ some (us, q))
        × All IsShort us
        × IsShort q
        × (rejoin us q ≡ p)
  rejoin-hard_split p o =
      cut_result p (hard_split t min_c max_c overlap_c (suc (length p)) p)
        (hard_split-IsCut (suc (length p)) p o (omega arith))
