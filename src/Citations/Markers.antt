-- ===== src/Citations/Markers.antt =====
-- Which numbers the marker automaton of app/graph/citations.py finds: those that stand between
-- brackets somewhere in the text.
use agentic_rag_claude_code.Citations.{after_opening, after_digits}
use mathlib.Core.List.{append_assoc}
use agentic_rag_claude_code.Prelude.{
  ℕ, ◌≡◌, ◌≢◌, refl, sym, ap, ◌∙◌, subst, Option, none, some, [], ◌∷◌, ◌++◌, Text, In,
  In-append_right, In-append_split, inl, inr, ◌↔◌, arith, ◌==◌, Bool-cases, ==_iff, Option-cases,
}
use agentic_rag_claude_code.Characters.{CharTable, HasPlainBrackets}
use agentic_rag_claude_code.Citations.{Mode, outside, opened, digits, shift, after, scan_char, scan}

module _ (table : CharTable) where
  -- The decimal value of a text of digits, read behind digits of value `v`.
  unfoldable pub value_from : ℕ → Text → Option ℕ
  value_from v [] = some v
  value_from v (c ∷ t) = elim (table.decimal c) [ none ↦ none | some d ↦ value_from (shift v d) t ]

  -- `ds` is one or more digits of value `n`.
  pub record IsNumeral (ds : Text) (n : ℕ) : Type 0 where
    pub nonempty : ds ≢ []
    pub value : value_from 0 ds ≡ some n

  -- The text holds "[", a numeral of value `n` and "]", one behind the other.
  pub record Occurs (n : ℕ) (text : Text) : Type 0 where
    pub before : Text
    pub numeral : Text
    pub behind : Text
    pub split : text ≡ before ++ (b'[' ∷ (numeral ++ (b']' ∷ behind)))
    pub is_numeral : IsNumeral numeral n

  value_from-snoc :
      (v : ℕ) (ds : Text) (w c d : ℕ)
      → value_from v ds ≡ some w
      → table.decimal c ≡ some d
      → value_from v (ds ++ c ∷ []) ≡ some (shift w d)
  unfolding value_from
  value_from-snoc v [] w c d h e = ground arith
  value_from-snoc v (x ∷ ds) w c d h e = elim (Option-cases (table.decimal x)) [
    | inl none' ↦ absurd (ground arith)
    | inr (k, some') ↦
        rw (some', value_from) (value_from-snoc (shift v k) ds w c d (ground arith) e)
  ]

  -- What the mode knows of the text read so far.
  Seen : Mode → Text → Type 0
  Seen outside seen = Unit
  Seen opened seen = (q : Text) × (seen ≡ q ++ b'[' ∷ [])
  Seen (digits v) seen = (q : Text) × (ds : Text) × (seen ≡ q ++ (b'[' ∷ ds)) × IsNumeral ds v

  Seen-after : (c : ℕ) (seen : Text) → Seen (after c) (seen ++ c ∷ [])
  unfolding Seen
  Seen-after c seen = elim (Bool-cases (c == b'[')) [
    | inl e ↦ rw e (seen, ap (λ x. seen ++ x ∷ []) ((==_iff c b'[').0 e))
    | inr e ↦ rw e tt
  ]

  Seen-after_opening :
      (c : ℕ) (seen : Text) (o : Option ℕ)
      → table.decimal c ≡ o
      → Seen opened seen
      → Seen (after_opening table c o) (seen ++ c ∷ [])
  unfolding Seen after_opening
  Seen-after_opening c seen none e h = Seen-after c seen
  Seen-after_opening c seen (some d) e (q, p) = (
    q,
    c ∷ [],
    ap (λ x. x ++ c ∷ []) p ∙ append_assoc q (b'[' ∷ []) (c ∷ []),
    record {
      nonempty = λ z. cc z;
      value = value_from-snoc 0 [] 0 c d (unfold value_from in refl) e;
    },
  )

  Seen-after_digits :
      (v c : ℕ) (seen : Text) (o : Option ℕ)
      → table.decimal c ≡ o
      → Seen (digits v) seen
      → Seen (after_digits table v c o).0 (seen ++ c ∷ [])
  unfolding Seen after_digits
  Seen-after_digits v c seen (some d) e (q, ds, p, num) = (
    q,
    ds ++ c ∷ [],
    ap (λ x. x ++ c ∷ []) p ∙ append_assoc q (b'[' ∷ ds) (c ∷ []),
    record {
      nonempty = λ z. num.nonempty (snoc_nil ds c z);
      value = value_from-snoc 0 ds v c d num.value e;
    },
  )
    where
      snoc_nil : (xs : Text) (x : ℕ) → (xs ++ x ∷ []) ≡ [] → xs ≡ []
      snoc_nil [] x z = refl
      snoc_nil (y ∷ ys) x z = cc z
  Seen-after_digits v c seen none e h = elim (Bool-cases (c == b']')) [
    | inl close ↦ rw close tt
    | inr other ↦ rw other (Seen-after c seen)
  ]

  Seen-scan_char :
      (mode : Mode) (c : ℕ) (seen : Text)
      → Seen mode seen
      → Seen (scan_char table mode c).0 (seen ++ c ∷ [])
  unfolding scan_char
  Seen-scan_char outside c seen h = Seen-after c seen
  Seen-scan_char opened c seen h = Seen-after_opening c seen (table.decimal c) refl h
  Seen-scan_char (digits v) c seen h = Seen-after_digits v c seen (table.decimal c) refl h

  Occurs-after_digits :
      (v c n : ℕ) (seen t : Text) (o : Option ℕ)
      → Seen (digits v) seen
      → In n (after_digits table v c o).1
      → Occurs n (seen ++ c ∷ t)
  unfolding Seen after_digits
  Occurs-after_digits v c n seen t (some d) h m = elim m [ ]
  Occurs-after_digits v c n seen t none (q, ds, p, num) m = elim (Bool-cases (c == b']')) [
    | inl close ↦ found ((==_iff c b']').0 close) (rw close at m)
    | inr other ↦ absurd (rw other at m)
  ]
    where
      found : c ≡ b']' → In n (v ∷ []) → Occurs n (seen ++ c ∷ t)
      found close (inl e) = record {
        before = q;
        numeral = ds;
        behind = t;
        split =
            ap (λ x. x ++ c ∷ t) p
            ∙ append_assoc q (b'[' ∷ ds) (c ∷ t)
            ∙ ap (λ x. q ++ (b'[' ∷ (ds ++ x ∷ t))) close;
        is_numeral = subst (IsNumeral ds) (sym e) num;
      }
      found close (inr z) = elim z [ ]

  Occurs-scan_char :
      (mode : Mode) (c n : ℕ) (seen t : Text)
      → Seen mode seen
      → In n (scan_char table mode c).1
      → Occurs n (seen ++ c ∷ t)
  unfolding scan_char
  Occurs-scan_char outside c n seen t h m = elim m [ ]
  Occurs-scan_char opened c n seen t h m = elim m [ ]
  Occurs-scan_char (digits v) c n seen t h m =
      Occurs-after_digits v c n seen t (table.decimal c) h m

  -- From a mode that knows what was seen, every number found occurs in the whole text.
  scan_sound :
      (mode : Mode) (n : ℕ) (seen t : Text)
      → Seen mode seen
      → In n (scan table mode t)
      → Occurs n (seen ++ t)
  unfolding scan
  scan_sound mode n seen [] h m = elim m [ ]
  scan_sound mode n seen (c ∷ t) h m =
      elim (In-append_split n (scan_char table mode c).1 (scan table (scan_char table mode c).0 t)
        m) [
          | inl now ↦ Occurs-scan_char mode c n seen t h now
          | inr later ↦ subst (Occurs n) (append_assoc seen (c ∷ []) t) (
              scan_sound (scan_char table mode c).0 n (seen ++ c ∷ []) t
                (Seen-scan_char mode c seen h) later)
        ]

  -- A numeral and a closing bracket, read in a mode that has its first digits.
  scan-numeral :
      HasPlainBrackets table
      → (v n : ℕ) (ds behind : Text) → value_from v ds ≡ some n
      → In n (scan table (digits v) (ds ++ (b']' ∷ behind)))
  unfolding scan
  scan-numeral plain v n [] behind e =
      unfold scan_char in rw plain.closing (inl (unfold value_from in ground arith))
  scan-numeral plain v n (c ∷ ds) behind e = elim (Option-cases (table.decimal c)) [
    | inl none' ↦ absurd (unfold value_from in ground arith)
    | inr (d, some') ↦
        unfold scan_char in
        rw some' (scan-numeral plain (shift v d) n ds behind (unfold value_from in ground arith))
  ]

  -- A bracket is read as an opening one in every mode.
  scan_char-opening :
      HasPlainBrackets table → (mode : Mode) → (scan_char table mode b'[').0 ≡ opened
  unfolding scan_char
  scan_char-opening plain outside = refl
  scan_char-opening plain opened = rw plain.opening refl
  scan_char-opening plain (digits v) = rw plain.opening refl

  scan-marker :
      HasPlainBrackets table
      → (n : ℕ) (ds behind : Text) → IsNumeral ds n
      → In n (scan table opened (ds ++ (b']' ∷ behind)))
  scan-marker plain n [] behind num = absurd (num.nonempty refl)
  scan-marker plain n (c ∷ ds) behind num = elim (Option-cases (table.decimal c)) [
    | inl none' ↦ absurd (let e = num.value in unfold value_from in ground arith)
    | inr (d, some') ↦
        unfold scan scan_char in
        rw some' (
          scan-numeral plain (shift 0 d) n ds behind
            (let e = num.value in unfold value_from in ground arith))
  ]

  scan_complete :
      HasPlainBrackets table
      → (mode : Mode) (n : ℕ) (before ds behind : Text) → IsNumeral ds n
      → In n (scan table mode (before ++ (b'[' ∷ (ds ++ (b']' ∷ behind)))))
  unfolding scan
  scan_complete plain mode n [] ds behind num =
      In-append_right n (scan_char table mode b'[').1 _
        (rw (scan_char-opening plain mode) (scan-marker plain n ds behind num))
  scan_complete plain mode n (c ∷ before) ds behind num =
      In-append_right n (scan_char table mode c).1 _
        (scan_complete plain (scan_char table mode c).0 n before ds behind num)

-- If brackets are no digits, the automaton finds in a text exactly the numbers `n` for which "[", a
-- numeral of value `n` and "]" stand one behind the other somewhere in it.
pub scan-Occurs :
    (table : CharTable)
    → HasPlainBrackets table
    → (n : ℕ) (text : Text) → In n (scan table outside text) ↔ Occurs table n text
scan-Occurs table plain n text = (
  (λ m. scan_sound table outside n [] text (unfold Seen in tt) m),
  λ o.
      subst (λ t. In n (scan table outside t)) (sym o.split)
        (scan_complete table plain outside n o.before o.numeral o.behind o.is_numeral),
)
