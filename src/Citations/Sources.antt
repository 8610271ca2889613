-- ===== src/Citations/Sources.antt =====
-- What `extract_citations` of app/graph/citations.py cites: no source that the answer does not name,
-- every one that it names, and each from the chunk that stands at its number.
use Prim.Native.Nat.{◌-◌}
use agentic_rag_claude_code.Prelude.{
  ℕ, zero, suc, ◌≤◌, ◌<◌, ◌≡◌, refl, sym, ap, subst, Bool, true, false, Option, none, some, List,
  [], ◌∷◌, ◌++◌, Text, map, All, In, In-append_left, In-append_right, In-append_split, inl, inr,
  ◌⊎◌, ◌↔◌, arith, ltb, leb, ltb→lt, ◌==◌, if◌then◌else◌, Bool-cases, length, get_elem?, is_empty,
  text_eq, ◌&&◌, ◌||◌, All_of_In,
}
use agentic_rag_claude_code.Characters.{CharTable, HasPlainBrackets, strip}
use agentic_rag_claude_code.Chunks.{Chunk}
use agentic_rag_claude_code.Citations.{
  outside, scan, insert_marker, sorted_set, Citation, citation_of, cite_one, cite_all,
  extract_citations, insufficient_answer,
}
use agentic_rag_claude_code.Citations.Markers.{Occurs, scan-Occurs}

In-insert_marker : (n m : ℕ) (ns : List ℕ) → In n (insert_marker m ns) ↔ ((n ≡ m) ⊎ In n ns)
unfolding insert_marker
In-insert_marker n m [] = ground arith
In-insert_marker n m (x ∷ xs) = ground (arith, In-insert_marker n m xs)

In-sorted_set : (n : ℕ) (ns : List ℕ) → In n (sorted_set ns) ↔ In n ns
unfolding sorted_set
In-sorted_set n [] = ground arith
In-sorted_set n (m ∷ ns) = ground (arith, In-insert_marker n m (sorted_set ns), In-sorted_set n ns)

abbrev pub IsAscending : List ℕ → Type 0
IsAscending [] = Unit
IsAscending (n ∷ ns) = All (λ m. n < m) ns × IsAscending ns

above-insert_marker :
    (k n : ℕ) (ns : List ℕ) → k < n → All (λ m. k < m) ns → All (λ m. k < m) (insert_marker n ns)
unfolding insert_marker
above-insert_marker k n [] lt h = (lt, tt)
above-insert_marker k n (x ∷ xs) lt h = ground (arith, above-insert_marker k n xs lt)

above_trans : (k n : ℕ) (ns : List ℕ) → k < n → All (λ m. n < m) ns → All (λ m. k < m) ns
above_trans k n [] lt h = tt
above_trans k n (x ∷ xs) lt h = (omega arith, above_trans k n xs lt h.1)

insert_marker-IsAscending :
    (n : ℕ) (ns : List ℕ) → IsAscending ns → IsAscending (insert_marker n ns)
unfolding insert_marker
insert_marker-IsAscending n [] h = (tt, tt)
insert_marker-IsAscending n (x ∷ xs) h = elim (Bool-cases (ltb n x)) [
  | inl lt ↦ rw lt ((ltb→lt n x lt, above_trans n x xs (ltb→lt n x lt) h.0), h)
  | inr ge ↦ elim (Bool-cases (n == x)) [
    | inl same ↦ rw (ge, same) h
    | inr other ↦
        rw (ge, other)
          (above-insert_marker x n xs (ground arith) h.0, insert_marker-IsAscending n xs h.1)
  ]
]

sorted_set-IsAscending : (ns : List ℕ) → IsAscending (sorted_set ns)
unfolding sorted_set
sorted_set-IsAscending [] = tt
sorted_set-IsAscending (n ∷ ns) =
    insert_marker-IsAscending n (sorted_set ns) (sorted_set-IsAscending ns)

-- A citation of the chunk that stands at its number, counted from 1.
pub record IsSource (chunks : List Chunk) (c : Citation) : Type 0 where
  pub source : Chunk
  pub positive : 1 ≤ c.marker
  pub stands_at : get_elem? chunks (c.marker - 1) ≡ some source
  pub copied : c ≡ citation_of c.marker source

get_elem?-some :
    {A : Type 0} (xs : List A) (i : ℕ) → i < length xs → (a : A) × (get_elem? xs i ≡ some a)
get_elem?-some [] i h = absurd (omega arith)
get_elem?-some (x ∷ xs) zero h = (x, refl)
get_elem?-some (x ∷ xs) (suc i) h = get_elem?-some xs i (omega arith)

get_elem?_lt : {A : Type 0} (xs : List A) (i : ℕ) (a : A) → get_elem? xs i ≡ some a → i < length xs
get_elem?_lt [] i a h = absurd (cc h)
get_elem?_lt (x ∷ xs) zero a h = omega arith
get_elem?_lt (x ∷ xs) (suc i) a h = omega (arith, get_elem?_lt xs i a h)

In-cite_one :
    (chunks : List Chunk) (n : ℕ) (o : Option Chunk) (c : Citation)
    → 1 ≤ n
    → get_elem? chunks (n - 1) ≡ o
    → In c (cite_one n o)
    → IsSource chunks c × (c.marker ≡ n)
In-cite_one chunks n none c pos e m = elim m [ ]
In-cite_one chunks n (some k) c pos e (inr m) = elim m [ ]
In-cite_one chunks n (some k) c pos e (inl p) = (
  subst (IsSource chunks) (sym p)
      (record { source = k; positive = pos; stands_at = e; copied = refl }),
  ap (λ (d : Citation). d.marker) p,
)

-- The two tests of the loop.
abbrev in_range : List Chunk → ℕ → Bool
in_range chunks n = leb 1 n && leb n (length chunks)

cite_all_sound :
    (chunks : List Chunk) (ns : List ℕ) (c : Citation)
    → In c (cite_all chunks ns)
    → IsSource chunks c × In c.marker ns
unfolding cite_all
cite_all_sound chunks [] c m = elim m [ ]
cite_all_sound chunks (n ∷ ns) c m = elim (Bool-cases (in_range chunks n)) [
  | inl ok ↦
      elim (In-append_split c (cite_one n (get_elem? chunks (n - 1))) (cite_all chunks ns)
        (rw ok at m)) [
          | inl here ↦
              let (s, e) =
                In-cite_one chunks n (get_elem? chunks (n - 1)) c (ground arith) refl here in
              (s, inl e)
          | inr later ↦ let (s, l) = cite_all_sound chunks ns c later in (s, inr l)
        ]
  | inr out ↦ let (s, l) = cite_all_sound chunks ns c (rw out at m) in (s, inr l)
]

cite_all_complete :
    (chunks : List Chunk) (ns : List ℕ) (n : ℕ) (k : Chunk)
    → In n ns
    → 1 ≤ n
    → get_elem? chunks (n - 1) ≡ some k
    → In (citation_of n k) (cite_all chunks ns)
unfolding cite_all
cite_all_complete chunks [] n k m pos e = elim m [ ]
cite_all_complete chunks (x ∷ ns) n k (inr l) pos e =
    In-append_right _ (if in_range chunks x then cite_one x (get_elem? chunks (x - 1)) else []) _
      (cite_all_complete chunks ns n k l pos e)
cite_all_complete chunks (x ∷ ns) n k (inl p) pos e =
    In-append_left _ (if in_range chunks x then cite_one x (get_elem? chunks (x - 1)) else []) _ (
      subst
        (λ y.
          In (citation_of n k)
            (if in_range chunks y then cite_one y (get_elem? chunks (y - 1)) else []))
        p (rw (range, e) (inl refl)))
  where
    range : in_range chunks n ≡ true
    range = ground (arith, get_elem?_lt chunks (n - 1) k e)

abbrev pub markers : List Citation → List ℕ
markers = map (λ c. c.marker)

above-cite_all :
    (chunks : List Chunk) (k : ℕ) (ns : List ℕ)
    → All (λ m. k < m) ns
    → All (λ m. k < m) (markers (cite_all chunks ns))
unfolding cite_all
above-cite_all chunks k [] h = tt
above-cite_all chunks k (n ∷ ns) h = elim (Bool-cases (in_range chunks n)) [
  | inl ok ↦ rw ok (one (above-cite_all chunks k ns h.1) (get_elem? chunks (n - 1)))
  | inr out ↦ rw out (above-cite_all chunks k ns h.1)
]
  where
    one :
        All (λ m. k < m) (markers (cite_all chunks ns))
        → (o : Option Chunk) → All (λ m. k < m) (markers (cite_one n o ++ cite_all chunks ns))
    one rest none = rest
    one rest (some c) = (h.0, rest)

cite_all-IsAscending :
    (chunks : List Chunk) (ns : List ℕ)
    → IsAscending ns
    → IsAscending (markers (cite_all chunks ns))
unfolding cite_all
cite_all-IsAscending chunks [] h = tt
cite_all-IsAscending chunks (n ∷ ns) h = elim (Bool-cases (in_range chunks n)) [
  | inl ok ↦ rw ok (one (cite_all-IsAscending chunks ns h.1) (get_elem? chunks (n - 1)))
  | inr out ↦ rw out (cite_all-IsAscending chunks ns h.1)
]
  where
    one :
        IsAscending (markers (cite_all chunks ns))
        → (o : Option Chunk) → IsAscending (markers (cite_one n o ++ cite_all chunks ns))
    one rest none = rest
    one rest (some c) = (above-cite_all chunks n ns h.0, rest)

abbrev abstains : CharTable → Text → Bool
abstains table answer = is_empty answer || text_eq (strip table answer) insufficient_answer

-- Every citation is of the chunk that stands at its number, whatever the tables of characters say.
pub extract_citations-IsSource :
    (table : CharTable) (answer : Text) (chunks : List Chunk) (c : Citation)
    → In c (extract_citations table answer chunks)
    → IsSource chunks c
unfolding extract_citations
extract_citations-IsSource table answer chunks c m = elim (Bool-cases (abstains table answer)) [
  | inl yes' ↦ absurd (rw yes' at m)
  | inr no' ↦ (cite_all_sound chunks (sorted_set (scan table outside answer)) c (rw no' at m)).0
]

-- No fabricated source: whatever the answer, every citation is of the chunk that stands at its
-- number among the packed chunks, and the answer holds its number between brackets.
extract_citations_sound :
    (table : CharTable)
    → HasPlainBrackets table
    → (answer : Text) (chunks : List Chunk) (c : Citation)
    → In c (extract_citations table answer chunks)
    → IsSource chunks c × Occurs table c.marker answer
unfolding extract_citations
extract_citations_sound table plain answer chunks c m = elim (Bool-cases (abstains table answer)) [
  | inl yes' ↦ absurd (rw yes' at m)
  | inr no' ↦
      let (s, l) = cite_all_sound chunks (sorted_set (scan table outside answer)) c (rw no' at m) in
      (s, (scan-Occurs table plain c.marker answer).0 ((In-sorted_set c.marker _).0 l))
]

-- No source is lost: unless the answer is empty or, stripped, the abstention, every number between
-- brackets at which a packed chunk stands is cited with that chunk.
pub extract_citations_complete :
    (table : CharTable)
    → HasPlainBrackets table
    → (answer : Text) (chunks : List Chunk) (n : ℕ) (k : Chunk)
    → (is_empty answer || text_eq (strip table answer) insufficient_answer) ≡ false
    → Occurs table n answer
    → 1 ≤ n
    → get_elem? chunks (n - 1) ≡ some k
    → In (citation_of n k) (extract_citations table answer chunks)
unfolding extract_citations
extract_citations_complete table plain answer chunks n k speaks o pos e = rw speaks (
    cite_all_complete chunks (sorted_set (scan table outside answer)) n k
      ((In-sorted_set n _).1 ((scan-Occurs table plain n answer).1 o)) pos e)

-- The markers of the citations ascend strictly, so no source is cited twice.
extract_citations-IsAscending :
    (table : CharTable) (answer : Text) (chunks : List Chunk)
    → IsAscending (markers (extract_citations table answer chunks))
unfolding extract_citations
extract_citations-IsAscending table answer chunks = elim (Bool-cases (abstains table answer)) [
  | inl yes' ↦ rw yes' tt
  | inr no' ↦
      rw no' (cite_all-IsAscending chunks _ (sorted_set-IsAscending (scan table outside answer)))
]

-- what the citations of an answer are
pub record AreSources (table : CharTable) (answer : Text) (chunks : List Chunk) (cs : List Citation)
    : Type 0 where
  pub sources : All (λ c. IsSource chunks c × Occurs table c.marker answer) cs
  pub ascending : IsAscending (markers cs)

-- No fabricated source: where the table of characters takes no bracket for a digit, every citation is of
-- the chunk that stands at its number among the packed chunks, and the answer holds its number between
-- brackets. The markers ascend strictly, so no source is cited twice.
pub extract_citations-AreSources :
    (table : CharTable)
    → HasPlainBrackets table
    → (answer : Text) (chunks : List Chunk)
    → AreSources table answer chunks (extract_citations table answer chunks)
extract_citations-AreSources table plain answer chunks = record {
  sources =
      All_of_In (λ c. IsSource chunks c × Occurs table c.marker answer)
        (extract_citations table answer chunks) (extract_citations_sound table plain answer chunks);
  ascending = extract_citations-IsAscending table answer chunks;
}
