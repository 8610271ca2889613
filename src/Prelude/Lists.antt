-- ===== src/Prelude/Lists.antt =====
-- Lists measured and indexed by native numbers, membership and predicates over lists.
use Prim.Native.Nat.{ℕ, zero, suc, ◌+◌, ◌-◌, ◌≤◌}
use mathlib.Core.Path.{◌≡◌, refl, ap, sym, subst, ◌∙◌}
use mathlib.Core.Logic.{◌⊎◌, inl, inr}
use mathlib.Core.Bool.{Bool, true, false, ◌||◌}
use mathlib.Core.List.{List, [], ◌∷◌, ◌++◌, map}
use mathlib.Core.Option.{Option, none, some, some-injective}
use native.Mathlib.Omega.{arith}
use agentic_rag_claude_code.Prelude.Tests.{◌==◌, ==_iff, if◌then◌else◌}

module _ {ℓ} {A : Type ℓ} where
  abbrev pub length : List A → ℕ
  length [] = 0
  length (x ∷ xs) = suc (length xs)

  abbrev pub get_elem? : List A → ℕ → Option A
  get_elem? [] i = none
  get_elem? (x ∷ xs) zero = some x
  get_elem? (x ∷ xs) (suc i) = get_elem? xs i

  abbrev pub take : ℕ → List A → List A
  take zero xs = []
  take (suc n) [] = []
  take (suc n) (x ∷ xs) = x ∷ take n xs

  abbrev pub drop : ℕ → List A → List A
  drop zero xs = xs
  drop (suc n) [] = []
  drop (suc n) (x ∷ xs) = drop n xs

  abbrev pub is_empty : List A → Bool
  is_empty [] = true
  is_empty (x ∷ xs) = false

  -- `xs[-n:]` for a positive `n`
  abbrev pub take_last : ℕ → List A → List A
  take_last n xs = drop (length xs - n) xs

  pub length-append : (xs ys : List A) → length (xs ++ ys) ≡ length xs + length ys
  length-append [] ys = omega arith
  length-append (x ∷ xs) ys = omega (arith, length-append xs ys)

  pub length-drop : (n : ℕ) (xs : List A) → length (drop n xs) ≡ length xs - n
  length-drop zero xs = omega arith
  length-drop (suc n) [] = omega arith
  length-drop (suc n) (x ∷ xs) = omega (arith, length-drop n xs)

  pub length-take-le : (count : ℕ) (list : List A) → length (take count list) ≤ count
  length-take-le zero list = omega arith
  length-take-le (suc count) [] = omega arith
  length-take-le (suc count) (a ∷ list) = omega (arith, length-take-le count list)

  pub take-append-drop : (n : ℕ) (xs : List A) → take n xs ++ drop n xs ≡ xs
  take-append-drop zero xs = refl
  take-append-drop (suc n) [] = refl
  take-append-drop (suc n) (x ∷ xs) = ap (◌∷◌ x) (take-append-drop n xs)

pub length-take_last-le {ℓ} : {A : Type ℓ} (n : ℕ) (xs : List A) → length (take_last n xs) ≤ n
length-take_last-le n xs = omega (arith, length-drop (length xs - n) xs)

-- A predicate by recursion computes to tuples, which the tactics read and build.
module _ {ℓ κ} {A : Type ℓ} (P : A → Type κ) where
  abbrev pub All : List A → Type κ
  All [] = Unit
  All (x ∷ xs) = P x × All xs

  pub All-append : (xs ys : List A) → All xs → All ys → All (xs ++ ys)
  All-append [] ys hx hy = hy
  All-append (x ∷ xs) ys hx hy = (hx.0, All-append xs ys hx.1 hy)

-- Membership with its place kept: it computes, and splits into a sum.
abbrev pub In : {A : Type 0} → A → List A → Type 0
In a [] = ⊥
In a (x ∷ xs) = (a ≡ x) ⊎ In a xs

-- `a in xs` over numbers.
abbrev pub elem : ℕ → List ℕ → Bool
elem a [] = false
elem a (x ∷ xs) = a == x || elem a xs

pub elem→In : (a : ℕ) (xs : List ℕ) → elem a xs ≡ true → In a xs
elem→In a [] h = cc
elem→In a (x ∷ xs) h = ground (arith, elem→In a xs, ==_iff a x)

pub In→elem : (a : ℕ) (xs : List ℕ) → In a xs → elem a xs ≡ true
In→elem a [] h = elim h [ ]
In→elem a (x ∷ xs) h = ground (arith, In→elem a xs, ==_iff a x)

pub In-append_left : {A : Type 0} (a : A) (xs ys : List A) → In a xs → In a (xs ++ ys)
In-append_left a (x ∷ xs) ys (inl e) = inl e
In-append_left a (x ∷ xs) ys (inr m) = inr (In-append_left a xs ys m)
In-append_left a [] ys m = elim m [ ]

pub In-append_right : {A : Type 0} (a : A) (xs ys : List A) → In a ys → In a (xs ++ ys)
In-append_right a [] ys m = m
In-append_right a (x ∷ xs) ys m = inr (In-append_right a xs ys m)

pub In-append_split : {A : Type 0} (a : A) (xs ys : List A) → In a (xs ++ ys) → In a xs ⊎ In a ys
In-append_split a [] ys m = inr m
In-append_split a (x ∷ xs) ys (inl e) = inl (inl e)
In-append_split a (x ∷ xs) ys (inr m) = elim (In-append_split a xs ys m) [
  | inl l ↦ inl (inr l)
  | inr r ↦ inr r
]

pub All-In : {A : Type 0} (P : A → Type 0) (a : A) (xs : List A) → All P xs → In a xs → P a
All-In P a [] h m = elim m [ ]
All-In P a (x ∷ xs) h (inl e) = subst P (sym e) h.0
All-In P a (x ∷ xs) h (inr m) = All-In P a xs h.1 m

pub All_of_In : {A : Type 0} (P : A → Type 0) (xs : List A) → ((a : A) → In a xs → P a) → All P xs
All_of_In P [] h = tt
All_of_In P (x ∷ xs) h = (h x (inl refl), All_of_In P xs (λ a m. h a (inr m)))

pub In-get_elem? : {A : Type 0} (xs : List A) (i : ℕ) (a : A) → get_elem? xs i ≡ some a → In a xs
In-get_elem? [] i a e = absurd (cc e)
In-get_elem? (x ∷ xs) zero a e = inl (sym (some-injective x a e))
In-get_elem? (x ∷ xs) (suc i) a e = inr (In-get_elem? xs i a e)

-- [x for x in xs if p(x)]
module _ {ℓ} {A : Type ℓ} where
  abbrev pub filter_by : (A → Bool) → List A → List A
  filter_by p [] = []
  filter_by p (x ∷ xs) = let rest = filter_by p xs in if p x then x ∷ rest else rest

  -- the first x of xs with p(x), or None
  abbrev pub find_if : (A → Bool) → List A → Option A
  find_if p [] = none
  find_if p (x ∷ xs) = let rest = find_if p xs in if p x then some x else rest

  pub find_if-holds : (p : A → Bool) (xs : List A) (a : A) → find_if p xs ≡ some a → p a ≡ true
  find_if-holds p (x ∷ xs) a h = found (p x) refl h (find_if-holds p xs a)
    where
      found :
          (b : Bool)
          → p x ≡ b
          → (if b then some x else find_if p xs) ≡ some a
          → (find_if p xs ≡ some a → p a ≡ true)
          → p a ≡ true
      found true e k ih = ap p (sym (some-injective x a k)) ∙ e
      found false e k ih = ih k
  find_if-holds p [] a h = absurd (cc h)

  -- A row that is no match of q is found among the rows that are kept by q as among all.
  pub find_if-filter_by :
      (p q : A → Bool) (xs : List A)
      → ((a : A) → p a ≡ true → q a ≡ true)
      → find_if p (filter_by q xs) ≡ find_if p xs
  find_if-filter_by p q [] h = refl
  find_if-filter_by p q (x ∷ xs) h = ground (arith, find_if-filter_by p q xs h, h x)

  pub filter_by-filter_by :
      (p q : A → Bool) (xs : List A)
      → ((a : A) → p a ≡ true → q a ≡ true)
      → filter_by p (filter_by q xs) ≡ filter_by p xs
  filter_by-filter_by p q [] h = refl
  filter_by-filter_by p q (x ∷ xs) h = ground (arith, filter_by-filter_by p q xs h, h x)

  pub filter_by-append :
      (p : A → Bool) (xs ys : List A) → filter_by p (xs ++ ys) ≡ filter_by p xs ++ filter_by p ys
  filter_by-append p [] ys = refl
  filter_by-append p (x ∷ xs) ys = ground (arith, filter_by-append p xs ys)

  pub filter_by-none : (p : A → Bool) (xs : List A) → ((a : A) → p a ≡ false) → filter_by p xs ≡ []
  filter_by-none p [] h = refl
  filter_by-none p (x ∷ xs) h = ground (arith, filter_by-none p xs h, h x)

module _ {A : Type 0} where
  pub In-filter_by_sound :
      (p : A → Bool) (a : A) (xs : List A) → In a (filter_by p xs) → In a xs × (p a ≡ true)
  In-filter_by_sound p a [] m = elim m [ ]
  In-filter_by_sound p a (x ∷ xs) m = kept (p x) refl m (In-filter_by_sound p a xs)
    where
      kept :
          (b : Bool)
          → p x ≡ b
          → In a (if b then x ∷ filter_by p xs else filter_by p xs)
          → (In a (filter_by p xs) → In a xs × (p a ≡ true))
          → In a (x ∷ xs) × (p a ≡ true)
      kept true e (inl q) ih = (inl q, ap p q ∙ e)
      kept true e (inr m) ih = (inr (ih m).0, (ih m).1)
      kept false e m ih = (inr (ih m).0, (ih m).1)

  pub In-filter_by_complete :
      (p : A → Bool) (a : A) (xs : List A) → In a xs → p a ≡ true → In a (filter_by p xs)
  In-filter_by_complete p a [] m h = elim m [ ]
  In-filter_by_complete p a (x ∷ xs) m h = kept (p x) refl m (λ n. In-filter_by_complete p a xs n h)
    where
      kept :
          (b : Bool)
          → p x ≡ b
          → In a (x ∷ xs)
          → (In a xs → In a (filter_by p xs))
          → In a (if b then x ∷ filter_by p xs else filter_by p xs)
      kept true e (inl q) ih = inl q
      kept true e (inr m) ih = inr (ih m)
      kept false e (inl q) ih = absurd (cc (e, h, ap p q))
      kept false e (inr m) ih = ih m

module _ {A B : Type 0} where
  pub In-map_sound :
      (f : A → B) (b : B) (xs : List A) → In b (map f xs) → (a : A) × In a xs × (f a ≡ b)
  In-map_sound f b [] m = elim m [ ]
  In-map_sound f b (x ∷ xs) (inl e) = (x, inl refl, sym e)
  In-map_sound f b (x ∷ xs) (inr m) = let (a, n, e) = In-map_sound f b xs m in (a, inr n, e)

  pub In-map_complete : (f : A → B) (a : A) (xs : List A) → In a xs → In (f a) (map f xs)
  In-map_complete f a [] m = elim m [ ]
  In-map_complete f a (x ∷ xs) (inl e) = inl (ap f e)
  In-map_complete f a (x ∷ xs) (inr m) = inr (In-map_complete f a xs m)

  -- Two lists of one length, related place by place.
  abbrev pub All2 : (A → B → Type 0) → List A → List B → Type 0
  All2 R [] [] = Unit
  All2 R [] (y ∷ ys) = ⊥
  All2 R (x ∷ xs) [] = ⊥
  All2 R (x ∷ xs) (y ∷ ys) = R x y × All2 R xs ys

  pub All2-map :
      (R : A → B → Type 0) (f : A → B) (xs : List A)
      → ((x : A) → In x xs → R x (f x))
      → All2 R xs (map f xs)
  All2-map R f [] h = tt
  All2-map R f (x ∷ xs) h = (h x (inl refl), All2-map R f xs (λ a m. h a (inr m)))
