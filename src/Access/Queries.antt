-- ===== src/Access/Queries.antt =====
-- What each query of app/core/rbac.py selects.
use mathlib.Core.List.{map}
use agentic_rag_claude_code.Prelude.{
  ℕ, ◌≡◌, refl, sym, ap, subst, ◌∙◌, ◌⊎◌, inl, inr, Bool, true, false, Option, none, some, List, [],
  ◌∷◌, In, ==_iff, ◌==◌, and_left, and_right, ==_refl, ◌&&◌, if◌then◌else◌,
}
use agentic_rag_claude_code.Access.Rbac.{
  PrincipalType, department, ResourceType, collection, document, Collection, Permission,
  equals_some, same_principal, same_resource, department_collections, grants_to, granted,
}

kept_sound :
    (b : Bool) (x id : ℕ) (rest : List ℕ)
    → In id (if b then x ∷ rest else rest)
    → ((b ≡ true) × (x ≡ id)) ⊎ In id rest
kept_sound true x id rest (inl e) = inl (refl, sym e)
kept_sound true x id rest (inr m) = inr m
kept_sound false x id rest m = inr m

kept_head :
    (b : Bool) (x id : ℕ) (rest : List ℕ) → b ≡ true → x ≡ id → In id (if b then x ∷ rest else rest)
kept_head true x id rest t e = inl (sym e)
kept_head false x id rest t e = cc

kept_tail :
    (b : Bool) (x id : ℕ) (rest : List ℕ) → In id rest → In id (if b then x ∷ rest else rest)
kept_tail true x id rest m = inr m
kept_tail false x id rest m = m

pub In-map_id :
    (id : ℕ) (cs : List Collection)
    → In id (map (λ (c : Collection). c.id) cs)
    → (c : Collection) × In c cs × (c.id ≡ id)
In-map_id id [] m = elim m [ ]
In-map_id id (c ∷ cs) (inl e) = (c, inl refl, sym e)
In-map_id id (c ∷ cs) (inr m) = let (d, l, e) = In-map_id id cs m in (d, inr l, e)

pub In-map_of :
    (id : ℕ) (cs : List Collection) (c : Collection)
    → In c cs
    → c.id ≡ id
    → In id (map (λ (c : Collection). c.id) cs)
In-map_of id [] c m e = elim m [ ]
In-map_of id (x ∷ cs) c (inl p) e = inl (sym e ∙ ap (λ (c : Collection). c.id) p)
In-map_of id (x ∷ cs) c (inr m) e = inr (In-map_of id cs c m e)

same_resource_sound : (a b : ResourceType) → same_resource a b ≡ true → a ≡ b
same_resource_sound collection collection h = refl
same_resource_sound document document h = refl
same_resource_sound collection document h = cc
same_resource_sound document collection h = cc

same_resource_refl : (a : ResourceType) → same_resource a a ≡ true
same_resource_refl collection = refl
same_resource_refl document = refl

same_principal_sound : (a b : PrincipalType) → same_principal a b ≡ true → a ≡ b
same_principal_sound PrincipalType.user PrincipalType.user h = refl
same_principal_sound department department h = refl
same_principal_sound PrincipalType.user department h = cc
same_principal_sound department PrincipalType.user h = cc

same_principal_refl : (a : PrincipalType) → same_principal a a ≡ true
same_principal_refl PrincipalType.user = refl
same_principal_refl department = refl

and_intro : (a b : Bool) → a ≡ true → b ≡ true → (a && b) ≡ true
and_intro true b h k = k
and_intro false b h k = h

equals_some_sound : (o : Option ℕ) (d : ℕ) → equals_some o d ≡ true → o ≡ some d
equals_some_sound none d h = cc
equals_some_sound (some e) d h = ap (λ n. some n) ((==_iff e d).0 h)

equals_some_complete : (o : Option ℕ) (d : ℕ) → o ≡ some d → equals_some o d ≡ true
equals_some_complete o d h = subst (λ o. equals_some o d ≡ true) (sym h) (==_refl d)

pub department_collections_sound :
    (d id : ℕ) (cs : List Collection)
    → In id (department_collections d cs)
    → (c : Collection) × In c cs × (c.department_id ≡ some d) × (c.id ≡ id)
unfolding department_collections
department_collections_sound d id [] m = elim m [ ]
department_collections_sound d id (c ∷ cs) m =
    elim (kept_sound (equals_some c.department_id d) c.id id (department_collections d cs) m) [
      | inl h ↦ (c, inl refl, equals_some_sound c.department_id d h.0, h.1)
      | inr l ↦ let (e, k, q, w) = department_collections_sound d id cs l in (e, inr k, q, w)
    ]

pub department_collections_complete :
    (d id : ℕ) (cs : List Collection) (c : Collection)
    → In c cs
    → c.department_id ≡ some d
    → c.id ≡ id
    → In id (department_collections d cs)
unfolding department_collections
department_collections_complete d id [] c m h e = elim m [ ]
department_collections_complete d id (x ∷ cs) c (inl p) h e =
    kept_head (equals_some x.department_id d) x.id id (department_collections d cs)
      (equals_some_complete x.department_id d
        (sym (ap (λ (c : Collection). c.department_id) p) ∙ h))
      (sym (ap (λ (c : Collection). c.id) p) ∙ e)
department_collections_complete d id (x ∷ cs) c (inr m) h e =
    kept_tail (equals_some x.department_id d) x.id id (department_collections d cs)
      (department_collections_complete d id cs c m h e)

-- p grants the resource id of kind r to the principal i of kind t.
unfoldable pub IsGrant : ResourceType → PrincipalType → ℕ → ℕ → Permission → Type 0
IsGrant r t i id p =
    (p.resource_type ≡ r) × (p.principal_type ≡ t) × (p.principal_id ≡ i) × (p.resource_id ≡ id)

pub granted_sound :
    (r : ResourceType) (t : PrincipalType) (i id : ℕ) (ps : List Permission)
    → In id (granted r t i ps)
    → (p : Permission) × In p ps × IsGrant r t i id p
unfolding granted IsGrant
granted_sound r t i id [] m = elim m [ ]
granted_sound r t i id (p ∷ ps) m =
    elim (kept_sound (grants_to r t i p) p.resource_id id (granted r t i ps) m) [
      | inl h ↦
          let a = same_resource p.resource_type r in
          let b = same_principal p.principal_type t in
          let c = p.principal_id == i in
          let ab = and_left (a && b) c h.0 in
          let g : IsGrant r t i id p = (
            same_resource_sound p.resource_type r (and_left a b ab),
            same_principal_sound p.principal_type t (and_right a b ab),
            (==_iff p.principal_id i).0 (and_right (a && b) c h.0),
            h.1,
          ) in
          (p, inl refl, g)
      | inr l ↦ let (q, k, g) = granted_sound r t i id ps l in (q, inr k, g)
    ]

pub granted_complete :
    (r : ResourceType) (t : PrincipalType) (i id : ℕ) (ps : List Permission) (p : Permission)
    → In p ps
    → IsGrant r t i id p
    → In id (granted r t i ps)
unfolding granted IsGrant
granted_complete r t i id [] p m g = elim m [ ]
granted_complete r t i id (x ∷ ps) p (inl e) (h1, h2, h3, h4) =
    kept_head (grants_to r t i x) x.resource_id id (granted r t i ps)
      (subst (λ (x : Permission). grants_to r t i x ≡ true) e
        (and_intro (same_resource p.resource_type r && same_principal p.principal_type t)
          (p.principal_id == i)
          (and_intro (same_resource p.resource_type r) (same_principal p.principal_type t)
            (subst (λ a. same_resource a r ≡ true) (sym h1) (same_resource_refl r))
            (subst (λ a. same_principal a t ≡ true) (sym h2) (same_principal_refl t)))
          ((==_iff p.principal_id i).1 h3)))
      (sym (ap (λ (p : Permission). p.resource_id) e) ∙ h4)
granted_complete r t i id (x ∷ ps) p (inr m) g =
    kept_tail (grants_to r t i x) x.resource_id id (granted r t i ps)
      (granted_complete r t i id ps p m g)
