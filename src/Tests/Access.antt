-- ===== src/Tests/Access.antt =====
-- Access on concrete rows and counters, and the examples of its theorems.
use agentic_rag_claude_code.Prelude.{
  ◌≡◌, ◌≢◌, refl, ◌⊎◌, ◌↔◌, inl, inr, true, false, none, some, [], ◌∷◌, In, codes, arith,
}
use agentic_rag_claude_code.Settings.{defaults}
use agentic_rag_claude_code.Access.Rbac.{
  Role, PrincipalType, department, collection, document, read, User, indexed, Document, Tables,
  accessible_collection_ids, can_access_collection, can_access_document,
}
use agentic_rag_claude_code.Ingestion.FileType.{txt}
use agentic_rag_claude_code.Access.Readable.{Readable, accessible_collection_ids_iff}
use agentic_rag_claude_code.Access.Decisions.{MayReadDocument, can_access_document_iff}
use agentic_rag_claude_code.Access.Redis.{
  ℤ, pos, sucℤ, predℤ, Key, Key-cases, rpm, inflight, global_inflight, Redis,
}
use agentic_rag_claude_code.Access.Quota.{too_many_concurrent_requests, enter, rate_limit}
use agentic_rag_claude_code.Access.Counters.{SameBut}
use agentic_rag_claude_code.Access.Balance.{Outcome, enter-Outcome}
use agentic_rag_claude_code.Access.Slots.{rate_limit-restores}
use agentic_rag_claude_code.Access.Overlap.{
  IsBalanced, let_in, Steps, start, next, Steps-IsBalanced,
}

abbrev ada : User
ada = record {
  id = 7;
  role = Role.user;
  department_id = some 2;
  is_active = true;
  email = [];
  hashed_password = [];
}

abbrev tables : Tables
tables = record {
  collections =
      record { id = 10; name = codes "c"; department_id = some 2 }
      ∷ record { id = 11; name = codes "c"; department_id = some 3 }
      ∷ record { id = 12; name = codes "c"; department_id = none }
      ∷ [];
  permissions =
      record {
        id = 101;
        resource_type = collection;
        resource_id = 12;
        principal_type = department;
        principal_id = 2;
        access_level = read;
      }
      ∷ record {
        id = 102;
        resource_type = document;
        resource_id = 31;
        principal_type = PrincipalType.user;
        principal_id = 7;
        access_level = read;
      }
      ∷ [];
}

abbrev shared_document : Document
shared_document = record {
  id = 31;
  collection_id = 11;
  filename = codes "a.txt";
  file_type = txt;
  content_hash = 1;
  status = indexed;
  error = none;
  uploaded_by_id = none;
}

ada_ids : accessible_collection_ids tables ada ≡ 10 ∷ 12 ∷ []
unfolding accessible_collection_ids
ada_ids = refl

ada_reads_shared : can_access_document tables ada shared_document ≡ true
unfolding can_access_document
ada_reads_shared = refl

ada_misses_11 : can_access_collection tables ada 11 ≡ false
unfolding can_access_collection
ada_misses_11 = refl

accessible_collection_ids_iff_example :
    In 12 (accessible_collection_ids tables ada) ↔ Readable tables ada 12
accessible_collection_ids_iff_example = accessible_collection_ids_iff tables ada 12

can_access_document_iff_example :
    (can_access_document tables ada shared_document ≡ true)
    ↔ MayReadDocument tables ada shared_document
can_access_document_iff_example = can_access_document_iff tables ada shared_document

abbrev choose : {j k : Key} → (j ≡ k) ⊎ (j ≢ k) → ℤ → ℤ → ℤ
choose (inl e) a b = a
choose (inr d) a b = b

abbrev update : Key → ℤ → (Key → ℤ) → Key → ℤ
update k z s j = choose (Key-cases j k) z (s j)

choose_same : {j k : Key} (c : (j ≡ k) ⊎ (j ≢ k)) (a b : ℤ) → j ≡ k → choose c a b ≡ a
choose_same (inl e) a b h = refl
choose_same (inr d) a b h = elim (d h) [ ]

choose_other : {j k : Key} (c : (j ≡ k) ⊎ (j ≢ k)) (a b : ℤ) → j ≢ k → choose c a b ≡ b
choose_other (inl e) a b d = elim (d e) [ ]
choose_other (inr d) a b h = refl

abbrev counters : Redis
counters = record {
  Store = Key → ℤ;
  value = λ s. s;
  incr = λ k s. (sucℤ (s k), update k (sucℤ (s k)) s);
  decr = λ k s. (predℤ (s k), update k (predℤ (s k)) s);
  set = λ k z s. update k z s;
  expire = λ k t s. s;
  reply-incr = λ k s. refl;
  value-incr = λ k s. choose_same (Key-cases k k) (sucℤ (s k)) (s k) refl;
  other-incr = λ k j s d. choose_other (Key-cases j k) (sucℤ (s k)) (s j) d;
  reply-decr = λ k s. refl;
  value-decr = λ k s. choose_same (Key-cases k k) (predℤ (s k)) (s k) refl;
  other-decr = λ k j s d. choose_other (Key-cases j k) (predℤ (s k)) (s j) d;
  value-set = λ k z s. choose_same (Key-cases k k) z (s k) refl;
  other-set = λ k j z s d. choose_other (Key-cases j k) z (s j) d;
  value-expire = λ k j t s. refl;
}

abbrev no_counts : Key → ℤ
no_counts j = pos 0

let_in_first : (enter counters defaults 7 0 no_counts).0 ≡ none
unfolding enter Key-cases
let_in_first = refl

fourth_turned_away :
    (enter counters defaults 7 0 (update (inflight 7) (pos 3) no_counts)).0
    ≡ some too_many_concurrent_requests
unfolding enter Key-cases
fourth_turned_away = refl

given_back :
    (rate_limit counters defaults (λ s. s) 7 0 (update global_inflight (pos 39) no_counts)).1
      global_inflight
    ≡ pos 39
unfolding rate_limit Key-cases
given_back = refl

enter-Outcome_example :
    Outcome counters defaults 7 0 no_counts (enter counters defaults 7 0 no_counts)
enter-Outcome_example = enter-Outcome counters defaults 7 0 no_counts 0 refl

rate_limit-restores_example :
    SameBut counters (rpm 7 0) no_counts (rate_limit counters defaults (λ s. s) 7 0 no_counts).1
rate_limit-restores_example =
    rate_limit-restores counters defaults 7 0 no_counts 0 0 (λ s. s) refl refl (λ t j. refl)

abbrev after_first : Key → ℤ
after_first = (enter counters defaults 7 0 no_counts).1

one_request : Steps counters defaults no_counts [] after_first (7 ∷ [])
unfolding enter
one_request = next no_counts after_first [] (7 ∷ []) start (let_in 7 0 no_counts [] let_in_first)

no_counts-IsBalanced : IsBalanced counters defaults no_counts []
unfolding IsBalanced
no_counts-IsBalanced = (refl, λ u. refl, omega arith, λ u. omega arith)

Steps-IsBalanced_example : IsBalanced counters defaults after_first (7 ∷ [])
Steps-IsBalanced_example =
    Steps-IsBalanced counters defaults no_counts [] after_first (7 ∷ []) no_counts-IsBalanced
      one_request
