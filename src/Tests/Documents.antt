-- ===== src/Tests/Documents.antt =====
-- Uploads and deletions on concrete rows, and the examples of their theorems.
use agentic_rag_claude_code.Prelude.{
  ℕ, ◌≡◌, ◌≢◌, refl, Bool, true, false, none, some, [], ◌∷◌, codes, ok, raise, ==_refl, ==_iff,
  ◌==◌, arith, if◌then◌else◌,
}
use agentic_rag_claude_code.Characters.{ascii, strip}
use agentic_rag_claude_code.Settings.{defaults}
use agentic_rag_claude_code.Access.Rbac.{Role, User, Document, pending, can_access_collection}
use agentic_rag_claude_code.Ingestion.FileType.{txt, detect}
use agentic_rag_claude_code.Ingestion.Jobs.{queued}
use agentic_rag_claude_code.Documents.Filenames.{safe_filename}
use agentic_rag_claude_code.Documents.Naming.{IsSafe, safe_filename-IsSafe}
use agentic_rag_claude_code.Documents.State.{VectorIndex, upload, State, Faults}
use agentic_rag_claude_code.Documents.Service.{
  document_not_found, empty_file, Library, create_document, reindex_document, delete_document,
}
use agentic_rag_claude_code.Documents.Refusals.{IsHidden}
use agentic_rag_claude_code.Documents.Endpoints.{
  upload_document, list_documents, get_document, ingest_status,
}
use agentic_rag_claude_code.Documents.Alike.{IsUnfound, answered_alike}
use agentic_rag_claude_code.Documents.Deduplication.{
  IsDistinct, start, created, after, Steps-IsDistinct,
}
use agentic_rag_claude_code.Tests.Cache.{vectors, tag_sets, digest, nothing}

abbrev emptied : ℕ → (ℕ → Bool) → ℕ → Bool
emptied d s e = if e == d then false else s e

emptied_self : (d : ℕ) (s : ℕ → Bool) → emptied d s d ≡ false
emptied_self d s = rw (==_refl d)

emptied_other : (d e : ℕ) (s : ℕ → Bool) → e ≢ d → emptied d s e ≡ s e
emptied_other d e s n = ground (arith, ==_iff e d)

abbrev points_of : VectorIndex
points_of = record {
  Store = ℕ → Bool;
  has_points = λ d s. s d;
  delete_by_document = λ d s. emptied d s;
  has_points-delete = λ d s. emptied_self d s;
  has_points-other = λ d e s n. emptied_other d e s n;
}

abbrev library : Library
library = record { hash = λ bytes. digest bytes; extension = λ name. codes ".txt" }

abbrev reader : User
reader = record {
  id = 1;
  role = Role.user;
  department_id = some 3;
  is_active = true;
  email = codes "a";
  hashed_password = [];
}

abbrev stranger : User
stranger = record reader { id = 2; department_id = none }

abbrev no_faults : Faults
no_faults = record {
  save = false;
  qdrant = false;
  cache = false;
  commit = false;
  enqueue = false;
  stuck = λ f. false;
}

abbrev nothing_yet : State vectors tag_sets points_of
nothing_yet = record {
  tables = record {
    collections = record { id = 20; name = codes "c"; department_id = some 3 } ∷ [];
    permissions = [];
  };
  documents = [];
  chunks = [];
  jobs = [];
  audit = [];
  files = [];
  ingest_queue = [];
  vectors = λ d. false;
  pages = λ d. false;
  images = [];
  cache = nothing;
}

abbrev notes : Document
notes = record {
  id = 7;
  collection_id = 20;
  filename = codes "notes.txt";
  file_type = txt;
  content_hash = digest (codes "hello");
  status = pending;
  error = none;
  uploaded_by_id = some 1;
}

abbrev uploaded : State vectors tag_sets points_of
uploaded = record nothing_yet {
  documents = notes ∷ [];
  jobs = record { id = 8; document_id = 7; status = queued; attempt = 0; error = none } ∷ [];
  audit = record { action = upload; user_id = 1; resource_id = 7 } ∷ [];
  files = record { document_id = 7; filename = codes "notes.txt"; bytes = codes "hello" } ∷ [];
  ingest_queue = record { document_id = 7; attempt = 0; job_id = some 8 } ∷ [];
}

-- The path is taken off the name of the file.
first_upload :
    create_document vectors tag_sets points_of digest ascii defaults library no_faults 7 8 reader 20
      (codes "../a\\notes.txt")
      (codes "hello")
      nothing_yet
    ≡ (ok (notes, false), uploaded)
unfolding create_document safe_filename strip detect can_access_collection
first_upload = refl

abbrev after_two : State vectors tag_sets points_of
after_two = after vectors tag_sets points_of digest ascii defaults library (
    create_document vectors tag_sets points_of digest ascii defaults library no_faults 9 10 reader
      20 (codes "b.txt") (codes "other") uploaded)

Steps-IsDistinct_example : IsDistinct after_two.documents
Steps-IsDistinct_example =
    Steps-IsDistinct vectors tag_sets points_of digest ascii defaults library uploaded after_two
      (tt, tt) (created no_faults 9 10 reader 20 (codes "b.txt") (codes "other") uploaded start)

answered_alike_example :
    (IsHidden vectors tag_sets points_of digest ascii defaults library stranger 7 uploaded
      → IsUnfound vectors tag_sets points_of digest ascii defaults library no_faults 11 stranger 7
          uploaded)
    × ((reindex_document vectors tag_sets points_of digest ascii defaults library no_faults 11
            stranger 7 uploaded).0
          ≡ raise document_not_found
        → IsHidden vectors tag_sets points_of digest ascii defaults library stranger 7 uploaded)
    × ((delete_document vectors tag_sets points_of digest ascii defaults library no_faults stranger
            7 uploaded).0
          ≡ raise document_not_found
        → IsHidden vectors tag_sets points_of digest ascii defaults library stranger 7 uploaded)
    × (get_document vectors tag_sets points_of digest ascii defaults library stranger 7 uploaded
          ≡ raise document_not_found
        → IsHidden vectors tag_sets points_of digest ascii defaults library stranger 7 uploaded)
    × (ingest_status vectors tag_sets points_of digest ascii defaults library stranger 7 uploaded
          ≡ raise document_not_found
        → IsHidden vectors tag_sets points_of digest ascii defaults library stranger 7 uploaded)
answered_alike_example =
    answered_alike vectors tag_sets points_of digest ascii defaults library no_faults 11 stranger 7
      uploaded

listed :
    list_documents vectors tag_sets points_of digest ascii defaults library none reader uploaded
    ≡ ok (notes ∷ [])
unfolding list_documents
listed = refl

empty_upload :
    (upload_document vectors tag_sets points_of digest ascii defaults library no_faults 9 10 reader
      20 none [] uploaded).0
    ≡ raise empty_file
unfolding upload_document
empty_upload = refl

stranger_refused :
    (delete_document vectors tag_sets points_of digest ascii defaults library no_faults stranger 7
      uploaded).0
    ≡ raise document_not_found
unfolding delete_document can_access_collection
stranger_refused = refl

-- A name that is only a path to a parent directory.
no_escape : safe_filename ascii (codes "..\\..\\etc/.. ") ≡ codes "upload.bin"
unfolding safe_filename strip
no_escape = refl

default_stays : strip ascii (codes "upload.bin") ≡ codes "upload.bin"
unfolding strip
default_stays = refl

safe_filename-IsSafe_example :
    IsSafe (safe_filename ascii (codes "../a\\notes.txt"))
    × (safe_filename ascii (safe_filename ascii (codes "../a\\notes.txt"))
        ≡ safe_filename ascii (codes "../a\\notes.txt"))
safe_filename-IsSafe_example = safe_filename-IsSafe ascii (codes "../a\\notes.txt") default_stays
