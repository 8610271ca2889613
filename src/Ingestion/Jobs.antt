-- ===== src/Ingestion/Jobs.antt =====
-- The ingestion jobs: `_handle_job` of worker/main.py with app/ingestion/jobs.py and app/queue.py. What
-- the database and the indexing do is the parameter `calls`, a function of how many jobs were handled
-- before. Times and the heartbeat are left out.
use agentic_rag_claude_code.Prelude.{
  ℕ, zero, suc, ◌+◌, Bool, true, false, Option, none, some, List, [], ◌∷◌, ◌++◌, Text, elem, take,
  ltb, ◌==◌, if◌then◌else◌,
}
use agentic_rag_claude_code.Settings.{Settings}

pub data IngestStatus : Type 0 where
  queued parsing captioning indexing indexed failed : IngestStatus

pub record Payload : Type 0 where
  pub document_id : ℕ
  pub attempt : ℕ
  pub job_id : Option ℕ

pub record DeadLetter : Type 0 where
  pub payload : Payload
  pub error : Text

pub record IngestJob : Type 0 where
  pub id : ℕ
  pub document_id : ℕ
  pub status : IngestStatus
  pub attempt : ℕ
  pub error : Option Text

-- The two Redis lists, the rows, the documents that exist, and the number of jobs handled.
pub record Worker : Type 0 where
  pub ingest_queue : List Payload
  pub ingest_dlq : List DeadLetter
  pub jobs : List IngestJob
  pub documents : List ℕ
  pub next_id : ℕ
  pub handled : ℕ

pub record Calls : Type 0 where
  -- whether job_started raises another error than DocumentGone
  pub tracking_fails : ℕ → Bool
  -- the stages that index_document reports, and its error if it raises one
  pub index_document : ℕ → ℕ → List IngestStatus × Option Text
  -- the error of job_finished behind a success, if it raises one
  pub finish_error : ℕ → Option Text
  -- whether job_finished raises in the handler of an exception, and whether the push to a queue does
  pub report_fails : ℕ → Bool
  pub push_fails : ℕ → Bool

abbrev pub has_row : ℕ → List IngestJob → Bool
has_row i [] = false
has_row i (j ∷ js) = if j.id == i then true else has_row i js

abbrev pub update_row : (IngestJob → IngestJob) → ℕ → List IngestJob → List IngestJob
update_row f i [] = []
update_row f i (j ∷ js) = if j.id == i then f j ∷ js else j ∷ update_row f i js

abbrev pub new_row : ℕ → ℕ → IngestJob
new_row i d = record { id = i; document_id = d; status = queued; attempt = 0; error = none }

-- DocumentGone is `none`
abbrev pub create_row : Worker → ℕ → Option (ℕ × Worker)
create_row w d =
    if elem d w.documents
    then some
        (w.next_id, record w { jobs = w.jobs ++ new_row w.next_id d ∷ []; next_id = suc w.next_id })
    else none

abbrev pub get_or_create : Worker → Option ℕ → ℕ → Option (ℕ × Worker)
get_or_create w none d = create_row w d
get_or_create w (some i) d = if has_row i w.jobs then some (i, w) else create_row w d

abbrev pub start_row : ℕ → IngestJob → IngestJob
start_row n j = record j { status = parsing; attempt = n; error = none }

abbrev pub job_stage : ℕ → Worker → IngestStatus → Worker
job_stage i w s = record w { jobs = update_row (λ j. record j { status = s }) i w.jobs }

abbrev pub job_stages : ℕ → Worker → List IngestStatus → Worker
job_stages i w [] = w
job_stages i w (s ∷ ss) = job_stages i (job_stage i w s) ss

abbrev pub finish_row : Option Text → Bool → IngestJob → IngestJob
finish_row none requeued j = record j { status = indexed }
finish_row (some e) true j = record j { status = queued; error = some (take 2000 e) }
finish_row (some e) false j = record j { status = failed; error = some (take 2000 e) }

abbrev pub job_finished : ℕ → Option Text → Bool → Worker → Worker
job_finished i error requeued w = record w {
  jobs = update_row (finish_row error requeued) i w.jobs;
}

abbrev pub enqueue_index_sync : Worker → ℕ → ℕ → Option ℕ → Worker
enqueue_index_sync w d attempt job = record w {
  ingest_queue =
      w.ingest_queue ++ (record { document_id = d; attempt = attempt; job_id = job }) ∷ [];
}

abbrev pub push_dlq : Worker → Payload → Text → Worker
push_dlq w p error = record w {
  ingest_dlq = w.ingest_dlq ++ (record { payload = p; error = take 2000 error }) ∷ [];
}

module _ (s : Settings) (calls : Calls) where
  abbrev pub will_retry : Payload → Bool
  will_retry p = ltb (p.attempt + 1) s.max_indexing_retries

  -- the progress rows: `job` is the row that tracks the indexing
  abbrev pub staged : Option ℕ → List IngestStatus → Worker → Worker
  staged none stages w = w
  staged (some i) stages w = job_stages i w stages

  abbrev pub reported : Option ℕ → Option Text → Bool → Worker → Worker
  reported none error retry w = w
  reported (some i) error retry w = job_finished i error retry w

  -- what the block that indexes raises: the error of the indexing, or of the report of its success
  abbrev pub raised_by : ℕ → Option ℕ → Option Text → Option Text
  raised_by n job (some e) = some e
  raised_by n none none = none
  raised_by n (some i) none = calls.finish_error n

  -- the push to one of the queues; where it raises, the job is in none of them
  abbrev pub routed : ℕ → Payload → Option ℕ → Text → Worker → Worker
  routed n p job e w =
      let again = enqueue_index_sync w p.document_id (p.attempt + 1) job in
      let dead = push_dlq w (record p { job_id = job }) e in
      if calls.push_fails n then w else if will_retry p then again else dead

  abbrev pub cannot_report : ℕ → Option ℕ → Bool
  cannot_report n none = false
  cannot_report n (some i) = calls.report_fails n

  -- behind the block; an exception of the handler itself is only logged by the loop
  abbrev pub settled : ℕ → Payload → Option ℕ → Option Text → Worker → Worker
  settled n p job none w = reported job none false w
  settled n p job (some e) w =
      if cannot_report n job then w else routed n p job e (reported job (some e) (will_retry p) w)

  abbrev pub indexed_with :
      ℕ → Payload → Option ℕ → List IngestStatus × Option Text → Worker → Worker
  indexed_with n p job (stages, error) w =
      settled n p job (raised_by n job error) (staged job stages w)

  abbrev pub tracked_job : Payload → ℕ → Option (ℕ × Worker) → Worker → Worker
  tracked_job p n none w = w
  tracked_job p n (some (i, v)) w =
      indexed_with n p (some i) (calls.index_document n p.document_id)
        (record v { jobs = update_row (start_row p.attempt) i v.jobs })

  unfoldable pub handle_job : Payload → Worker → Worker
  handle_job p w =
      let n = w.handled in
      let w = record w { handled = suc n } in
      if calls.tracking_fails n
      then indexed_with n p none (calls.index_document n p.document_id) w
      else tracked_job p n (get_or_create w p.job_id p.document_id) w

  -- one blpop of the ingest queue
  unfoldable pub pop_and_handle : List Payload → Worker → Worker
  unfolding handle_job
  pop_and_handle [] w = w
  pop_and_handle (p ∷ ps) w = handle_job p (record w { ingest_queue = ps })

  unfoldable pub drain : ℕ → Worker → Worker
  unfolding pop_and_handle
  drain zero w = w
  drain (suc fuel) w = drain fuel (pop_and_handle w.ingest_queue w)

-- {"document_id": ..., "attempt": 0, "job_id": ...}
abbrev pub reset : DeadLetter → Payload
reset d = record d.payload { attempt = 0 }

unfoldable pub requeue_dlq : ℕ → Worker → ℕ × Worker
requeue_dlq zero w = (0, w)
requeue_dlq (suc limit) w = elim w.ingest_dlq [
  | [] ↦ (0, w)
  | d ∷ ds ↦
      let (n, v) =
        requeue_dlq limit
          (record w { ingest_queue = w.ingest_queue ++ reset d ∷ []; ingest_dlq = ds }) in
      (suc n, v)
]
