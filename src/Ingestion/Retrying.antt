-- ===== src/Ingestion/Retrying.antt =====
-- What becomes of a queued job, and that the worker empties its queue.
use agentic_rag_claude_code.Prelude.{
  ℕ, suc, ◌+◌, ◌≡◌, ◌≤◌, ◌<◌, refl, ap, ◌∙◌, Bool, true, false, Option, none, some, List, [], ◌∷◌,
  ◌++◌, Text, elem, take, ltb→lt, ltb_false→le, arith, if◌then◌else◌, ◌||◌, ◌⊎◌, inl, inr,
}
use agentic_rag_claude_code.Settings.{Settings}
use agentic_rag_claude_code.Ingestion.Jobs.{
  IngestStatus, Payload, DeadLetter, Worker, Calls, has_row, update_row, create_row, get_or_create,
  start_row, job_stage, job_stages, enqueue_index_sync, push_dlq, will_retry, staged, reported,
  raised_by, routed, cannot_report, settled, indexed_with, tracked_job, handle_job,
}

-- The queue and the dead letters of w' are those of w.
abbrev pub SameQueues : Worker → Worker → Type 0
SameQueues w w' = (w'.ingest_queue ≡ w.ingest_queue) × (w'.ingest_dlq ≡ w.ingest_dlq)

stages-SameQueues : (i : ℕ) (w : Worker) (ss : List IngestStatus) → SameQueues w (job_stages i w ss)
stages-SameQueues i w [] = (refl, refl)
stages-SameQueues i w (s ∷ ss) = stages-SameQueues i (job_stage i w s) ss

or_true : (b : Bool) → (b || true) ≡ true
or_true true = refl
or_true false = refl

module _ (s : Settings) (calls : Calls) where
  staged-SameQueues :
      (job : Option ℕ) (ss : List IngestStatus) (w : Worker)
      → SameQueues w (staged s calls job ss w)
  staged-SameQueues none ss w = (refl, refl)
  staged-SameQueues (some i) ss w = stages-SameQueues i w ss

  reported-SameQueues :
      (job : Option ℕ) (error : Option Text) (b : Bool) (w : Worker)
      → SameQueues w (reported s calls job error b w)
  reported-SameQueues none error b w = (refl, refl)
  reported-SameQueues (some i) error b w = (refl, refl)

  -- whether the row that tracks the n-th job could be found or made
  abbrev IsTracking : ℕ → Option ℕ → Type 0
  IsTracking n none = calls.tracking_fails n ≡ true
  IsTracking n (some i) = calls.tracking_fails n ≡ false

  -- The n-th job raises e: the indexing does, or the report of its success.
  pub data Raises (p : Payload) (n : ℕ) (e : Text) : Type 0 where
    indexing_raises : (calls.index_document n p.document_id).1 ≡ some e → Raises p n e
    report_raises :
        (calls.index_document n p.document_id).1 ≡ none
        → calls.tracking_fails n ≡ false
        → calls.finish_error n ≡ some e
        → Raises p n e

  -- What becomes of the job p, the n-th that is handled, from a worker w with the documents docs.
  pub data Fate (p : Payload) (n : ℕ) (docs : List ℕ) (w w' : Worker) : Type 0 where
    dropped : elem p.document_id docs ≡ false → SameQueues w w' → Fate p n docs w w'
    finished :
        (calls.index_document n p.document_id).1 ≡ none
        → (calls.tracking_fails n ≡ true) ⊎ (calls.finish_error n ≡ none)
        → SameQueues w w'
        → Fate p n docs w w'
    retried :
        (e : Text) (job : Option ℕ)
        → Raises p n e
        → calls.push_fails n ≡ false
        → p.attempt + 1 < s.max_indexing_retries
        → w'.ingest_queue
          ≡ w.ingest_queue
            ++ (record { document_id = p.document_id; attempt = p.attempt + 1; job_id = job }) ∷ []
        → w'.ingest_dlq ≡ w.ingest_dlq
        → Fate p n docs w w'
    dead_lettered :
        (e : Text) (job : Option ℕ)
        → Raises p n e
        → calls.push_fails n ≡ false
        → s.max_indexing_retries ≤ p.attempt + 1
        → w'.ingest_queue ≡ w.ingest_queue
        → w'.ingest_dlq
          ≡ w.ingest_dlq
            ++ (record { payload = record p { job_id = job }; error = take 2000 e }) ∷ []
        → Fate p n docs w w'
    lost :
        (e : Text)
        → Raises p n e
        → (calls.report_fails n || calls.push_fails n) ≡ true
        → SameQueues w w'
        → Fate p n docs w w'

  -- what an indexing that raised nothing leaves to raise
  raised_by-none :
      (p : Payload) (n : ℕ) (job : Option ℕ) (e : Text)
      → IsTracking n job
      → raised_by s calls n job (calls.index_document n p.document_id).1 ≡ some e
      → Raises p n e
  raised_by-none p n job e = which job (calls.index_document n p.document_id).1 refl
    where
      which :
          (job : Option ℕ) (o : Option Text)
          → (calls.index_document n p.document_id).1 ≡ o
          → IsTracking n job
          → raised_by s calls n job o ≡ some e
          → Raises p n e
      which job (some d) q t h = indexing_raises (q ∙ h)
      which none none q t h = absurd (cc h)
      which (some i) none q t h = report_raises q t h

  raised_by-ends :
      (p : Payload) (n : ℕ) (job : Option ℕ)
      → IsTracking n job
      → raised_by s calls n job (calls.index_document n p.document_id).1 ≡ none
      → ((calls.index_document n p.document_id).1 ≡ none)
        × ((calls.tracking_fails n ≡ true) ⊎ (calls.finish_error n ≡ none))
  raised_by-ends p n job = which job (calls.index_document n p.document_id).1 refl
    where
      which :
          (job : Option ℕ) (o : Option Text)
          → (calls.index_document n p.document_id).1 ≡ o
          → IsTracking n job
          → raised_by s calls n job o ≡ none
          → ((calls.index_document n p.document_id).1 ≡ none)
            × ((calls.tracking_fails n ≡ true) ⊎ (calls.finish_error n ≡ none))
      which job (some d) q t h = absurd (cc h)
      which none none q t h = (q, inl t)
      which (some i) none q t h = (q, inr h)

  routed-Fate :
      (p : Payload) (n : ℕ) (docs : List ℕ) (job : Option ℕ) (e : Text) (w v : Worker)
      → Raises p n e
      → SameQueues w v
      → Fate p n docs w (routed s calls n p job e v)
  routed-Fate p n docs job e w v raises q =
      pushed (calls.push_fails n) refl (will_retry s calls p) refl
    where
      again : Payload
      again = record { document_id = p.document_id; attempt = p.attempt + 1; job_id = job }

      dead : DeadLetter
      dead = record { payload = record p { job_id = job }; error = take 2000 e }

      pushed :
          (b : Bool)
          → calls.push_fails n ≡ b
          → (r : Bool) → will_retry s calls p ≡ r
          → Fate p n docs w (
              if b
              then v
              else if r
              then enqueue_index_sync v p.document_id (p.attempt + 1) job
              else push_dlq v (record p { job_id = job }) e)
      pushed true h r k =
          lost e raises (ap (λ b. calls.report_fails n || b) h ∙ or_true (calls.report_fails n)) q
      pushed false h true k =
          retried e job raises h (ltb→lt (p.attempt + 1) s.max_indexing_retries k)
            (ap (λ l. l ++ again ∷ []) q.0) q.1
      pushed false h false k =
          dead_lettered e job raises h (ltb_false→le (p.attempt + 1) s.max_indexing_retries k) q.0
            (ap (λ l. l ++ dead ∷ []) q.1)

  cannot_report-true :
      (n : ℕ) (job : Option ℕ) → cannot_report s calls n job ≡ true → calls.report_fails n ≡ true
  cannot_report-true n none h = absurd (cc h)
  cannot_report-true n (some i) h = h

  settled-Fate :
      (p : Payload) (n : ℕ) (docs : List ℕ) (job : Option ℕ) (w v : Worker)
      → IsTracking n job
      → SameQueues w v
      → Fate p n docs w (
          settled s calls n p job
            (raised_by s calls n job (calls.index_document n p.document_id).1)
            v)
  settled-Fate p n docs job w v t q =
      which (raised_by s calls n job (calls.index_document n p.document_id).1) refl
    where
      reporting :
          (e : Text)
          → Raises p n e
          → (b : Bool) → cannot_report s calls n job ≡ b
          → Fate p n docs w (
              if b
              then v
              else routed s calls n p job e
                  (reported s calls job (some e) (will_retry s calls p) v))
      reporting e raises true h =
          lost e raises (ap (λ b. b || calls.push_fails n) (cannot_report-true n job h)) q
      reporting e raises false h =
          let k = reported-SameQueues job (some e) (will_retry s calls p) v in
          routed-Fate p n docs job e w (reported s calls job (some e) (will_retry s calls p) v)
            raises (k.0 ∙ q.0, k.1 ∙ q.1)

      which :
          (o : Option Text)
          → raised_by s calls n job (calls.index_document n p.document_id).1 ≡ o
          → Fate p n docs w (settled s calls n p job o v)
      which none h =
          let k = reported-SameQueues job none false v in
          let ends = raised_by-ends p n job t h in finished ends.0 ends.1 (k.0 ∙ q.0, k.1 ∙ q.1)
      which (some e) h =
          reporting e (raised_by-none p n job e t h) (cannot_report s calls n job) refl

  indexed_with-Fate :
      (p : Payload) (n : ℕ) (docs : List ℕ) (job : Option ℕ) (w v : Worker)
      → IsTracking n job
      → SameQueues w v
      → Fate p n docs w (indexed_with s calls n p job (calls.index_document n p.document_id) v)
  indexed_with-Fate p n docs job w v t q =
      let r = calls.index_document n p.document_id in
      let k = staged-SameQueues job r.0 v in
      settled-Fate p n docs job w (staged s calls job r.0 v) t (k.0 ∙ q.0, k.1 ∙ q.1)

  -- A row is found or made, with the queues as they are, or the document is gone.
  Made : Worker → ℕ → Option (ℕ × Worker) → Type 0
  Made w d none = elem d w.documents ≡ false
  Made w d (some (i, v)) = SameQueues w v

  create_row-Made : (w : Worker) (d : ℕ) → Made w d (create_row w d)
  unfolding Made
  create_row-Made w d = ground arith

  get_or_create-Made : (w : Worker) (job : Option ℕ) (d : ℕ) → Made w d (get_or_create w job d)
  unfolding Made
  get_or_create-Made w none d = create_row-Made w d
  get_or_create-Made w (some i) d = found (has_row i w.jobs)
    where
      found : (b : Bool) → Made w d (if b then some (i, w) else create_row w d)
      found true = (refl, refl)
      found false = create_row-Made w d

  tracked_job-Fate :
      (p : Payload) (n : ℕ) (w v : Worker) (r : Option (ℕ × Worker))
      → calls.tracking_fails n ≡ false
      → SameQueues w v
      → Made v p.document_id r
      → Fate p n v.documents w (tracked_job s calls p n r v)
  unfolding Made
  tracked_job-Fate p n w v none t q m = dropped m q
  tracked_job-Fate p n w v (some (i, u)) t q m =
      indexed_with-Fate p n v.documents (some i) w
        (record u { jobs = update_row (start_row p.attempt) i u.jobs }) t (m.0 ∙ q.0, m.1 ∙ q.1)

  -- Handling a queued job ends in one of five ways: it is dropped, and then its document does not exist;
  -- neither its indexing nor the report of its success to a row that tracks it raised an error, and then
  -- the queues stay; one of them did, the pushes do not raise, and it is queued again with one attempt
  -- more, which is below the limit; or the same, the limit is reached, and it is the last dead letter; or
  -- one of them raised an error and so do the report of the error or the push to a queue, and then the
  -- job is lost, in neither queue.
  pub handle_job-Fate :
      (p : Payload) (w : Worker) → Fate p w.handled w.documents w (handle_job s calls p w)
  unfolding handle_job
  handle_job-Fate p w = either (calls.tracking_fails w.handled) refl
    where
      either :
          (b : Bool)
          → calls.tracking_fails w.handled ≡ b
          → Fate p w.handled w.documents w (
              if b
              then indexed_with s calls w.handled p none
                  (calls.index_document w.handled p.document_id)
                  (record w { handled = suc w.handled })
              else tracked_job s calls p w.handled
                  (get_or_create (record w { handled = suc w.handled }) p.job_id p.document_id)
                  (record w { handled = suc w.handled }))
      either true t =
          indexed_with-Fate p w.handled w.documents none w (record w { handled = suc w.handled }) t
            (refl, refl)
      either false t =
          tracked_job-Fate p w.handled w (record w { handled = suc w.handled })
            (get_or_create (record w { handled = suc w.handled }) p.job_id p.document_id) t
            (refl, refl)
            (get_or_create-Made (record w { handled = suc w.handled }) p.job_id p.document_id)
