-- ===== src/Ingestion/Draining.antt =====
-- The worker empties its queue: a job that fails is queued again, but not for ever.
use agentic_rag_claude_code.Prelude.{
  ℕ, zero, suc, ◌+◌, ◌-◌, ◌≡◌, ◌≤◌, ◌<◌, refl, ap, ◌∙◌, List, [], ◌∷◌, ◌++◌, arith,
}
use agentic_rag_claude_code.Settings.{Settings}
use agentic_rag_claude_code.Ingestion.Jobs.{
  Payload, Worker, Calls, handle_job, pop_and_handle, drain,
}
use agentic_rag_claude_code.Ingestion.Retrying.{
  Fate, dropped, finished, retried, dead_lettered, lost, handle_job-Fate,
}

below : {a b : ℕ} (r : ℕ) → a ≡ b → 1 ≤ r → a < r + b
below r e h = omega arith

fewer : (a b m n : ℕ) → a ≡ b + suc (m - (n + 1 + 1)) → n + 1 < m → a < suc (m - (n + 1)) + b
fewer a b m n e h = omega arith

less : {a b : ℕ} → a < b → a ≤ b - 1
less h = omega arith

one_less : {a b n : ℕ} → a ≤ b - 1 → b ≤ suc n → a ≤ n
one_less h k = omega arith

positive : (n m : ℕ) → suc n + m ≤ 0 → ⊥
positive n m h = omega arith

module _ (s : Settings) (calls : Calls) where
  -- the most often that a job is handled: once, and once more for each attempt that it has left
  abbrev pub rounds : Payload → ℕ
  rounds p = suc (s.max_indexing_retries - (p.attempt + 1))

  abbrev pub work : List Payload → ℕ
  work [] = 0
  work (p ∷ ps) = rounds p + work ps

  work-append : (ps : List Payload) (p : Payload) → work (ps ++ p ∷ []) ≡ work ps + rounds p
  work-append [] p = omega arith
  work-append (q ∷ ps) p = omega (arith, work-append ps p)

  Fate-work :
      (p : Payload) (n : ℕ) (docs : List ℕ) (w w' : Worker)
      → Fate s calls p n docs w w'
      → work w'.ingest_queue < rounds p + work w.ingest_queue
  Fate-work p n docs w w' (dropped h q) = below (rounds p) (ap work q.0) (omega arith)
  Fate-work p n docs w w' (finished h f q) = below (rounds p) (ap work q.0) (omega arith)
  Fate-work p n docs w w' (retried e job h f l q d) =
      fewer (work w'.ingest_queue) (work w.ingest_queue) s.max_indexing_retries p.attempt
        (ap work q
          ∙ work-append w.ingest_queue
              (record { document_id = p.document_id; attempt = p.attempt + 1; job_id = job }))
        l
  Fate-work p n docs w w' (dead_lettered e job h f l q d) =
      below (rounds p) (ap work q) (omega arith)
  Fate-work p n docs w w' (lost e h f q) = below (rounds p) (ap work q.0) (omega arith)

  pop-work :
      (q : List Payload) (w : Worker)
      → w.ingest_queue ≡ q
      → work (pop_and_handle s calls q w).ingest_queue ≤ work q - 1
  unfolding pop_and_handle
  pop-work [] w e = omega (arith, ap work e)
  pop-work (p ∷ ps) w e = less (
      Fate-work p w.handled w.documents (record w { ingest_queue = ps })
        (handle_job s calls p (record w { ingest_queue = ps }))
        (handle_job-Fate s calls p (record w { ingest_queue = ps })))

  no_work : (q : List Payload) → work q ≤ 0 → q ≡ []
  no_work [] h = refl
  no_work (p ∷ ps) h = elim (positive (s.max_indexing_retries - (p.attempt + 1)) (work ps) h) [ ]

  -- With no new uploads, the worker empties its queue, whatever the database and the indexing
  -- answer, after at most as many jobs as the queued jobs have attempts left, each job counting at
  -- least once.
  pub drain-empties :
      (fuel : ℕ) (w : Worker)
      → work w.ingest_queue ≤ fuel
      → (drain s calls fuel w).ingest_queue ≡ []
  unfolding drain
  drain-empties zero w h = no_work w.ingest_queue h
  drain-empties (suc fuel) w h =
      drain-empties fuel (pop_and_handle s calls w.ingest_queue w)
        (one_less (pop-work w.ingest_queue w refl) h)
