-- ===== src/Ingestion/Requeueing.antt =====
-- `requeue_dlq` of app/ingestion/jobs.py.
use mathlib.Core.List.{append_assoc, append-nil}
use agentic_rag_claude_code.Prelude.{
  ℕ, zero, suc, ◌≡◌, refl, sym, ap, ◌∙◌, List, [], ◌∷◌, ◌++◌, map, take, drop, length,
}
use agentic_rag_claude_code.Ingestion.Jobs.{Payload, DeadLetter, Worker, reset, requeue_dlq}

-- The first `limit` dead letters are at the end of the queue, with no attempt counted.
unfoldable pub IsRequeued : ℕ → List Payload → List DeadLetter → ℕ × Worker → Type 0
IsRequeued limit queue dlq r =
    (r.0 ≡ length (take limit dlq))
    × (r.1.ingest_queue ≡ queue ++ map reset (take limit dlq))
    × (r.1.ingest_dlq ≡ drop limit dlq)

module _ (w : Worker) where
  with_queues : List Payload → List DeadLetter → Worker
  with_queues queue dlq = record w { ingest_queue = queue; ingest_dlq = dlq }

  requeued :
      (limit : ℕ) (queue : List Payload) (dlq : List DeadLetter)
      → IsRequeued limit queue dlq (requeue_dlq limit (with_queues queue dlq))
  unfolding requeue_dlq IsRequeued with_queues
  requeued zero queue dlq = (refl, sym (append-nil queue), refl)
  requeued (suc limit) queue [] = (refl, sym (append-nil queue), refl)
  requeued (suc limit) queue (d ∷ ds) =
      let (a, b, c) = requeued limit (queue ++ reset d ∷ []) ds in
      (ap (λ n. suc n) a, b ∙ append_assoc queue (reset d ∷ []) (map reset (take limit ds)), c)

-- Requeueing moves the first `limit` dead letters, in their order, to the end of the ingest queue
-- with their attempts reset, leaves the others dead letters, and returns how many it moved.
requeue_dlq-IsRequeued :
    (limit : ℕ) (w : Worker) → IsRequeued limit w.ingest_queue w.ingest_dlq (requeue_dlq limit w)
unfolding with_queues
requeue_dlq-IsRequeued limit w = requeued w limit w.ingest_queue w.ingest_dlq
