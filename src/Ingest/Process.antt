-- ===== src/Ingest/Process.antt =====
-- `process_job` of api/bigrag/services/queue_processing.py, and the recovery of queue_recovery.py.
pub mod Slots
pub mod Ends
pub mod Release
pub mod Spares
pub mod DeadLetters
use bigrag.Base.{
  ℕ, suc, ◌+◌, ◌/◌, String, Bool, true, false, not, ◌&&◌, ◌||◌, Option, none, some, List, [], ◌∷◌,
  ◌++◌, ltb, ◌==◌, text_eq, if◌then◌else◌, length, keep, any_of,
}
use bigrag.Base.Result.{Result, ok, err}
use bigrag.Base.Exec.{Exec, pure, raise, modify, ◌>>=◌, ◌>>◌, when}
use bigrag.Ingest.Types.{
  IngestionJob, should_enrich_multimodal, Failure, cancelled, value_error, other_error, message,
  is_permanent, DocumentStatus, pending, processing, ready, failed, Note, partial_note,
  recovered_note, Document, Stats, State, Ingest, Codec,
}
use bigrag.Ingest.State.{ensure_job_current, recover_stuck_jobs}
use bigrag.Ingest.Queue.{publish_progress, catch, enqueue_ingestion_job}
use bigrag.Ingest.Finalize.{
  Services, ElementCounts, Parsed, or_text, bump_stats, one_started, one_stopped, update_where,
  update_doc, finalize_success, finalize_cancelled, finalize_retry, finalize_permanent,
}

abbrev pub with_status : DocumentStatus → Document → Document
with_status status d = record d { status = status }

abbrev pub is_processing : DocumentStatus → Bool
is_processing processing = true
is_processing pending = false
is_processing ready = false
is_processing failed = false

-- `status.in_(("pending", "processing"))`
abbrev pub is_open : DocumentStatus → Bool
is_open pending = true
is_open processing = true
is_open ready = false
is_open failed = false

abbrev partial_message : ℕ → ℕ → Option Note
partial_message inserted expected =
    if ltb inserted expected then some (partial_note inserted expected) else none

module _ (services : Services) where
  -- The second UPDATE, of documents that are still processing.
  unfoldable pub mark_ready : String → ℕ → ℕ → ℕ → ℕ → Ingest Unit
  mark_ready id inserted expected tokens elements = do
    services.execute_update id
    modify (λ s. record s {
      documents =
          update_where (λ d. text_eq d.id id && is_processing d.status)
            (λ d. record d {
              status = ready;
              chunk_count = inserted;
              token_count = tokens;
              multimodal_element_count = elements;
              error_message = partial_message inserted expected;
            })
            s.documents;
    })

  -- What follows the embedding of the chunks.
  unfoldable pub finish_job : IngestionJob → Parsed → ElementCounts → ℕ × ℕ → Ingest Unit
  finish_job job parsed counts (inserted, expected) = do
    when (inserted == 0) (raise (other_error "All chunk batches failed embedding/insert"))
    ensure_job_current job
    mark_ready job.document_id inserted expected (parsed.text_length / 4) counts.total
    finalize_success services job counts.pending_enrichment

  -- The body of `try`.
  unfoldable pub try_job : IngestionJob → Ingest Unit
  try_job job = do
    ensure_job_current job
    update_doc services job.document_id (with_status processing)
    publish_progress job.document_id "processing" "processing" 5 job.collection_name
    parsed ← services.convert_document job
    ensure_job_current job
    counts ←
        services.replace_document_elements job.document_id parsed (should_enrich_multimodal job)
    embedded ← services.chunk_and_embed job parsed
    finish_job job parsed counts embedded

  abbrev pub safe_error_of : Failure → String
  safe_error_of e = or_text (services.sanitize_message_text (message e)) "ingestion failed"

  abbrev pub end_failed : IngestionJob → Failure → Ingest Unit
  end_failed job (cancelled m) = finalize_cancelled services job (cancelled m)
  end_failed job e =
      if not (is_permanent e) && ltb job.attempt job.max_attempts
      then finalize_retry services job (safe_error_of e)
      else finalize_permanent services job (safe_error_of e)

  -- `except Exception`
  unfoldable pub handle_failure : IngestionJob → Failure → Ingest Unit
  handle_failure job e = do bump_stats one_stopped; end_failed job e

  -- The job with its next attempt counted.
  abbrev pub attempted : IngestionJob → IngestionJob
  attempted job = record job { attempt = job.attempt + 1 }

  unfoldable pub run_attempt : IngestionJob → Ingest Unit
  run_attempt job = do
    bump_stats one_started
    publish_progress job.document_id "queued" "processing" 0 job.collection_name
    catch (try_job job) (handle_failure job)

  unfoldable pub process_job : IngestionJob → Ingest Unit
  process_job job s =
      if not s.connected
      then (err (other_error "ingestion queue is not connected"), s)
      else if not (services.is_uuid job.document_id)
      then (err (value_error "badly formed hexadecimal UUID string"), s)
      else run_attempt (attempted job) s

-- The rows of the UPDATE in `mark_recovered_jobs_pending`.
abbrev pub names_job : List IngestionJob → Document → Bool
names_job jobs d = any_of (λ j. text_eq j.document_id d.id) jobs && is_open d.status

unfoldable pub mark_recovered_jobs_pending : List IngestionJob → Ingest (List IngestionJob)
unfolding update_where
mark_recovered_jobs_pending jobs s =
    let rows = keep (names_job jobs) s.documents in
    (
      ok (keep (λ j. any_of (λ d. text_eq d.id j.document_id) rows) jobs),
      record s {
        documents =
            update_where (names_job jobs)
              (λ d. record d { status = pending; error_message = some recovered_note }) s.documents;
      },
    )

unfoldable pub enqueue_all : Bool → List IngestionJob → Ingest Unit
enqueue_all reachable [] = pure tt
enqueue_all reachable (j ∷ js) = do enqueue_ingestion_job reachable j 0; enqueue_all reachable js

abbrev requeue : Bool → List IngestionJob → Ingest ℕ
requeue reachable [] = pure 0
requeue reachable (j ∷ js) = do
  recovered ← mark_recovered_jobs_pending (j ∷ js)
  enqueue_all reachable recovered
  modify (λ s. record s { stats = record s.stats { queued = s.stats.queued + length recovered } })
  pure (length recovered)

-- `queue_recovery.recover_stuck_jobs`
unfoldable pub requeue_stuck_jobs : Codec → Bool → Ingest ℕ
requeue_stuck_jobs codec reachable = do jobs ← recover_stuck_jobs codec; requeue reachable jobs
