-- ===== src/Ingest/Finalize.antt =====
-- How a run of a job ends: api/bigrag/services/queue_finalize.py.
use bigrag.Base.{
  ℕ, suc, ◌+◌, ◌*◌, ◌^◌, String, Bool, ◌&&◌, Option, some, List, [], ◌∷◌, ◌++◌, take, ltb, text_eq,
  min, if◌then◌else◌,
}
use bigrag.Base.Result.{Result, ok, err}
use bigrag.Base.Exec.{pure, raise, modify, ◌>>◌, when}
use bigrag.Ingest.Types.{
  IngestionJob, should_enrich_multimodal, Failure, queue_full, other_error, message, DocumentStatus,
  pending, failed, Note, plain, retrying_note, full_note, Document, Stats, Ingest, Codec, increment,
  decrement,
}
use bigrag.Ingest.Queue.{release_job, enqueue_retry, publish_progress, catch}

pub record Parsed : Type 0 where
  pub text_length : ℕ
  pub element_count : ℕ

pub record ElementCounts : Type 0 where
  pub total : ℕ
  pub pending_enrichment : ℕ

-- What a run calls and this model does not open: conversion, the vector store, the staged files,
-- the query cache, the sanitizer, random numbers, whether the broker is in reach, and whether the
-- database runs and commits an UPDATE of a document.
pub record Services : Type 0 where
  pub codec : Codec
  pub is_uuid : String → Bool
  pub convert_document : IngestionJob → Ingest Parsed
  pub replace_document_elements : String → Parsed → Bool → Ingest ElementCounts
  pub chunk_and_embed : IngestionJob → Parsed → Ingest (ℕ × ℕ)
  pub clear_document_staged_file : String → String → Ingest Unit
  pub invalidate_collection_query_cache : String → Ingest Unit
  pub delete_by_document : String → String → Ingest Unit
  pub execute_update : String → Ingest Unit
  pub sanitize_message_text : String → String
  pub uniform_ms : ℕ → ℕ
  pub reachable : Bool

-- `or`
abbrev pub or_text : String → String → String
or_text text other = if text_eq text "" then other else text

abbrev pub bump_stats : (Stats → Stats) → Ingest Unit
bump_stats f = modify (λ s. record s { stats = f s.stats })

abbrev pub one_failed : Stats → Stats
one_failed t = record t { failed = suc t.failed }

abbrev pub one_completed : Stats → Stats
one_completed t = record t { completed = suc t.completed }

abbrev pub one_started : Stats → Stats
one_started t = record t { processing = increment t.processing }

abbrev pub one_stopped : Stats → Stats
one_stopped t = record t { processing = decrement t.processing }

-- UPDATE documents … WHERE id = …
unfoldable pub update_where :
    (Document → Bool) → (Document → Document) → List Document → List Document
update_where test f [] = []
update_where test f (d ∷ ds) =
    let rest = update_where test f ds in if test d then f d ∷ rest else d ∷ rest

abbrev pub set_status : DocumentStatus → Option Note → Document → Document
set_status status note d = record d { status = status; error_message = note }

abbrev pub complete : String → Ingest Unit
complete doc = modify (λ s. record s { completed = s.completed ++ doc ∷ [] })

module _ (services : Services) where
  -- The rows are as before if the UPDATE raises.
  unfoldable pub update_doc : String → (Document → Document) → Ingest Unit
  update_doc id f = do
    services.execute_update id
    modify (λ s. record s { documents = update_where (λ d. text_eq d.id id) f s.documents })

  -- `min(2**attempt, 30) + random.uniform(0, min(2**attempt, 10))`, in milliseconds
  unfoldable pub retry_delay_ms : ℕ → ℕ
  retry_delay_ms attempt =
      min (2 ^ attempt) 30 * 1000 + services.uniform_ms (min (2 ^ attempt) 10 * 1000)

  unfoldable pub delete_document_vectors_after_failure : String → String → Ingest Unit
  delete_document_vectors_after_failure name doc =
      catch (services.delete_by_document name doc) (λ e. pure tt)

  abbrev pub enqueue_multimodal_enrichment : String → Ingest Unit
  enqueue_multimodal_enrichment doc =
      if services.reachable
      then modify (λ s. record s { enrichments = s.enrichments ++ doc ∷ [] })
      else raise (other_error "broker unreachable")

  unfoldable pub finalize_success : IngestionJob → ℕ → Ingest Unit
  finalize_success job pending_enrichment_count = do
    services.clear_document_staged_file job.document_id job.file_path
    services.invalidate_collection_query_cache job.collection_name
    when (should_enrich_multimodal job && ltb 0 pending_enrichment_count)
        (enqueue_multimodal_enrichment job.document_id)
    bump_stats one_completed
    bump_stats one_stopped
    release_job
    publish_progress job.document_id "complete" "complete" 100 job.collection_name
    complete job.document_id

  unfoldable pub finalize_cancelled : IngestionJob → Failure → Ingest Unit
  finalize_cancelled job error = do
    delete_document_vectors_after_failure job.collection_name job.document_id
    let safe_message =
        or_text (services.sanitize_message_text (message error)) "ingestion cancelled"
    update_doc job.document_id (set_status failed (some (plain safe_message)))
    services.clear_document_staged_file job.document_id job.file_path
    release_job
    publish_progress job.document_id "cancelled" "failed" 0 job.collection_name
    complete job.document_id

  abbrev pub retry_full : IngestionJob → String → Ingest Unit
  retry_full job safe_error = do
    bump_stats one_failed
    update_doc job.document_id (set_status failed (some (full_note job.attempt safe_error)))
    services.clear_document_staged_file job.document_id job.file_path
    publish_progress job.document_id "failed" "failed" 0 job.collection_name
    complete job.document_id

  abbrev pub retry_queued : IngestionJob → String → Ingest Unit
  retry_queued job safe_error = do
    publish_progress job.document_id "retrying" "processing" 0 job.collection_name
    update_doc job.document_id (set_status pending (some (retrying_note job.attempt safe_error)))

  -- `except QueueFullError: …; return`, and what follows the block
  abbrev pub after_retry : IngestionJob → String → Result Failure (Unit {0}) → Ingest Unit
  after_retry job safe_error (ok t) = retry_queued job safe_error
  after_retry job safe_error (err queue_full) = retry_full job safe_error
  after_retry job safe_error (err e) = raise e

  unfoldable pub finalize_retry : IngestionJob → String → Ingest Unit
  finalize_retry job safe_error = do
    delete_document_vectors_after_failure job.collection_name job.document_id
    release_job
    λ s.
        let (r, s') = enqueue_retry services.reachable job (retry_delay_ms job.attempt) s in
        after_retry job safe_error r s'

  unfoldable pub finalize_permanent : IngestionJob → String → Ingest Unit
  finalize_permanent job safe_error = do
    delete_document_vectors_after_failure job.collection_name job.document_id
    bump_stats one_failed
    modify (λ s. record s { dead = take 1000 (services.codec.serialize job ∷ s.dead) })
    update_doc job.document_id (set_status failed (some (plain safe_error)))
    services.clear_document_staged_file job.document_id job.file_path
    release_job
    publish_progress job.document_id "failed" "failed" 0 job.collection_name
    complete job.document_id
