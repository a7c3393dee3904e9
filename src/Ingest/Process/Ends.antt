-- ===== src/Ingest/Process/Ends.antt =====
-- The places of the admission counter through the ends of a run.
use bigrag.Base.{
  ℕ, suc, inl, inr, Bool, true, false, String, [], ◌∷◌, ◌++◌, some, take, if◌then◌else◌,
}
use bigrag.Base.Result.{Result, ok, err}
use bigrag.Base.Exec.{pure, raise, modify, ◌>>◌}
use bigrag.Base.Exec.Triple.{
  Post, Triple, Triple-raise, Triple-modify, Triple-when, Triple-bind, Triple-weaken,
}
use bigrag.Ingest.Types.{
  IngestionJob, Failure, cancelled, queue_full, value_error, key_error, other_error, failed, plain,
  full_note, State,
}
use bigrag.Ingest.Queue.{handle, release_job, publish_progress, enqueue_retry}
use bigrag.Ingest.Finalize.{
  Services, Parsed, complete, set_status, enqueue_multimodal_enrichment,
  delete_document_vectors_after_failure, finalize_success, finalize_cancelled, finalize_retry,
  finalize_permanent, after_retry, retry_full, retry_queued, retry_delay_ms, one_completed,
  one_stopped, one_failed,
}
use bigrag.Ingest.Process.Slots.{
  Slots, Released, Neutral, Quiet, bump_stats-Quiet, complete-Quiet, update_doc-Neutral,
  publish_progress-Quiet, release_job-frees, enqueue_retry-trades,
}

-- The services touch neither the counter nor the broker's queue; each may raise.
pub record IsQuiet (services : Services) : Type 1 where
  pub convert : (job : IngestionJob) → Neutral (services.convert_document job)
  pub elements :
      (doc : String) (parsed : Parsed) (enrich : Bool)
      → Neutral (services.replace_document_elements doc parsed enrich)
  pub embed : (job : IngestionJob) (parsed : Parsed) → Neutral (services.chunk_and_embed job parsed)
  pub cache : (name : String) → Neutral (services.invalidate_collection_query_cache name)
  pub vectors : (name doc : String) → Neutral (services.delete_by_document name doc)
  pub updates : (doc : String) → Neutral (services.execute_update doc)
  pub staged : (doc path : String) → Neutral (services.clear_document_staged_file doc path)

module _ (services : Services) (quiet : IsQuiet services) where
  vectors-Quiet :
      (name doc : String) → Quiet (delete_document_vectors_after_failure services name doc)
  unfolding delete_document_vectors_after_failure
  vectors-Quiet name doc i m R = record {
    at = λ s h.
        let (r, s') = services.delete_by_document name doc s in
        swallowed r s' ((quiet.vectors name doc i m).at s h);
  }
    where
      swallowed :
          (r : Result Failure (Unit {0})) (s : State)
          → Post (Slots i m) (Slots i m) r s
          → Post (Slots i m) R (handle (λ e. pure tt) r s).0 (handle (λ e. pure tt) r s).1
      swallowed (ok t) s h = h
      swallowed (err e) s h = h

  enrichment-Neutral : (doc : String) → Neutral (enqueue_multimodal_enrichment services doc)
  enrichment-Neutral doc i m = at_reachable services.reachable
    where
      at_reachable :
          (b : Bool)
          → Triple
              (Slots i m)
              (if b
                then modify (λ s. record s { enrichments = s.enrichments ++ doc ∷ [] })
                else raise (other_error "broker unreachable"))
              (Slots i m)
              (Slots i m)
      at_reachable true =
          Triple-modify _
            λ s h. record { connected = h.connected; inflight = h.inflight; messages = h.messages }
      at_reachable false = Triple-raise _

  -- What `finalize_retry` does last when it gives up, and what the others do after the release.
  announce-Quiet :
      (doc step status name : String) (progress : ℕ)
      → Quiet (publish_progress doc step status progress name >> complete doc)
  announce-Quiet doc step status name progress i m R =
      Triple-bind _ _ (publish_progress-Quiet doc step status progress name i m R)
        λ t. complete-Quiet doc i m R

  closing-frees :
      (doc step status name : String) (progress i m : ℕ) (R : State → Type 0)
      → Triple
          (Slots (suc i) m)
          (release_job >> (publish_progress doc step status progress name >> complete doc))
          (Slots i m)
          R
  closing-frees doc step status name progress i m R =
      Triple-bind _ _ (release_job-frees i m R)
        λ t. announce-Quiet doc step status name progress i m R

  pub finalize_success-frees :
      (job : IngestionJob) (n i m : ℕ)
      → Triple (Slots (suc i) m) (finalize_success services job n) (Slots i m) (Slots (suc i) m)
  unfolding finalize_success
  finalize_success-frees job n i m =
      Triple-bind _ _ (quiet.staged job.document_id job.file_path _ _) λ t0.
        Triple-bind _ _ (quiet.cache _ _ _) λ t1.
          Triple-bind _ _ (Triple-when _ _ (enrichment-Neutral _ _ _)) λ t2.
            Triple-bind _ _ (bump_stats-Quiet one_completed _ _ _) λ t3.
              Triple-bind _ _ (bump_stats-Quiet one_stopped _ _ _) λ t4.
                closing-frees job.document_id "complete" "complete" job.collection_name 100 _ _ _

  pub finalize_cancelled-frees :
      (job : IngestionJob) (e : Failure) (i m : ℕ)
      → Triple (Slots (suc i) m) (finalize_cancelled services job e) (Slots i m) (Slots (suc i) m)
  unfolding finalize_cancelled
  finalize_cancelled-frees job e i m = Triple-bind _ _ (vectors-Quiet _ _ _ _ _) λ t0.
      Triple-bind _ _
        (update_doc-Neutral services job.document_id (set_status _ _) (quiet.updates _) _ _)
        λ t1.
          Triple-bind _ _ (quiet.staged job.document_id job.file_path _ _)
            λ t2. closing-frees job.document_id "cancelled" "failed" job.collection_name 0 _ _ _

  pub finalize_permanent-frees :
      (job : IngestionJob) (safe_error : String) (i m : ℕ)
      → Triple
          (Slots (suc i) m)
          (finalize_permanent services job safe_error)
          (Slots i m)
          (Slots (suc i) m)
  unfolding finalize_permanent
  finalize_permanent-frees job safe_error i m = Triple-bind _ _ (vectors-Quiet _ _ _ _ _) λ t0.
      Triple-bind _ _ (bump_stats-Quiet one_failed _ _ _) λ t1.
        Triple-bind {Q = Slots (suc i) m} _ _
          (Triple-modify
            (λ s. record s { dead = take 1000 (services.codec.serialize job ∷ s.dead) })
            λ s h. record { connected = h.connected; inflight = h.inflight; messages = h.messages })
          λ t2.
            Triple-bind _ _
              (update_doc-Neutral services job.document_id
                (set_status failed (some (plain safe_error))) (quiet.updates _) _ _)
              λ t3.
                Triple-bind _ _ (quiet.staged job.document_id job.file_path _ _)
                  λ t4. closing-frees job.document_id "failed" "failed" job.collection_name 0 _ _ _

  retry_queued-Neutral :
      (job : IngestionJob) (safe_error : String) → Neutral (retry_queued services job safe_error)
  retry_queued-Neutral job safe_error i m =
      Triple-bind _ _
        (publish_progress-Quiet job.document_id "retrying" "processing" 0 job.collection_name _ _ _)
        λ t. update_doc-Neutral services _ _ (quiet.updates _) _ _

  retry_full-Neutral :
      (job : IngestionJob) (safe_error : String) → Neutral (retry_full services job safe_error)
  retry_full-Neutral job safe_error i m = Triple-bind _ _ (bump_stats-Quiet one_failed _ _ _) λ t0.
      Triple-bind _ _
        (update_doc-Neutral services job.document_id
          (set_status failed (some (full_note job.attempt safe_error))) (quiet.updates _) _ _)
        λ t1.
          Triple-bind _ _ (quiet.staged job.document_id job.file_path _ _)
            λ t2. announce-Quiet job.document_id "failed" "failed" job.collection_name 0 _ _ _

  after_retry-Released :
      (job : IngestionJob) (safe_error : String) (r : Result Failure (Unit {0})) (i m : ℕ)
      (s : State)
      → Post (Slots (suc i) (suc m)) (Slots i m) r s
      → let out = after_retry services job safe_error r s in
        Post (Released i m) (Released i m) out.0 out.1
  after_retry-Released job safe_error (ok t) i m s h =
      (Triple-weaken (retry_queued-Neutral job safe_error (suc i) (suc m)) (λ t k. inr k)
          (λ t k. inr k)).at
        s h
  after_retry-Released job safe_error (err queue_full) i m s h =
      (Triple-weaken (retry_full-Neutral job safe_error i m) (λ t k. inl k) (λ t k. inl k)).at s h
  after_retry-Released job safe_error (err (cancelled t)) i m s h = inl h
  after_retry-Released job safe_error (err (value_error t)) i m s h = inl h
  after_retry-Released job safe_error (err (key_error t)) i m s h = inl h
  after_retry-Released job safe_error (err (other_error t)) i m s h = inl h

  pub finalize_retry-Released :
      (job : IngestionJob) (safe_error : String) (i m : ℕ)
      → Triple
          (Slots (suc i) m)
          (finalize_retry services job safe_error)
          (Released i m)
          (Released i m)
  unfolding finalize_retry
  finalize_retry-Released job safe_error i m = Triple-bind _ _ (vectors-Quiet _ _ _ _ _) λ t0.
      Triple-bind _ _ (release_job-frees i m (Released i m)) λ t1. record {
        at = λ s h.
            let attempt =
              enqueue_retry services.reachable job (retry_delay_ms services job.attempt) in
            after_retry-Released job safe_error (attempt s).0 i m (attempt s).1 (
              (enqueue_retry-trades services.reachable job (retry_delay_ms services job.attempt) i
                  m).at
                s h);
      }
