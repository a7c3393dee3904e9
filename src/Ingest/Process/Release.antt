-- ===== src/Ingest/Process/Release.antt =====
-- The place of a run of a job, which it gives back or hands to the message of its next attempt.
use bigrag.Base.{ℕ, suc, String, ◌≡◌, inl, inr, Bool, true, false, not, if◌then◌else◌}
use bigrag.Base.Result.{Result, ok, err}
use bigrag.Base.Exec.Triple.{
  Post, Triple, Triple-raise, Triple-when, Triple-bind, Triple-weaken, Triple-modify,
}
use bigrag.Ingest.Types.{
  IngestionJob, Failure, cancelled, queue_full, value_error, key_error, other_error, processing,
  State,
}
use bigrag.Ingest.Queue.{handle}
use bigrag.Ingest.Finalize.{
  Services, Parsed, ElementCounts, finalize_retry, finalize_permanent, one_started, one_stopped,
}
use bigrag.Ingest.Process.{
  mark_ready, finish_job, try_job, end_failed, handle_failure, run_attempt, process_job, attempted,
  with_status,
}
use bigrag.Ingest.Process.Slots.{
  Slots, Released, Held, Neutral, bump_stats-Quiet, update_doc-Neutral, publish_progress-Quiet,
  ensure_job_current-Neutral,
}
use bigrag.Ingest.Process.Ends.{
  IsQuiet, finalize_success-frees, finalize_cancelled-frees, finalize_permanent-frees,
  finalize_retry-Released,
}

module _ (services : Services) (quiet : IsQuiet services) where
  mark_ready-Neutral : (id : String) (a b c d : ℕ) → Neutral (mark_ready services id a b c d)
  unfolding mark_ready
  mark_ready-Neutral id a b c d i m = Triple-bind _ _ (quiet.updates id i m) λ t.
      Triple-modify _
        λ s h. record { connected = h.connected; inflight = h.inflight; messages = h.messages }

  finish_job-frees :
      (job : IngestionJob) (parsed : Parsed) (counts : ElementCounts) (embedded : ℕ × ℕ) (i m : ℕ)
      → Triple
          (Slots (suc i) m)
          (finish_job services job parsed counts embedded)
          (Slots i m)
          (Slots (suc i) m)
  unfolding finish_job
  finish_job-frees job parsed counts (inserted, expected) i m =
      Triple-bind _ _ (Triple-when _ _ (Triple-raise _)) λ t0.
        Triple-bind _ _ (ensure_job_current-Neutral _ _ _) λ t1.
          Triple-bind _ _ (mark_ready-Neutral _ _ _ _ _ _ _)
            λ t2. finalize_success-frees services quiet _ _ _ _

  try_job-frees :
      (job : IngestionJob) (i m : ℕ)
      → Triple (Slots (suc i) m) (try_job services job) (Slots i m) (Slots (suc i) m)
  unfolding try_job
  try_job-frees job i m = Triple-bind _ _ (ensure_job_current-Neutral job _ _) λ t0.
      Triple-bind _ _
        (update_doc-Neutral services job.document_id (with_status processing) (quiet.updates _) _ _)
        λ t1.
          Triple-bind _ _
            (publish_progress-Quiet job.document_id "processing" "processing" 5 job.collection_name
              _ _ _)
            λ t2. Triple-bind _ _ (quiet.convert _ _ _) λ parsed.
              Triple-bind _ _ (ensure_job_current-Neutral job _ _) λ t3.
                Triple-bind _ _ (quiet.elements _ _ _ _ _) λ counts.
                  Triple-bind _ _ (quiet.embed _ _ _ _)
                    λ embedded. finish_job-frees job parsed counts embedded _ _

  retried_or_dead-Released :
      (b : Bool) (job : IngestionJob) (text : String) (i m : ℕ)
      → Triple
          (Slots (suc i) m)
          (if b then finalize_retry services job text else finalize_permanent services job text)
          (Released i m)
          (Held i m)
  retried_or_dead-Released true job text i m =
      Triple-weaken (finalize_retry-Released services quiet job text i m) (λ t k. k) (λ t k. inl k)
  retried_or_dead-Released false job text i m =
      Triple-weaken (finalize_permanent-frees services quiet job text i m) (λ t k. inl k)
        (λ t k. inr k)

  end_failed-Released :
      (job : IngestionJob) (e : Failure) (i m : ℕ)
      → Triple (Slots (suc i) m) (end_failed services job e) (Released i m) (Held i m)
  end_failed-Released job (cancelled t) i m =
      Triple-weaken (finalize_cancelled-frees services quiet job (cancelled t) i m) (λ t k. inl k)
        (λ t k. inr k)
  end_failed-Released job queue_full i m = retried_or_dead-Released _ job _ i m
  end_failed-Released job (value_error t) i m = retried_or_dead-Released _ job _ i m
  end_failed-Released job (key_error t) i m = retried_or_dead-Released _ job _ i m
  end_failed-Released job (other_error t) i m = retried_or_dead-Released _ job _ i m

  handle_failure-Released :
      (job : IngestionJob) (e : Failure) (i m : ℕ)
      → Triple (Slots (suc i) m) (handle_failure services job e) (Released i m) (Held i m)
  unfolding handle_failure
  handle_failure-Released job e i m =
      Triple-bind _ _ (bump_stats-Quiet one_stopped _ _ _) λ t. end_failed-Released job e i m

  ended-Released :
      (job : IngestionJob) (r : Result Failure (Unit {0})) (s : State) (i m : ℕ)
      → Post (Slots i m) (Slots (suc i) m) r s
      → let out = handle (handle_failure services job) r s in
        Post (Released i m) (Held i m) out.0 out.1
  ended-Released job (ok t) s i m h = inl h
  ended-Released job (err e) s i m h = (handle_failure-Released job e i m).at s h

  run_attempt-Released :
      (job : IngestionJob) (i m : ℕ)
      → Triple (Slots (suc i) m) (run_attempt services job) (Released i m) (Held i m)
  unfolding run_attempt
  run_attempt-Released job i m = Triple-bind _ _ (bump_stats-Quiet one_started _ _ _) λ t0.
      Triple-bind _ _
        (publish_progress-Quiet job.document_id "queued" "processing" 0 job.collection_name _ _ _)
        λ t1. record {
          at = λ s h.
              ended-Released job (try_job services job s).0 (try_job services job s).1 i m
                ((try_job-frees job i m).at s h);
        }

  abbrev accepted : IngestionJob → Bool → Bool → State → Result Failure (Unit {0}) × State
  accepted job c u s =
      if not c
      then (err (other_error "ingestion queue is not connected"), s)
      else if not u
      then (err (value_error "badly formed hexadecimal UUID string"), s)
      else run_attempt services (attempted services job) s

  accepted-Released :
      (job : IngestionJob) (s : State) (i m : ℕ) (c u : Bool)
      → c ≡ true
      → u ≡ true
      → Slots (suc i) m s
      → Post (Released i m) (Held i m) (accepted job c u s).0 (accepted job c u s).1
  accepted-Released job s i m false u p q h = cc
  accepted-Released job s i m true false p q h = cc
  accepted-Released job s i m true true p q h =
      (run_attempt-Released (attempted services job) i m).at s h

  -- Let Redis be there, `suc i` places be taken and `m` messages be sent, and the document's id be a
  -- UUID. If the services, each of which may raise, leave the counter and the messages alone, then a
  -- run of a job that returns, whether it succeeded, was cancelled, is retried or failed for good,
  -- leaves `i` places and `m` messages, or `suc i` places and `suc m` messages. A run that raises
  -- leaves one of these, or `suc i` places and `m` messages.
  pub process_job-Released :
      (job : IngestionJob) (s : State) (i m : ℕ)
      → services.is_uuid job.document_id ≡ true
      → Slots (suc i) m s
      → Post (Released i m) (Held i m) (process_job services job s).0 (process_job services job s).1
  unfolding process_job
  process_job-Released job s i m u h =
      accepted-Released job s i m s.connected (services.is_uuid job.document_id) h.connected u h
