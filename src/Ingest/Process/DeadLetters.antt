-- ===== src/Ingest/Process/DeadLetters.antt =====
-- Which jobs become dead letters.
use bigrag.Base.{
  ℕ, ◌≡◌, refl, Bool, true, false, not, ◌&&◌, ◌||◌, String, List, ◌∷◌, ltb, leb, take, some,
  if◌then◌else◌, ap, ◌∙◌, arith,
}
use bigrag.Base.Result.{Result, ok, err}
use bigrag.Base.Exec.{pure, ◌>>◌}
use bigrag.Base.Exec.Triple.{Post, Triple, Triple-modify, Triple-bind}
use bigrag.Ingest.Types.{
  IngestionJob, Failure, cancelled, queue_full, value_error, key_error, other_error, is_permanent,
  failed, pending, plain, full_note, retrying_note, State, Ingest,
}
use bigrag.Ingest.Queue.{handle, publish_progress, enqueue_retry}
use bigrag.Ingest.Finalize.{
  Services, complete, set_status, delete_document_vectors_after_failure, finalize_cancelled,
  finalize_retry, finalize_permanent, after_retry, retry_delay_ms, one_failed, one_stopped,
}
use bigrag.Ingest.Process.{end_failed, handle_failure, safe_error_of}
use bigrag.Ingest.Process.Spares.{
  Dead, Spares, IsSparing, Spares-bind, bump_stats-Spares, complete-Spares, update_doc-Spares,
  publish_progress-Spares, release_job-Spares, enqueue_retry-Spares,
}

-- A failure after which the job is not tried again and was not cancelled.
abbrev pub gives_up : IngestionJob → Failure → Bool
gives_up job (cancelled m) = false
gives_up job e = is_permanent e || leb job.max_attempts job.attempt

module _ (services : Services) where
  -- The letters with the job in front, cut to a thousand.
  abbrev pub buried : IngestionJob → List String → List String
  buried job letters = take 1000 (services.codec.serialize job ∷ letters)

module _ (services : Services) (sparing : IsSparing services) where
  -- A failure to delete the vectors is swallowed.
  vectors-Dead :
      (name doc : String) (letters : List String) (R : State → Type 0)
      → Triple
          (Dead letters)
          (delete_document_vectors_after_failure services name doc)
          (Dead letters)
          R
  unfolding delete_document_vectors_after_failure
  vectors-Dead name doc letters R = record {
    at = λ s h.
        let (r, s') = services.delete_by_document name doc s in
        swallowed r s' ((sparing.vectors name doc letters).at s h);
  }
    where
      swallowed :
          (r : Result Failure (Unit {0})) (s : State)
          → Post (Dead letters) (Dead letters) r s
          → Post (Dead letters) R (handle (λ e. pure tt) r s).0 (handle (λ e. pure tt) r s).1
      swallowed (ok t) s h = h
      swallowed (err e) s h = h

  vectors-Spares :
      (name doc : String) → Spares (delete_document_vectors_after_failure services name doc)
  vectors-Spares name doc letters = vectors-Dead name doc letters (Dead letters)

  announce-Spares :
      (doc step status name : String) (progress : ℕ)
      → Spares (publish_progress doc step status progress name >> complete doc)
  announce-Spares doc step status name progress =
      Spares-bind (publish_progress-Spares doc step status progress name) λ t. complete-Spares doc

  finalize_cancelled-Spares :
      (job : IngestionJob) (e : Failure) → Spares (finalize_cancelled services job e)
  unfolding finalize_cancelled
  finalize_cancelled-Spares job e =
      Spares-bind (vectors-Spares job.collection_name job.document_id) λ t0.
        Spares-bind (update_doc-Spares services sparing job.document_id (set_status _ _)) λ t1.
          Spares-bind (sparing.staged job.document_id job.file_path) λ t2.
            Spares-bind release_job-Spares
              λ t3. announce-Spares job.document_id "cancelled" "failed" job.collection_name 0

  after_retry-Dead :
      (job : IngestionJob) (text : String) (r : Result Failure (Unit {0})) (s : State)
      (letters : List String)
      → Post (Dead letters) (Dead letters) r s
      → let out = after_retry services job text r s in
        Post (Dead letters) (Dead letters) out.0 out.1
  after_retry-Dead job text (ok t) s letters h =
      (Spares-bind
          (publish_progress-Spares job.document_id "retrying" "processing" 0 job.collection_name)
          (λ t.
            update_doc-Spares services sparing job.document_id
              (set_status pending (some (retrying_note job.attempt text))))
          letters).at
        s h
  after_retry-Dead job text (err queue_full) s letters h =
      (Spares-bind (bump_stats-Spares one_failed)
          (λ t0.
            Spares-bind
              (update_doc-Spares services sparing job.document_id
                (set_status failed (some (full_note job.attempt text))))
              λ t1.
                Spares-bind (sparing.staged job.document_id job.file_path)
                  λ t2. announce-Spares job.document_id "failed" "failed" job.collection_name 0)
          letters).at
        s h
  after_retry-Dead job text (err (cancelled t)) s letters h = h
  after_retry-Dead job text (err (value_error t)) s letters h = h
  after_retry-Dead job text (err (key_error t)) s letters h = h
  after_retry-Dead job text (err (other_error t)) s letters h = h

  finalize_retry-Spares :
      (job : IngestionJob) (text : String) → Spares (finalize_retry services job text)
  unfolding finalize_retry
  finalize_retry-Spares job text =
      Spares-bind (vectors-Spares job.collection_name job.document_id) λ t0.
        Spares-bind release_job-Spares λ t1 letters. record {
          at = λ s h.
              let attempt =
                enqueue_retry services.reachable job (retry_delay_ms services job.attempt) in
              after_retry-Dead job text (attempt s).0 (attempt s).1 letters (
                (enqueue_retry-Spares services.reachable job (retry_delay_ms services job.attempt)
                    letters).at
                  s h);
        }

  finalize_permanent-Dead :
      (job : IngestionJob) (text : String) (letters : List String)
      → Triple
          (Dead letters)
          (finalize_permanent services job text)
          (Dead (buried services job letters))
          (Dead (buried services job letters))
  unfolding finalize_permanent
  finalize_permanent-Dead job text letters =
      Triple-bind _ _
        (vectors-Dead job.collection_name job.document_id letters
          (Dead (buried services job letters)))
        λ t0.
          Triple-bind {Q = Dead letters} _ _
            (Triple-modify (λ s. record s { stats = one_failed s.stats }) λ s h. h)
            λ t1.
              Triple-bind {Q = Dead (buried services job letters)} _ _
                (Triple-modify
                  (λ s. record s { dead = take 1000 (services.codec.serialize job ∷ s.dead) })
                  λ s h. ap (buried services job) h)
                λ t2.
                  Spares-bind
                    (update_doc-Spares services sparing job.document_id
                      (set_status failed (some (plain text))))
                    (λ t3. Spares-bind (sparing.staged job.document_id job.file_path) λ t4.
                      Spares-bind release_job-Spares λ t5.
                        announce-Spares job.document_id "failed" "failed" job.collection_name 0)
                    (buried services job letters)

  abbrev after_failure : IngestionJob → Failure → List String → List String
  after_failure job e letters = if gives_up job e then buried services job letters else letters

  both_posts :
      (letters : List String) (r : Result Failure (Unit {0})) (s : State)
      → Post (Dead letters) (Dead letters) r s
      → Dead letters s
  both_posts letters (ok t) s h = h
  both_posts letters (err e) s h = h

  abbrev retried_or_not : Bool → IngestionJob → String → Ingest Unit
  retried_or_not again job text =
      if again then finalize_retry services job text else finalize_permanent services job text

  retried_or_not-dead :
      (again : Bool) (job : IngestionJob) (text : String) (s : State)
      → (retried_or_not again job text s).1.dead
        ≡ (if again then s.dead else buried services job s.dead)
  retried_or_not-dead true job text s =
      let (r, t) = finalize_retry services job text s in
      both_posts s.dead r t ((finalize_retry-Spares job text s.dead).at s refl)
  retried_or_not-dead false job text s =
      let (r, t) = finalize_permanent services job text s in
      both_posts (buried services job s.dead) r t
        ((finalize_permanent-Dead job text s.dead).at s refl)

  last_attempt :
      {A : Type 0} (permanent : Bool) (attempt most : ℕ) (x y : A)
      → (if not permanent && ltb attempt most then x else y)
        ≡ (if permanent || leb most attempt then y else x)
  last_attempt true attempt most x y = refl
  last_attempt false attempt most x y = ground arith

  end_failed-dead :
      (job : IngestionJob) (e : Failure) (s : State)
      → (end_failed services job e s).1.dead ≡ after_failure job e s.dead
  end_failed-dead job (cancelled m) s =
      let (r, t) = finalize_cancelled services job (cancelled m) s in
      both_posts s.dead r t ((finalize_cancelled-Spares job (cancelled m) s.dead).at s refl)
  end_failed-dead job queue_full s =
      retried_or_not-dead _ job (safe_error_of services queue_full) s
      ∙ last_attempt (is_permanent queue_full) job.attempt job.max_attempts s.dead
          (buried services job s.dead)
  end_failed-dead job (value_error m) s =
      retried_or_not-dead _ job (safe_error_of services (value_error m)) s
      ∙ last_attempt (is_permanent (value_error m)) job.attempt job.max_attempts s.dead
          (buried services job s.dead)
  end_failed-dead job (key_error m) s =
      retried_or_not-dead _ job (safe_error_of services (key_error m)) s
      ∙ last_attempt (is_permanent (key_error m)) job.attempt job.max_attempts s.dead
          (buried services job s.dead)
  end_failed-dead job (other_error m) s =
      retried_or_not-dead _ job (safe_error_of services (other_error m)) s
      ∙ last_attempt (is_permanent (other_error m)) job.attempt job.max_attempts s.dead
          (buried services job s.dead)

  -- If clearing staged files, deleting vectors and updating documents write no dead letters, then after a failure of a run
  -- the job is put in front of the dead letters, cut to a thousand, exactly if it was not cancelled and
  -- the failure is permanent or the job has no attempt left; else they stay, even if the end raises.
  pub handle_failure-dead :
      (job : IngestionJob) (e : Failure) (s : State)
      → (handle_failure services job e s).1.dead
        ≡ (if gives_up job e then buried services job s.dead else s.dead)
  unfolding handle_failure
  handle_failure-dead job e s = end_failed-dead job e (record s { stats = one_stopped s.stats })
