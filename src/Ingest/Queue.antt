-- ===== src/Ingest/Queue.antt =====
-- `IngestionQueue` of api/bigrag/services/queue.py, and the enqueueing of jobs/actors.py.
pub mod Cancellation
use bigrag.Base.{
  ℕ, suc, ◌+◌, ◌*◌, ◌/◌, String, Bool, true, false, not, Option, none, some, List, [], ◌∷◌, ◌++◌,
  ◌==◌, if◌then◌else◌,
}
use bigrag.Base.Result.{Result, ok, err}
use bigrag.Base.Counters.{set, delete}
use bigrag.Base.Exec.{pure, raise, gets, modify, ◌>>=◌, ◌>>◌, when}
use bigrag.Ingest.Types.{
  IngestionJob, Failure, queue_full, value_error, other_error, State, Ingest, Codec,
}
use bigrag.Ingest.State.{
  lease_ttl_seconds, admit_inflight, release_inflight, collection_epoch, document_epoch,
  cancel_collection_jobs, cancel_document_jobs, remove_one,
}

-- `except Exception` and `finally`.
abbrev pub handle : {A : Type 0} → (Failure → Ingest A) → Result Failure A → Ingest A
handle handler (ok a) s = (ok a, s)
handle handler (err e) s = handler e s

abbrev pub catch : {A : Type 0} → Ingest A → (Failure → Ingest A) → Ingest A
catch body handler s = let (r, s') = body s in handle handler r s'

-- The outcome of `body` is kept, whatever `last` writes.
abbrev pub finally : {A : Type 0} → Ingest A → (State → State) → Ingest A
finally body last s = let (r, s') = body s in (r, last s')

-- A whole number of seconds; no delay where the argument is 0.
abbrev pub delay_ms : ℕ → Option ℕ
delay_ms ms = if ms == 0 then none else some (ms / 1000 * 1000)

-- `enqueue_ingestion_job`, with the delay in milliseconds. The broker may be out of reach.
unfoldable pub enqueue_ingestion_job : Bool → IngestionJob → ℕ → Ingest Unit
enqueue_ingestion_job reachable job ms s =
    if reachable
    then (
      ok tt,
      record s { messages = s.messages ++ record { job = job; delay = delay_ms ms } ∷ [] },
    )
    else (err (other_error "broker unreachable"), s)

unfoldable pub admit_or_raise : Bool → Ingest Unit
admit_or_raise true = pure tt
admit_or_raise false = raise queue_full

-- `_admit_job`
unfoldable pub admit_job : Ingest Unit
admit_job = do
  max_depth ← gets (λ s. s.queue_max_depth)
  admitted ← admit_inflight max_depth
  admit_or_raise admitted

unfoldable pub release_job : Ingest Unit
release_job = release_inflight

-- A job that waits for the end of a maintenance gives its place back, once.
unfoldable pub defer_admitted_job : IngestionJob → Ingest IngestionJob
defer_admitted_job job =
    if not job.admission_released
    then (do release_job; pure (record job { admission_released = true }))
    else pure job

abbrev restored : IngestionJob → Result Failure (Unit {0}) → Ingest (Bool × IngestionJob)
restored job (ok t) s = (ok (true, record job { admission_released = false }), s)
restored job (err queue_full) s = (ok (false, job), s)
restored job (err e) s = (err e, s)

unfoldable pub restore_deferred_admission : IngestionJob → Ingest (Bool × IngestionJob)
restore_deferred_admission job =
    if not job.admission_released
    then pure (true, job)
    else (λ s. let (r, s') = admit_job s in restored job r s')

-- `job.collection_epoch = …; job.document_epoch = …`, on the first attempt alone
unfoldable pub with_epochs : IngestionJob → State → IngestionJob
with_epochs job s =
    if job.attempt == 0
    then record job {
      collection_epoch = collection_epoch s job.collection_name;
      document_epoch = document_epoch s job.document_id;
    }
    else job

abbrev ensure_writes_allowed : Option String → Ingest Unit
ensure_writes_allowed none = pure tt
ensure_writes_allowed (some reason) = raise (value_error reason)

-- If the broker does not take the message the place is given back.
unfoldable pub send_or_release : Bool → IngestionJob → ℕ → Ingest Unit
send_or_release reachable job ms =
    catch (enqueue_ingestion_job reachable job ms) (λ e. do release_job; raise e)

unfoldable pub enqueue : Bool → IngestionJob → Ingest Unit
enqueue reachable job = do
  lock ← gets (λ s. s.maintenance)
  ensure_writes_allowed lock
  stamped ← gets (with_epochs job)
  admit_job
  send_or_release reachable stamped 0
  connected ← gets (λ s. s.connected)
  when connected (modify (λ s. record s { stats = record s.stats { queued = suc s.stats.queued } }))

unfoldable pub enqueue_retry : Bool → IngestionJob → ℕ → Ingest Unit
enqueue_retry reachable job ms = do admit_job; send_or_release reachable job ms

unfoldable pub cancel_collection : String → Ingest Unit
cancel_collection name = do
  connected ← gets (λ s. s.connected)
  when connected (cancel_collection_jobs name)

unfoldable pub cancel_documents : List String → Ingest Unit
cancel_documents ids = do
  connected ← gets (λ s. s.connected)
  when connected (cancel_document_jobs ids)

-- `publish_progress`; `progress` in per cent
unfoldable pub publish_progress : String → String → String → ℕ → String → Ingest Unit
publish_progress doc_id step status progress collection_name = modify (λ s. record s {
  events =
      s.events
      ++ record {
        document_id = doc_id;
        step = step;
        status = status;
        progress = progress;
        collection_name = collection_name;
      }
        ∷ [];
})

-- `process_leased_job` round a `_process_job`: list and lease before, both taken back after.
unfoldable pub process_leased_job :
    Codec → (IngestionJob → Ingest Unit) → IngestionJob → Ingest Unit
process_leased_job codec process_job job s =
    if not s.connected
    then (err (other_error "ingestion queue is not connected"), s)
    else let raw = codec.serialize job in
      finally (process_job job)
        (λ t. record t {
          processing_list = remove_one raw t.processing_list;
          leases = delete job.job_id t.leases;
        })
        (record s {
          processing_list = raw ∷ s.processing_list;
          leases = set job.job_id (s.now + lease_ttl_seconds) s.leases;
        })

-- `_process_ingestion_job` of the actor, behind the worker's start
unfoldable pub process_ingestion_job :
    Codec → (IngestionJob → Ingest Unit) → Bool → IngestionJob → Ingest Unit
process_ingestion_job codec process_job reachable job s = received s.maintenance s
  where
    attempt_job : Bool × IngestionJob → Ingest Unit
    attempt_job (true, job') = process_leased_job codec process_job job'
    attempt_job (false, job') = enqueue_ingestion_job reachable job' 10000

    received : Option String → Ingest Unit
    received (some reason) = do
      deferred ← defer_admitted_job job
      enqueue_ingestion_job reachable deferred 10000
    received none = do admitted ← restore_deferred_admission job; attempt_job admitted
