-- ===== src/Ingest/Queue/Cancellation.antt =====
-- A job that was queued is current until its collection or its document is cancelled.
use bigrag.Base.{
  suc, ◌≡◌, ◌≢◌, ◌↔◌, inl, inr, refl, sym, ap, ◌∙◌, String, true, text_eq, eq_iff, if◌then◌else◌,
  arith, Bool-cases,
}
use bigrag.Base.Counters.{value-bump}
use bigrag.Base.Result.{ok}
use bigrag.Ingest.Types.{IngestionJob, State}
use bigrag.Ingest.State.{
  collection_epoch, document_epoch, ensure_job_current, cancel_collection_jobs,
}
use bigrag.Ingest.Queue.{with_epochs, cancel_collection}

-- Both epochs are those of the job.
abbrev pub IsCurrent : IngestionJob → State → Type 0
IsCurrent job s =
    (collection_epoch s job.collection_name ≡ job.collection_epoch)
    × (document_epoch s job.document_id ≡ job.document_epoch)

ensure_job_current-IsCurrent :
    (job : IngestionJob) (s : State) → ((ensure_job_current job s).0 ≡ ok tt) ↔ IsCurrent job s
unfolding ensure_job_current
ensure_job_current-IsCurrent job s =
    (λ h. (ground arith, ground arith), λ c. ground (arith, c.0, c.1))

collection_epoch-cancel :
    (s : State) (name k : String)
    → s.connected ≡ true
    → collection_epoch (cancel_collection name s).1 k
      ≡ (if text_eq name k then suc (collection_epoch s name) else collection_epoch s k)
unfolding cancel_collection cancel_collection_jobs collection_epoch
collection_epoch-cancel s name k c = rw c (value-bump name k s.collection_epochs)

document_epoch-cancel :
    (s : State) (name k : String)
    → document_epoch (cancel_collection name s).1 k ≡ document_epoch s k
unfolding cancel_collection cancel_collection_jobs document_epoch
document_epoch-cancel s name k = elim (Bool-cases s.connected) [
  | inl y ↦ rw y refl
  | inr n ↦ rw n refl
]

stamped :
    (job : IngestionJob) (s : State)
    → job.attempt ≡ 0
    → ((with_epochs job s).collection_epoch ≡ collection_epoch s job.collection_name)
      × ((with_epochs job s).document_epoch ≡ document_epoch s job.document_id)
      × ((with_epochs job s).collection_name ≡ job.collection_name)
      × ((with_epochs job s).document_id ≡ job.document_id)
unfolding with_epochs
stamped job s a = rw a (refl, refl, refl, refl)

-- With Redis there, a job in its first attempt, with the epochs of the state in which it was queued, is
-- current after the cancellation of a collection exactly if that is not its own.
pub cancel_collection-current :
    (job : IngestionJob) (s : State) (name : String)
    → s.connected ≡ true
    → job.attempt ≡ 0
    → ((ensure_job_current (with_epochs job s) (cancel_collection name s).1).0 ≡ ok tt)
      ↔ (name ≢ job.collection_name)
cancel_collection-current job s name c a = (
  λ h same.
      let (now_collection, now_document) = (ensure_job_current-IsCurrent job' after).0 h in
      ground (
        arith,
        now_collection,
        epoch,
        at_name,
        ap (collection_epoch s) same,
        eq_iff name job.collection_name,
        same,
        first,
      ),
  λ other. (ensure_job_current-IsCurrent job' after).1 (
    ground (arith, epoch, at_name, first, other, eq_iff name job.collection_name),
    ap (document_epoch after) id ∙ document_epoch-cancel s name job.document_id ∙ sym second,
  ),
)
  where
    job' : IngestionJob
    job' = with_epochs job s

    after : State
    after = (cancel_collection name s).1

    first : job'.collection_epoch ≡ collection_epoch s job.collection_name
    first = (stamped job s a).0

    second : job'.document_epoch ≡ document_epoch s job.document_id
    second = (stamped job s a).1

    id : job'.document_id ≡ job.document_id
    id = (stamped job s a).3

    at_name :
        collection_epoch after job'.collection_name ≡ collection_epoch after job.collection_name
    at_name = ap (collection_epoch after) (stamped job s a).2

    epoch : collection_epoch after job.collection_name ≡ (
        if text_eq name job.collection_name
        then suc (collection_epoch s name)
        else collection_epoch s job.collection_name)
    epoch = collection_epoch-cancel s name job.collection_name c
