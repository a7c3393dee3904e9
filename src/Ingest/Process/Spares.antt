-- ===== src/Ingest/Process/Spares.antt =====
-- Actions that write no dead letters.
use bigrag.Base.{ℕ, ◌≡◌, Bool, true, false, not, String, List, ltb, ◌+◌, ◌-◌, ◌==◌, if◌then◌else◌}
use bigrag.Base.Result.{Result, ok}
use bigrag.Base.Exec.{raise, ◌>>=◌}
use bigrag.Base.Exec.Triple.{Post, Triple, Triple-raise, Triple-modify, Triple-bind}
use bigrag.Ingest.Types.{IngestionJob, Failure, Document, Stats, State, Ingest}
use bigrag.Ingest.State.{admit_inflight, release_inflight}
use bigrag.Ingest.Queue.{
  release_job, admit_job, admit_or_raise, publish_progress, enqueue_ingestion_job, enqueue_retry,
  send_or_release,
}
use bigrag.Ingest.Finalize.{Services, bump_stats, update_doc, complete}

-- The dead letters are these.
abbrev pub Dead : List String → State → Type 0
Dead letters s = s.dead ≡ letters

abbrev pub Spares : {A : Type 0} → Ingest A → Type 0
Spares act = (letters : List String) → Triple (Dead letters) act (Dead letters) (Dead letters)

-- The services that an end of a run calls do not write dead letters.
pub record IsSparing (services : Services) : Type 0 where
  pub vectors : (name doc : String) → Spares (services.delete_by_document name doc)
  pub updates : (doc : String) → Spares (services.execute_update doc)
  pub staged : (doc path : String) → Spares (services.clear_document_staged_file doc path)

pub Spares-bind :
    {A B : Type 0} {m : Ingest A} {f : A → Ingest B}
    → Spares m
    → ((a : A) → Spares (f a))
    → Spares (m >>= f)
Spares-bind k l letters = Triple-bind _ _ (k letters) (λ a. l a letters)

pub bump_stats-Spares : (f : Stats → Stats) → Spares (bump_stats f)
bump_stats-Spares f letters = Triple-modify _ λ s h. h

pub complete-Spares : (doc : String) → Spares (complete doc)
complete-Spares doc letters = Triple-modify _ λ s h. h

pub update_doc-Spares :
    (services : Services) (sparing : IsSparing services) (id : String) (f : Document → Document)
    → Spares (update_doc services id f)
unfolding update_doc
update_doc-Spares services sparing id f =
    Spares-bind (sparing.updates id) λ t letters. Triple-modify _ λ s h. h

pub publish_progress-Spares :
    (doc step status : String) (progress : ℕ) (name : String)
    → Spares (publish_progress doc step status progress name)
unfolding publish_progress
publish_progress-Spares doc step status progress name letters = Triple-modify _ λ s h. h

abbrev freed : Bool → Bool → State → Result Failure (Unit {0}) × State
freed c z s =
    if not c
    then (ok tt, s)
    else if z
    then (ok tt, record s { inflight = 0 })
    else (ok tt, record s { inflight = s.inflight - 1 })

freed-Dead :
    (c z : Bool) (s : State) (letters : List String)
    → Dead letters s
    → Post (Dead letters) (Dead letters) (freed c z s).0 (freed c z s).1
freed-Dead false z s letters h = h
freed-Dead true true s letters h = h
freed-Dead true false s letters h = h

pub release_job-Spares : Spares release_job
unfolding release_job release_inflight
release_job-Spares letters = record {
  at = λ s h. freed-Dead s.connected (s.inflight == 0) s letters h;
}

abbrev tried : Bool → Bool → State → Result Failure Bool × State
tried c full s =
    if not c
    then (ok true, s)
    else if full
    then (ok false, record s { inflight = s.inflight + 1 - 1 })
    else (ok true, record s { inflight = s.inflight + 1 })

tried-Dead :
    (c full : Bool) (s : State) (letters : List String)
    → Dead letters s
    → let out = ((λ t. tried c full t) >>= admit_or_raise) s in
      Post (Dead letters) (Dead letters) out.0 out.1
unfolding admit_or_raise
tried-Dead false full s letters h = h
tried-Dead true true s letters h = h
tried-Dead true false s letters h = h

admit_job-Spares : Spares admit_job
unfolding admit_job admit_inflight
admit_job-Spares letters = record {
  at = λ s h. tried-Dead s.connected (ltb s.queue_max_depth (s.inflight + 1)) s letters h;
}

send_or_release-Spares :
    (reachable : Bool) (job : IngestionJob) (ms : ℕ) → Spares (send_or_release reachable job ms)
unfolding send_or_release enqueue_ingestion_job
send_or_release-Spares true job ms letters = record { at = λ s h. h }
send_or_release-Spares false job ms letters =
    Triple-bind release_job (λ t. raise _) (release_job-Spares letters) (λ t. Triple-raise _)

pub enqueue_retry-Spares :
    (reachable : Bool) (job : IngestionJob) (ms : ℕ) → Spares (enqueue_retry reachable job ms)
unfolding enqueue_retry
enqueue_retry-Spares reachable job ms letters =
    Triple-bind admit_job (λ t. send_or_release reachable job ms) (admit_job-Spares letters)
      (λ t. send_or_release-Spares reachable job ms letters)
