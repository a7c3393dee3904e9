-- ===== src/Ingest/Process/Slots.antt =====
-- The places of the admission counter through a run of a job.
use bigrag.Base.{
  ℕ, suc, ◌+◌, ◌-◌, ◌==◌, ◌≡◌, refl, ◌⊎◌, Bool, true, false, not, String, [], ◌∷◌, ◌++◌,
  if◌then◌else◌, length, length-append, arith,
}
use bigrag.Base.Result.{Result, ok, err}
use bigrag.Base.Exec.{raise, modify, ◌>>=◌}
use bigrag.Base.Exec.Triple.{Post, Triple, Triple-raise, Triple-modify, Triple-bind}
use bigrag.Ingest.Types.{IngestionJob, Failure, cancelled, Document, Stats, State, Ingest}
use bigrag.Ingest.State.{
  quoted, collection_epoch, document_epoch, ensure_job_current, admit_inflight, release_inflight,
}
use bigrag.Ingest.Queue.{
  release_job, admit_job, admit_or_raise, publish_progress, enqueue_ingestion_job, enqueue_retry,
  send_or_release,
}
use bigrag.Ingest.Finalize.{Services, bump_stats, update_doc, complete}

-- Redis is there, `i` places are taken and `m` messages are sent.
pub record Slots (i m : ℕ) (s : State) : Type 0 where
  pub connected : s.connected ≡ true
  pub inflight : s.inflight ≡ i
  pub messages : length s.messages ≡ m

-- A run has ended: its place is free, or one more message holds it.
abbrev pub Released : ℕ → ℕ → State → Type 0
Released i m s = Slots i m s ⊎ Slots (suc i) (suc m) s

-- The same, or the place is still taken without a message.
abbrev pub Held : ℕ → ℕ → State → Type 0
Held i m s = Released i m s ⊎ Slots (suc i) m s

-- A method that leaves places and messages alone, whether it returns or raises.
abbrev pub Neutral : {A : Type 0} → Ingest A → Type 0
Neutral act = (i m : ℕ) → Triple (Slots i m) act (Slots i m) (Slots i m)

-- The same of a method that does not raise.
abbrev pub Quiet : {A : Type 0} → Ingest A → Type 1
Quiet act = (i m : ℕ) (R : State → Type 0) → Triple (Slots i m) act (Slots i m) R

Slots-modify :
    (f : State → State)
    → ((s : State) → (f s).connected ≡ s.connected)
    → ((s : State) → (f s).inflight ≡ s.inflight)
    → ((s : State) → (f s).messages ≡ s.messages)
    → Quiet (modify f)
Slots-modify f c j k i m R = Triple-modify f λ s h. record {
  connected = rw (c s) h.connected;
  inflight = rw (j s) h.inflight;
  messages = rw (k s) h.messages;
}

pub bump_stats-Quiet : (f : Stats → Stats) → Quiet (bump_stats f)
bump_stats-Quiet f =
    Slots-modify (λ s. record s { stats = f s.stats }) (λ s. refl) (λ s. refl) (λ s. refl)

pub complete-Quiet : (doc : String) → Quiet (complete doc)
complete-Quiet doc =
    Slots-modify (λ s. record s { completed = s.completed ++ doc ∷ [] }) (λ s. refl) (λ s. refl)
      (λ s. refl)

pub update_doc-Neutral :
    (services : Services) (id : String) (f : Document → Document)
    → Neutral (services.execute_update id)
    → Neutral (update_doc services id f)
unfolding update_doc
update_doc-Neutral services id f n i m = Triple-bind _ _ (n i m) λ t.
    Triple-modify _
      λ s h. record { connected = h.connected; inflight = h.inflight; messages = h.messages }

pub publish_progress-Quiet :
    (doc step status : String) (progress : ℕ) (name : String)
    → Quiet (publish_progress doc step status progress name)
unfolding publish_progress
publish_progress-Quiet doc step status progress name i m R = record {
  at = λ s h. record { connected = h.connected; inflight = h.inflight; messages = h.messages };
}

abbrev Outcome : Type 0
Outcome = Result Failure (Unit {0}) × State

abbrev gated : Bool → Bool → Failure → Failure → State → Outcome
gated b c e f s = if not b then (err e, s) else if not c then (err f, s) else (ok tt, s)

-- Two tests that raise, and the state as it was.
gate :
    (R : State → Type 0) (b c : Bool) (e f : Failure) (s : State)
    → R s
    → Post R R (gated b c e f s).0 (gated b c e f s).1
gate R false c e f s h = h
gate R true false e f s h = h
gate R true true e f s h = h

pub ensure_job_current-Neutral : (job : IngestionJob) → Neutral (ensure_job_current job)
unfolding ensure_job_current
ensure_job_current-Neutral job i m = record {
  at = λ s h.
      gate (Slots i m) (collection_epoch s job.collection_name == job.collection_epoch)
        (document_epoch s job.document_id == job.document_epoch)
        (cancelled (quoted "Ingestion cancelled for collection '" job.collection_name))
        (cancelled (quoted "Ingestion cancelled for document '" job.document_id)) s h;
}

abbrev released : Bool → Bool → State → Outcome
released c z s =
    if not c
    then (ok tt, s)
    else if z
    then (ok tt, record s { inflight = 0 })
    else (ok tt, record s { inflight = s.inflight - 1 })

released-frees :
    (c z : Bool) (i m : ℕ) (R : State → Type 0) (s : State)
    → c ≡ true
    → z ≡ false
    → Slots (suc i) m s
    → Post (Slots i m) R (released c z s).0 (released c z s).1
released-frees false z i m R s p q h = cc
released-frees true true i m R s p q h = cc
released-frees true false i m R s p q h = record {
  connected = h.connected;
  inflight = omega (arith, h.inflight);
  messages = h.messages;
}

-- A taken place is given back.
pub release_job-frees :
    (i m : ℕ) (R : State → Type 0) → Triple (Slots (suc i) m) release_job (Slots i m) R
unfolding release_job release_inflight
release_job-frees i m R = record {
  at = λ s h. released-frees s.connected _ i m R s h.connected (ground (arith, h.inflight)) h;
}

abbrev admitted : Bool → Bool → State → Result Failure Bool × State
admitted c full s =
    if not c
    then (ok true, s)
    else if full
    then (ok false, record s { inflight = s.inflight + 1 - 1 })
    else (ok true, record s { inflight = s.inflight + 1 })

admitted-takes :
    (c full : Bool) (i m : ℕ) (s : State)
    → c ≡ true
    → Slots i m s
    → let out = ((λ t. admitted c full t) >>= admit_or_raise) s in
      Post (Slots (suc i) m) (Slots i m) out.0 out.1
unfolding admit_or_raise
admitted-takes false full i m s p h = cc
admitted-takes true true i m s p h = record {
  connected = h.connected;
  inflight = omega (arith, h.inflight);
  messages = h.messages;
}
admitted-takes true false i m s p h = record {
  connected = h.connected;
  inflight = omega (arith, h.inflight);
  messages = h.messages;
}

-- Admission takes a place, or raises and takes none.
pub admit_job-takes : (i m : ℕ) → Triple (Slots i m) admit_job (Slots (suc i) m) (Slots i m)
unfolding admit_job admit_inflight
admit_job-takes i m = record { at = λ s h. admitted-takes s.connected _ i m s h.connected h }

-- A message that is sent, or a place given back.
pub send_or_release-trades :
    (reachable : Bool) (job : IngestionJob) (ms i m : ℕ)
    → Triple
        (Slots (suc i) m)
        (send_or_release reachable job ms)
        (Slots (suc i) (suc m))
        (Slots i m)
unfolding send_or_release enqueue_ingestion_job
send_or_release-trades true job ms i m = record {
  at = λ s h. record {
    connected = h.connected;
    inflight = h.inflight;
    messages =
        omega (arith, h.messages, length-append s.messages (record { job = job; delay = _ } ∷ []));
  };
}
send_or_release-trades false job ms i m =
    Triple-bind release_job (λ t. raise _) (release_job-frees i m (Slots i m)) (λ t. Triple-raise _)

pub enqueue_retry-trades :
    (reachable : Bool) (job : IngestionJob) (ms i m : ℕ)
    → Triple (Slots i m) (enqueue_retry reachable job ms) (Slots (suc i) (suc m)) (Slots i m)
unfolding enqueue_retry
enqueue_retry-trades reachable job ms i m =
    Triple-bind admit_job (λ t. send_or_release reachable job ms) (admit_job-takes i m)
      (λ t. send_or_release-trades reachable job ms i m)
