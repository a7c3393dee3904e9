-- ===== src/Ingest/Scenarios.antt =====
-- A job, services and a state of the queue, and the theorems of ingestion at them.
use bigrag.Base.{
  String, text_eq, ◌≡◌, ◌≢◌, ◌↔◌, refl, true, false, none, [], ◌∷◌, keep, if◌then◌else◌, arith,
}
use bigrag.Base.Result.{ok}
use bigrag.Base.Exec.{pure, raise}
use bigrag.Base.Exec.Triple.{Post, Triple-pure, Triple-raise}
use bigrag.Base.Json.{natural, end, field}
use bigrag.Ingest.Payload.{serialize, deserialize, prepend, as_read, deserialize-serialize}
use bigrag.Ingest.Types.{
  IngestionJob, Decoded, malformed, decoded, increment, decrement, other_error, value_error, pos,
  State, Document, pending, Codec,
}
use bigrag.Ingest.Finalize.{Services}
use bigrag.Ingest.Process.{process_job, handle_failure}
use bigrag.Ingest.Process.Spares.{IsSparing}
use bigrag.Ingest.Process.DeadLetters.{gives_up, buried, handle_failure-dead}
use bigrag.Ingest.Process.Slots.{Released, Held}
use bigrag.Ingest.Process.Ends.{IsQuiet}
use bigrag.Ingest.Process.Release.{process_job-Released}
use bigrag.Ingest.State.{admit_inflight, ensure_job_current, recover_stuck_jobs}
use bigrag.Ingest.State.Recovery.{map_ok, jobs_of, expired, recover_stuck_jobs-keep}
use bigrag.Ingest.Queue.{with_epochs, cancel_collection}
use bigrag.Ingest.Queue.Cancellation.{cancel_collection-current}
use bigrag.Ingest.Admission.{
  Counter, exceeds, is_below_zero, IsOrderly, decr_released, incr_admitted, incr_refused, Reachable,
  fresh, after, IsSound, Reachable-IsSound, Admitted, admit_inflight-Admitted,
}

abbrev job : IngestionJob
job = record {
  document_id = "d1";
  file_path = "docs/a.pdf";
  collection_name = "docs";
  embedding_provider = "openai";
  embedding_model = "text-embedding-3-small";
  embedding_dimension = 1536;
  chunk_size = 512;
  chunk_overlap = 50;
  chunk_strategy = "recursive";
  tenant_field = none;
  embedding_base_url = none;
  multimodal_enabled = false;
  multimodal_enrichment_enabled = false;
  collection_epoch = 0;
  document_epoch = 0;
  attempt = 0;
  max_attempts = 3;
  admission_released = false;
  job_id = "j1";
}

-- Every text but one is the job's.
unfoldable read_small : String → Decoded
read_small raw = if text_eq raw "[" then malformed else decoded job

abbrev codec : Codec
codec = record { serialize = λ j. j.job_id; deserialize = read_small }

-- Conversion always fails.
abbrev services : Services
services = record {
  codec = codec;
  is_uuid = λ id. true;
  convert_document = λ j. raise (other_error "no parser");
  replace_document_elements =
      λ doc parsed enrich. pure (record { total = 0; pending_enrichment = 0 });
  chunk_and_embed = λ j parsed. pure (0, 0);
  clear_document_staged_file = λ doc path. pure tt;
  invalidate_collection_query_cache = λ name. pure tt;
  delete_by_document = λ name doc. raise (other_error "vector store down");
  execute_update = λ doc. pure tt;
  sanitize_message_text = λ s. s;
  uniform_ms = λ bound. 0;
  reachable = true;
}

abbrev document : Document
document = record {
  id = "d1";
  status = pending;
  chunk_count = 0;
  token_count = 0;
  multimodal_element_count = 0;
  error_message = none;
}

abbrev state : State
state = record {
  connected = true;
  inflight = 1;
  processing_list = [];
  leases = [];
  collection_epochs = [];
  document_epochs = [];
  dead = [];
  stats = record { queued = 1; completed = 0; failed = 0; processing = pos 0 };
  messages = [];
  enrichments = [];
  documents = document ∷ [];
  events = [];
  completed = [];
  maintenance = none;
  queue_max_depth = 100;
  now = 0;
}

quiet : IsQuiet services
quiet = record {
  convert = λ j i m. Triple-raise _;
  elements = λ doc parsed enrich i m. Triple-pure _;
  embed = λ j parsed i m. Triple-pure _;
  cache = λ name i m. Triple-pure _;
  vectors = λ name doc i m. Triple-raise _;
  updates = λ doc i m. Triple-pure _;
  staged = λ doc path i m. Triple-pure _;
}

process_job-Released_example :
    Post
      (Released 0 0)
      (Held 0 0)
      (process_job services job state).0
      (process_job services job state).1
process_job-Released_example =
    process_job-Released services quiet job state 0 0 refl
      (record { connected = refl; inflight = refl; messages = refl })

-- One client has the only place, and another is refused.
abbrev crowded : Counter
crowded = record { value = pos 2; holders = 1; refused = 1; resets = 0 }

unfoldable crowded_reachable : Reachable crowded
unfolding increment decrement exceeds is_below_zero
crowded_reachable =
    after 1
      (after 3 (after 3 (after 3 fresh (incr_admitted _ refl)) (incr_admitted _ refl))
        (decr_released _ refl))
      (incr_refused _ refl)

crowded-IsOrderly : IsOrderly 3 crowded_reachable
unfolding crowded_reachable
crowded-IsOrderly =
    (omega arith, tt, (omega arith, omega arith, (omega arith, tt, (omega arith, tt, tt))))

Reachable-IsSound_example : IsSound 3 crowded
Reachable-IsSound_example = Reachable-IsSound 3 crowded crowded_reachable crowded-IsOrderly

admit_inflight-Admitted_example : Admitted 1 state 1 0 (admit_inflight 1 state)
admit_inflight-Admitted_example = admit_inflight-Admitted 1 1 0 state refl

cancel_collection-current_example :
    ((ensure_job_current (with_epochs job state) (cancel_collection "docs" state).1).0 ≡ ok tt)
    ↔ ("docs" ≢ job.collection_name)
cancel_collection-current_example = cancel_collection-current job state "docs" refl refl

sparing : IsSparing services
sparing = record {
  vectors = λ name doc letters. Triple-raise _;
  updates = λ doc letters. Triple-pure _;
  staged = λ doc path letters. Triple-pure _;
}

handle_failure-dead_example :
    (handle_failure services job (value_error "empty") state).1.dead
    ≡ (if gives_up job (value_error "empty") then buried services job state.dead else state.dead)
handle_failure-dead_example = handle_failure-dead services sparing job (value_error "empty") state

abbrev abandoned : State
abandoned = record state { processing_list = "[" ∷ "j1" ∷ [] }

recover_stuck_jobs-keep_example :
    (recover_stuck_jobs codec abandoned).0
    ≡ map_ok (keep (expired codec abandoned)) (jobs_of codec abandoned.processing_list)
recover_stuck_jobs-keep_example = recover_stuck_jobs-keep codec abandoned

-- The job with a key that a later version might write.
deserialize-serialize_example :
    deserialize "0a1b2c3d" (prepend (field "priority" (natural 1) end) (serialize job))
    ≡ ok (as_read job)
unfolding bigrag.Ingest.Payload.is_known
deserialize-serialize_example =
    deserialize-serialize "0a1b2c3d" job (field "priority" (natural 1) end) (refl, tt)
