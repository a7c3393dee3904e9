-- ===== src/Ingest/Types.antt =====
-- Jobs, documents, exceptions and the state of the ingestion queue.
use bigrag.Base.{ℕ, zero, suc, String, Bool, true, false, ◌&&◌, Option, List, text_eq}
use bigrag.Base.Exec.{Exec}

-- `IngestionJob`
pub record IngestionJob : Type 0 where
  pub document_id : String
  pub file_path : String
  pub collection_name : String
  pub embedding_provider : String
  pub embedding_model : String
  pub embedding_dimension : ℕ
  pub chunk_size : ℕ
  pub chunk_overlap : ℕ
  pub chunk_strategy : String
  pub tenant_field : Option String
  pub embedding_base_url : Option String
  pub multimodal_enabled : Bool
  pub multimodal_enrichment_enabled : Bool
  pub collection_epoch : ℕ
  pub document_epoch : ℕ
  pub attempt : ℕ
  pub max_attempts : ℕ
  pub admission_released : Bool
  pub job_id : String

unfoldable pub should_enrich_multimodal : IngestionJob → Bool
should_enrich_multimodal job =
    job.multimodal_enrichment_enabled && text_eq job.embedding_provider "openai"

-- The exceptions, by what `process_job` tells apart. `QueueFullError`, `ValueError` and `KeyError`
-- are its permanent errors; an `IngestionCancelledError` is a `RuntimeError`, and so is much else.
pub data Failure : Type 0 where
  cancelled : String → Failure
  queue_full : Failure
  value_error : String → Failure
  key_error : String → Failure
  other_error : String → Failure

unfoldable pub is_permanent : Failure → Bool
is_permanent (cancelled m) = false
is_permanent queue_full = true
is_permanent (value_error m) = true
is_permanent (key_error m) = true
is_permanent (other_error m) = false

unfoldable pub message : Failure → String
message (cancelled m) = m
message queue_full = "Ingestion queue is full. Try again later."
message (value_error m) = m
message (key_error m) = m
message (other_error m) = m

-- `documents.status`
pub data DocumentStatus : Type 0 where
  pending processing ready failed : DocumentStatus

-- `documents.error_message`, by what it is made of.
pub data Note : Type 0 where
  plain : String → Note
  partial_note : ℕ → ℕ → Note
  retrying_note : ℕ → String → Note
  full_note : ℕ → String → Note
  recovered_note : Note

pub record Document : Type 0 where
  pub id : String
  pub status : DocumentStatus
  pub chunk_count : ℕ
  pub token_count : ℕ
  pub multimodal_element_count : ℕ
  pub error_message : Option Note

-- What `publish_progress` publishes; `progress` in per cent.
pub record Event : Type 0 where
  pub document_id : String
  pub step : String
  pub status : String
  pub progress : ℕ
  pub collection_name : String

-- A dramatiq message for `process_ingestion_job`, with its delay in milliseconds.
pub record Message : Type 0 where
  pub job : IngestionJob
  pub delay : Option ℕ

-- Redis's statistics may go below zero.
pub data ℤ : Type 0 where
  pos : ℕ → ℤ
  negsuc : ℕ → ℤ

unfoldable pub increment : ℤ → ℤ
increment (pos n) = pos (suc n)
increment (negsuc zero) = pos zero
increment (negsuc (suc n)) = negsuc n

unfoldable pub decrement : ℤ → ℤ
decrement (pos zero) = negsuc zero
decrement (pos (suc n)) = pos n
decrement (negsuc n) = negsuc (suc n)

pub record Stats : Type 0 where
  pub queued : ℕ
  pub completed : ℕ
  pub failed : ℕ
  pub processing : ℤ

-- What the queue's code shares: Redis, the broker, the documents of the database, the event bus.
pub record State : Type 0 where
  pub connected : Bool
  pub inflight : ℕ
  pub processing_list : List String
  pub leases : List (String × ℕ)  -- by job, the second at which the lease ends
  pub collection_epochs : List (String × ℕ)
  pub document_epochs : List (String × ℕ)
  pub dead : List String
  pub stats : Stats
  pub messages : List Message
  pub enrichments : List String
  pub documents : List Document
  pub events : List Event
  pub completed : List String
  pub maintenance : Option String
  pub queue_max_depth : ℕ
  pub now : ℕ

abbrev pub Ingest : Type 0 → Type 0
Ingest A = Exec Failure State A

-- What reading a payload gives: a job, a `ValueError`, `TypeError` or `KeyError`, or another exception,
-- such as the `AttributeError` of a JSON text that is no object.
pub data Decoded : Type 0 where
  decoded : IngestionJob → Decoded
  malformed : Decoded
  uncaught : Failure → Decoded

-- The serialisation of jobs by orjson, and what the queue relies on: it comes back.
pub record Codec : Type 0 where
  pub serialize : IngestionJob → String
  pub deserialize : String → Decoded
