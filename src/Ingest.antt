-- ===== src/Ingest.antt =====
-- The ingestion of documents: the queue's state, its handlers, the run of a job and its ends.
pub mod Payload
pub mod Types
pub mod State
pub mod Queue
pub mod Admission
pub mod Finalize
pub mod Process
mod Scenarios
