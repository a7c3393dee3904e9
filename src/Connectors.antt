-- ===== src/Connectors.antt =====
-- The synchronisation of a collection with a remote source: api/bigrag/services/connectors.
-- A state is one sync job with its source, the source's manifests, and the documents.
pub mod Files
pub mod Pages
pub mod Prune
pub mod Run
mod Scenarios
use bigrag.Base.{
  ℕ, zero, suc, ◌+◌, ◌*◌, max, String, Bool, true, false, ◌&&◌, ◌||◌, not, Option, none, some, List,
  [], ◌∷◌, ◌++◌, text_eq, ltb, ◌==◌, if◌then◌else◌, length,
}
use bigrag.Base.Text.{is_empty}
use bigrag.Base.Result.{Result, ok, err}
use bigrag.Base.Exec.{Exec}
use bigrag.Ingest.Types.{DocumentStatus}

-- The exceptions of a sync, by how they are caught; `cancelled` is no `Exception`.
pub data SyncFault : Type 0 where
  queue_full cancelled delete_safety : SyncFault
  invalid_file other_error : String → SyncFault

pub record RemoteConnectorFile : Type 0 where
  pub id : String
  pub name : String
  pub mime_type : String
  pub modified_time : Option ℕ
  pub md5_checksum : Option String
  pub version : Option String
  pub web_url : Option String

pub record DownloadedConnectorFile : Type 0 where
  pub remote : RemoteConnectorFile
  pub filename : String
  pub file_ext : String
  pub file_size : ℕ
  pub content_hash : String

pub record SyncError : Type 0 where
  pub remote_id : String
  pub name : String
  pub error : String

pub record ConnectorSyncCounters : Type 0 where
  pub found : ℕ
  pub created : ℕ
  pub updated : ℕ
  pub skipped : ℕ
  pub deleted : ℕ
  pub failed : ℕ
  pub errors : List SyncError

abbrev pub no_counters : ConnectorSyncCounters
no_counters = record {
  found = 0;
  created = 0;
  updated = 0;
  skipped = 0;
  deleted = 0;
  failed = 0;
  errors = [];
}

unfoldable pub add_error : String → String → String → ConnectorSyncCounters → ConnectorSyncCounters
add_error remote_id name error c = record c {
  failed = suc c.failed;
  errors =
      if ltb (length c.errors) 50
      then c.errors ++ (record { remote_id = remote_id; name = name; error = error } ∷ [])
      else c.errors;
}

pub record ConnectorDocument : Type 0 where
  pub document_id : String
  pub remote_id : String
  pub remote_name : String
  pub remote_mime_type : String
  pub remote_checksum : Option String
  pub remote_version : Option String
  pub remote_modified_time : Option ℕ
  pub content_hash : Option String
  pub web_url : Option String
  pub last_seen_job_id : Option ℕ

pub record SyncedDocument : Type 0 where
  pub id : String
  pub filename : String
  pub file_size : ℕ
  pub file_path : String
  pub content_hash : Option String
  pub status : DocumentStatus
  pub error_message : Option String

pub data JobStatus : Type 0 where
  pending running complete failed : JobStatus

pub data SourceStatus : Type 0 where
  idle syncing error : SourceStatus

pub record ConnectorSyncJob : Type 0 where
  pub id : ℕ
  pub status : JobStatus
  pub started_at : Option ℕ
  pub completed_at : Option ℕ
  pub error_message : Option String
  pub totals : ConnectorSyncCounters

pub record ConnectorSource : Type 0 where
  pub collection_name : String
  pub status : SourceStatus
  pub schedule_enabled : Bool
  pub sync_interval_hours : Option ℕ
  pub last_sync_at : Option ℕ
  pub next_sync_at : Option ℕ
  pub last_error : Option String

pub record Sync : Type 0 where
  pub job : ConnectorSyncJob
  pub source : ConnectorSource
  pub manifests : List ConnectorDocument
  pub documents : List SyncedDocument
  pub counters : ConnectorSyncCounters
  pub events : List String

abbrev pub Method {ℓ} : Type ℓ → Type ℓ
Method A = Exec SyncFault Sync A

-- The adapter, storage, the vector store, the queue, and validation; each call returns or raises.
-- The commits that start and end a sync, with the progress that they report.
pub data Phase : Type 0 where
  authenticating scanning finalizing closing failing deferring : Phase

pub record Services : Type 0 where
  pub download : RemoteConnectorFile → Result SyncFault DownloadedConnectorFile
  pub validate_upload : DownloadedConnectorFile → Result SyncFault (Unit {0})
  pub prepare_document_metadata : RemoteConnectorFile → Result SyncFault (Unit {0})
  pub put_stream : String → DownloadedConnectorFile → Result SyncFault (Unit {0})
  pub delete_staged_file_path : String → Result SyncFault (Unit {0})
  pub cancel_documents : String → Result SyncFault (Unit {0})
  pub delete_by_document : String → Result SyncFault (Unit {0})
  pub enqueue : String → Result SyncFault (Unit {0})
  pub ensure_writes_allowed : Result SyncFault (Unit {0})
  pub commit : Phase → Result SyncFault (Unit {0})
  pub recount_collection_documents : Result SyncFault (Unit {0})
  pub storage_key : String → String → String
  pub uuid7 : ℕ → String
  pub message : SyncFault → String

-- `a or b` for texts that may be missing
abbrev pub or_text : Option String → Option String → Option String
or_text none b = b
or_text (some a) b = if is_empty a then b else some a

unfoldable pub remote_signature : RemoteConnectorFile → Option String
remote_signature remote = or_text remote.md5_checksum remote.version

-- `bool(a and b and a == b)`
abbrev pub same_signature : Option String → Option String → Bool
same_signature (some a) (some b) = not (is_empty a) && text_eq a b
same_signature _ _ = false

abbrev pub is_failed : DocumentStatus → Bool
is_failed DocumentStatus.failed = true
is_failed _ = false

unfoldable pub old_signature : ConnectorDocument → Option String
old_signature m = or_text m.remote_checksum m.remote_version

unfoldable pub manifest_remote_unchanged :
    Option ConnectorDocument → Option SyncedDocument → RemoteConnectorFile → Bool
unfolding remote_signature old_signature
manifest_remote_unchanged none d remote = false
manifest_remote_unchanged (some m) none remote = false
manifest_remote_unchanged (some m) (some d) remote =
    not (is_failed d.status) && same_signature (remote_signature remote) (old_signature m)

unfoldable pub manifest_unchanged : ConnectorDocument → DownloadedConnectorFile → Bool
unfolding remote_signature old_signature
manifest_unchanged m downloaded =
    same_signature (remote_signature downloaded.remote) (old_signature m)
    || same_signature m.content_hash (some downloaded.content_hash)

unfoldable pub manifest_for_download : String → DownloadedConnectorFile → ConnectorDocument
manifest_for_download document_id downloaded =
    let remote = downloaded.remote in
    record {
      document_id = document_id;
      remote_id = remote.id;
      remote_name = remote.name;
      remote_mime_type = remote.mime_type;
      remote_checksum = remote.md5_checksum;
      remote_version = remote.version;
      remote_modified_time = remote.modified_time;
      content_hash = some downloaded.content_hash;
      web_url = remote.web_url;
      last_seen_job_id = none;
    }

unfoldable pub update_manifest_remote : RemoteConnectorFile → ConnectorDocument → ConnectorDocument
update_manifest_remote remote m = record m {
  remote_name = remote.name;
  remote_mime_type = remote.mime_type;
  remote_checksum = remote.md5_checksum;
  remote_version = remote.version;
  remote_modified_time = remote.modified_time;
  web_url = remote.web_url;
}

unfoldable pub update_manifest : DownloadedConnectorFile → ConnectorDocument → ConnectorDocument
unfolding update_manifest_remote
update_manifest downloaded m = record (update_manifest_remote downloaded.remote m) {
  content_hash = some downloaded.content_hash;
}
