-- ===== src/Connectors/Scenarios.antt =====
-- A source with ten files that its manifests know, of which a scan lists some.
use bigrag.Base.{ℕ, suc, ◌≡◌, refl, true, Option, none, some, String, List, [], ◌∷◌, map, arith}
use Prim.Native.String.{◌++◌ as text_append}
use bigrag.Base.Result.{ok, err}
use bigrag.Base.Exec.Triple.{Post}
use bigrag.Ingest.Types.{DocumentStatus}
use bigrag.Connectors.{
  delete_safety, RemoteConnectorFile, no_counters, ConnectorDocument, SyncedDocument, pending, idle,
  Sync, Services,
}
use bigrag.Connectors.Pages.{scan_pages}
use bigrag.Connectors.Pages.Processed.{IsProcessed, IsShort, scan_pages-IsProcessed}
use bigrag.Connectors.Prune.{is_unseen, prune_rounds, prune_stale}
use bigrag.Connectors.Prune.Ends.{IsEnded, left, prune_rounds-ends}
use bigrag.Connectors.Prune.Kept.{seen, prune_stale-seen, prune_stale-refuses}

abbrev willing : Services
willing = record {
  download = λ remote. ok record {
    remote = remote;
    filename = remote.name;
    file_ext = ".txt";
    file_size = 1;
    content_hash = remote.id;
  };
  validate_upload = λ d. ok tt;
  prepare_document_metadata = λ r. ok tt;
  put_stream = λ key d. ok tt;
  delete_staged_file_path = λ path. ok tt;
  cancel_documents = λ id. ok tt;
  delete_by_document = λ id. ok tt;
  enqueue = λ id. ok tt;
  ensure_writes_allowed = ok tt;
  commit = λ phase. ok tt;
  recount_collection_documents = ok tt;
  storage_key = λ id ext. text_append id ext;
  uuid7 = λ n. "new";
  message = λ x. "failed";
}

abbrev remote_file : String → RemoteConnectorFile
remote_file id = record {
  id = id;
  name = id;
  mime_type = "text/plain";
  modified_time = none;
  md5_checksum = none;
  version = none;
  web_url = none;
}

abbrev manifest : Option ℕ → String → ConnectorDocument
manifest job id = record {
  document_id = id;
  remote_id = id;
  remote_name = id;
  remote_mime_type = "text/plain";
  remote_checksum = none;
  remote_version = none;
  remote_modified_time = none;
  content_hash = none;
  web_url = none;
  last_seen_job_id = job;
}

abbrev document : String → SyncedDocument
document id = record {
  id = id;
  filename = id;
  file_size = 1;
  file_path = id;
  content_hash = none;
  status = DocumentStatus.ready;
  error_message = none;
}

abbrev with_manifests : List ConnectorDocument → Sync
with_manifests manifests = record {
  job = record {
    id = 7;
    status = pending;
    started_at = none;
    completed_at = none;
    error_message = none;
    totals = no_counters;
  };
  source = record {
    collection_name = "docs";
    status = idle;
    schedule_enabled = true;
    sync_interval_hours = none;
    last_sync_at = none;
    next_sync_at = none;
    last_error = none;
  };
  manifests = manifests;
  documents = document "a" ∷ document "b" ∷ [];
  counters = no_counters;
  events = [];
}

abbrev two_manifests : Sync
two_manifests = with_manifests (manifest (some 7) "a" ∷ manifest (some 6) "b" ∷ [])

abbrev names : List String
names = "0" ∷ "1" ∷ "2" ∷ "3" ∷ "4" ∷ "5" ∷ "6" ∷ "7" ∷ "8" ∷ "9" ∷ []

abbrev ten_missing : Sync
ten_missing = with_manifests (map (manifest none) names)

abbrev listed : List (List RemoteConnectorFile)
listed = (remote_file "a" ∷ remote_file "c" ∷ []) ∷ []

prune_rounds-ends_example :
    IsEnded willing 7 (prune_rounds willing (suc (left 7 ten_missing)) 7 ten_missing)
prune_rounds-ends_example = prune_rounds-ends willing 7 ten_missing

prune_stale-seen_example : seen 7 (prune_stale willing 50 two_manifests).1 ≡ seen 7 two_manifests
prune_stale-seen_example = prune_stale-seen willing 50 two_manifests ((refl, tt), (tt, tt))

prune_stale-refuses_example : prune_stale willing 50 ten_missing ≡ (err delete_safety, ten_missing)
unfolding is_unseen
prune_stale-refuses_example = prune_stale-refuses willing 50 ten_missing (omega arith) (omega arith)

scan_pages-IsProcessed_example :
    Post IsProcessed IsShort
      (scan_pages willing 4 listed (ok tt) two_manifests).0
      (scan_pages willing 4 listed (ok tt) two_manifests).1
scan_pages-IsProcessed_example =
    scan_pages-IsProcessed willing 4 listed (ok tt) two_manifests (omega arith, omega arith)
