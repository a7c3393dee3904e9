-- ===== src/Connectors/Pages.antt =====
-- Listing the source: sync_page of api/bigrag/services/connectors/batches.py and scan_pages of
-- sync/scan_pages.py.
pub mod Counted
pub mod Processed
use bigrag.Base.{
  ℕ, zero, suc, ◌+◌, max, String, Bool, true, false, not, Option, none, some, List, [], ◌∷◌, ◌++◌,
  text_eq, if◌then◌else◌, length, map, any_of, ◌==◌,
}
use bigrag.Base.Result.{Result, ok, err}
use bigrag.Base.Exec.{pure, raise, lift, gets, modify, ◌>>=◌, ◌>>◌, when}
use bigrag.Connectors.{
  SyncFault, queue_full, cancelled, delete_safety, invalid_file, other_error, RemoteConnectorFile,
  DownloadedConnectorFile, ConnectorSyncCounters, ConnectorDocument, SyncedDocument, Sync, Method,
  Services, add_error, manifest_remote_unchanged, update_manifest_remote,
}
use bigrag.Connectors.Files.{
  find_manifest, document_for, change_manifest, count, set_manifest, one_skipped,
  sync_downloaded_file,
}

-- `manifests.get(remote.id)`, of the manifests that were loaded before the page, by their remote ids.
abbrev pub known_manifest : List String → String → Sync → Option ConnectorDocument
known_manifest known id s = if any_of (text_eq id) known then find_manifest id s.manifests else none

abbrev with_document_id : Option ConnectorDocument → List String → List String
with_document_id none ids = ids
with_document_id (some m) ids = m.document_id ∷ ids

-- The documents that are loaded before a batch, by their ids.
unfoldable pub batch_document_ids : List String → Sync → List RemoteConnectorFile → List String
batch_document_ids known s [] = []
batch_document_ids known s (r ∷ batch) =
    with_document_id (known_manifest known r.id s) (batch_document_ids known s batch)

-- `existing_docs.get(manifest.document_id) if manifest else None`
abbrev pub loaded_document : List String → Option ConnectorDocument → Sync → Option SyncedDocument
loaded_document loaded none s = none
loaded_document loaded (some m) s =
    if any_of (text_eq m.document_id) loaded then document_for (some m) s.documents else none

abbrev pub row_unchanged : List String → Sync → RemoteConnectorFile → Bool
row_unchanged known s remote =
    let m = known_manifest known remote.id s in
    manifest_remote_unchanged m (document_for m s.documents) remote

-- The remote files of a batch that are skipped, by their ids, before any is downloaded.
unfoldable pub skipped_remote_ids : List String → Sync → List RemoteConnectorFile → List String
skipped_remote_ids known s [] = []
skipped_remote_ids known s (r ∷ batch) =
    let rest = skipped_remote_ids known s batch in
    if row_unchanged known s r then r.id ∷ rest else rest

-- `job.total_… = counters.…` of update_sync_progress
abbrev pub report_totals : Method (Unit {0})
report_totals = modify (λ s. record s { job = record s.job { totals = s.counters } })

-- The handlers of one remote file.
abbrev pub handled : RemoteConnectorFile → String → SyncFault → Method (Unit {0})
handled remote text queue_full = raise queue_full
handled remote text cancelled = raise cancelled
handled remote text (invalid_file m) = count (add_error remote.id remote.name text)
handled remote text (other_error m) = count (add_error remote.id remote.name text)
handled remote text delete_safety = count (add_error remote.id remote.name text)

-- UPDATE … SET last_seen_job_id for the page's remote files
unfoldable pub mark_seen : ℕ → List String → List ConnectorDocument → List ConnectorDocument
mark_seen job ids [] = []
mark_seen job ids (m ∷ manifests) =
    let rest = mark_seen job ids manifests in
    if any_of (text_eq m.remote_id) ids
    then record m { last_seen_job_id = some job } ∷ rest
    else m ∷ rest

abbrev pub found_more : ℕ → ConnectorSyncCounters → ConnectorSyncCounters
found_more n c = record c { found = c.found + n }

abbrev pub remote_id_of : RemoteConnectorFile → String
remote_id_of r = r.id

abbrev pub manifest_remote_id : ConnectorDocument → String
manifest_remote_id m = m.remote_id

abbrev pub mark_page : List RemoteConnectorFile → Sync → Sync
mark_page page s = record s { manifests = mark_seen s.job.id (map remote_id_of page) s.manifests }

module _ (services : Services) where
  module _ (known : List String) where
    unfoldable pub sync_file : List String → Bool → RemoteConnectorFile → Method (Unit {0})
    sync_file loaded true remote = do
      set_manifest remote.id (update_manifest_remote remote)
      count one_skipped
    sync_file loaded false remote = do
      downloaded ← lift (services.download remote)
      m ← gets (known_manifest known remote.id)
      d ← gets (loaded_document loaded m)
      sync_downloaded_file services m d downloaded

    abbrev pub caught :
        RemoteConnectorFile
        → Result SyncFault (Unit {0}) × Sync
        → Result SyncFault (Unit {0}) × Sync
    caught remote (ok u, s) = (ok u, s)
    caught remote (err x, s) = handled remote (services.message x) x s

    unfoldable pub try_file : List String → Bool → RemoteConnectorFile → Method (Unit {0})
    try_file loaded skipped remote s = caught remote (sync_file loaded skipped remote s)

    unfoldable pub sync_files :
        List String → List String → List RemoteConnectorFile → Method (Unit {0})
    sync_files loaded skipped [] = pure tt
    sync_files loaded skipped (r ∷ batch) = do
      try_file loaded (any_of (text_eq r.id) skipped) r
      sync_files loaded skipped batch

    unfoldable pub sync_batch : List RemoteConnectorFile → Method (Unit {0})
    sync_batch batch = do
      loaded ← gets (λ s. batch_document_ids known s batch)
      skipped ← gets (λ s. skipped_remote_ids known s batch)
      sync_files loaded skipped batch
      report_totals

    abbrev last_batch : List RemoteConnectorFile → Method (Unit {0})
    last_batch [] = pure tt
    last_batch (r ∷ batch) = sync_batch (r ∷ batch)

    -- The batches of a page, with the files that wait for one; an empty batch is none.
    unfoldable pub sync_batches :
        ℕ → List RemoteConnectorFile → List RemoteConnectorFile → Method (Unit {0})
    sync_batches size waiting [] = last_batch waiting
    sync_batches size waiting (r ∷ remotes) =
        let batch = waiting ++ (r ∷ []) in
        let full = sync_batches size [] remotes in
        let more = sync_batches size batch remotes in
        if length batch == size then (do sync_batch batch; full) else more

    unfoldable pub sync_page : ℕ → List RemoteConnectorFile → Method (Unit {0})
    sync_page download_concurrency remotes = sync_batches (max 1 download_concurrency) [] remotes

  -- The rest of the round for a page, after it was counted.
  unfoldable pub sync_listed : ℕ → List RemoteConnectorFile → Method (Unit {0})
  sync_listed download_concurrency page = do
    known ← gets (λ s. map manifest_remote_id s.manifests)
    sync_page known download_concurrency page
    modify (mark_page page)
    report_totals

  unfoldable pub scan_page : ℕ → List RemoteConnectorFile → Method (Unit {0})
  scan_page download_concurrency page = do
    count (found_more (length page))
    sync_listed download_concurrency page

  -- The pages that the adapter yields, and how the iteration ends.
  unfoldable pub scan_pages :
      ℕ → List (List RemoteConnectorFile) → Result SyncFault (Unit {0}) → Method (Unit {0})
  scan_pages download_concurrency [] end = lift end
  scan_pages download_concurrency (page ∷ pages) end = do
    scan_page download_concurrency page
    scan_pages download_concurrency pages end
