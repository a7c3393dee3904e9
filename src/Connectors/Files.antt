-- ===== src/Connectors/Files.antt =====
-- One remote file: sync_downloaded_file and delete_synced_document of
-- api/bigrag/services/connectors/documents.py.
use bigrag.Base.{
  suc, String, Bool, false, ◌&&◌, not, Option, none, some, List, [], ◌∷◌, ◌++◌, text_eq,
  if◌then◌else◌, length, keep,
}
use bigrag.Base.Result.{Result, ok, err}
use bigrag.Base.Exec.{pure, raise, lift, gets, modify, ◌>>=◌, ◌>>◌}
use bigrag.Ingest.Types.{DocumentStatus}
use bigrag.Connectors.{
  SyncFault, RemoteConnectorFile, DownloadedConnectorFile, ConnectorSyncCounters, ConnectorDocument,
  SyncedDocument, Sync, Method, Services, is_failed, manifest_unchanged, manifest_for_download,
  update_manifest,
}

-- The manifest of a remote file, and a document by its id. A page lists a remote file once.
unfoldable pub find_manifest : String → List ConnectorDocument → Option ConnectorDocument
find_manifest id [] = none
find_manifest id (m ∷ manifests) =
    let rest = find_manifest id manifests in if text_eq m.remote_id id then some m else rest

unfoldable pub find_document : String → List SyncedDocument → Option SyncedDocument
find_document id [] = none
find_document id (d ∷ documents) =
    let rest = find_document id documents in if text_eq d.id id then some d else rest

abbrev pub document_for : Option ConnectorDocument → List SyncedDocument → Option SyncedDocument
document_for none documents = none
document_for (some m) documents = find_document m.document_id documents

unfoldable pub change_manifest :
    String
    → (ConnectorDocument → ConnectorDocument)
    → List ConnectorDocument
    → List ConnectorDocument
change_manifest id f [] = []
change_manifest id f (m ∷ manifests) =
    let rest = change_manifest id f manifests in
    if text_eq m.remote_id id then f m ∷ rest else m ∷ rest

unfoldable pub change_document :
    String → (SyncedDocument → SyncedDocument) → List SyncedDocument → List SyncedDocument
change_document id f [] = []
change_document id f (d ∷ documents) =
    let rest = change_document id f documents in if text_eq d.id id then f d ∷ rest else d ∷ rest

abbrev pub count : (ConnectorSyncCounters → ConnectorSyncCounters) → Method (Unit {0})
count f = modify (λ s. record s { counters = f s.counters })

abbrev pub set_manifest : String → (ConnectorDocument → ConnectorDocument) → Method (Unit {0})
set_manifest id f = modify (λ s. record s { manifests = change_manifest id f s.manifests })

abbrev pub set_document : String → (SyncedDocument → SyncedDocument) → Method (Unit {0})
set_document id f = modify (λ s. record s { documents = change_document id f s.documents })

abbrev pub one_skipped : ConnectorSyncCounters → ConnectorSyncCounters
one_skipped c = record c { skipped = suc c.skipped }

abbrev pub one_created : ConnectorSyncCounters → ConnectorSyncCounters
one_created c = record c { created = suc c.created }

abbrev pub one_updated : ConnectorSyncCounters → ConnectorSyncCounters
one_updated c = record c { updated = suc c.updated }

abbrev pub one_deleted : ConnectorSyncCounters → ConnectorSyncCounters
one_deleted c = record c { deleted = suc c.deleted }

abbrev pub rename : RemoteConnectorFile → ConnectorDocument → ConnectorDocument
rename remote m = record m {
  remote_name = remote.name;
  remote_mime_type = remote.mime_type;
  web_url = remote.web_url;
}

abbrev pub is_current :
    Option ConnectorDocument → Option SyncedDocument → DownloadedConnectorFile → Bool
is_current (some m) (some d) downloaded =
    not (is_failed d.status) && manifest_unchanged m downloaded
is_current _ _ downloaded = false

abbrev pub is_other : ConnectorDocument → ConnectorDocument → Bool
is_other m n = not (text_eq n.remote_id m.remote_id)

abbrev pub forget_manifest : ConnectorDocument → Method (Unit {0})
forget_manifest m = do
  modify (λ s. record s { manifests = keep (is_other m) s.manifests })
  count one_deleted

abbrev pub refile : String → DownloadedConnectorFile → SyncedDocument → SyncedDocument
refile key downloaded d = record d {
  filename = downloaded.filename;
  file_size = downloaded.file_size;
  file_path = key;
  content_hash = some downloaded.content_hash;
  status = DocumentStatus.pending;
  error_message = none;
}

abbrev pub new_document : String → String → DownloadedConnectorFile → SyncedDocument
new_document id key downloaded = record {
  id = id;
  filename = downloaded.filename;
  file_size = downloaded.file_size;
  file_path = key;
  content_hash = some downloaded.content_hash;
  status = DocumentStatus.pending;
  error_message = none;
}

abbrev pub add_document : String → String → DownloadedConnectorFile → Sync → Sync
add_document id key downloaded s = record s {
  documents = s.documents ++ (new_document id key downloaded ∷ []);
  manifests = s.manifests ++ (manifest_for_download id downloaded ∷ []);
}

abbrev pub enqueue_failed : SyncedDocument → SyncedDocument
enqueue_failed d = record d {
  status = DocumentStatus.failed;
  error_message = some "enqueue failed";
}

abbrev pub after_enqueue : String → Result SyncFault (Unit {0}) → Method (Unit {0})
after_enqueue id (ok u) = pure tt
after_enqueue id (err x) = do set_document id enqueue_failed; raise x

module _ (services : Services) where
  -- `_create_new_synced_document`: the id of the new document
  unfoldable pub create_new_synced_document : DownloadedConnectorFile → Method String
  create_new_synced_document downloaded = do
    doc_id ← gets (λ s. services.uuid7 (length s.documents))
    let key = services.storage_key doc_id downloaded.file_ext
    lift (services.put_stream key downloaded)
    modify (add_document doc_id key downloaded)
    count one_created
    pure doc_id

  -- The old file goes; if that fails, the new one does.
  abbrev pub replace_file : String → String → Result SyncFault (Unit {0})
  replace_file old_path key =
      if text_eq old_path key then ok tt else services.delete_staged_file_path old_path

  unfoldable pub update_synced_document : SyncedDocument → DownloadedConnectorFile → Method String
  update_synced_document d downloaded = do
    lift (services.cancel_documents d.id)
    lift (services.delete_by_document d.id)
    let key = services.storage_key d.id downloaded.file_ext
    lift (services.put_stream key downloaded)
    lift (replace_file d.file_path key)
    set_document d.id (refile key downloaded)
    set_manifest downloaded.remote.id (update_manifest downloaded)
    count one_updated
    pure d.id

  unfoldable pub write_document : Option SyncedDocument → DownloadedConnectorFile → Method String
  write_document none downloaded = create_new_synced_document downloaded
  write_document (some d) downloaded = update_synced_document d downloaded

  -- The end of `sync_downloaded_file`.
  unfoldable pub enqueue_document : String → Method (Unit {0})
  enqueue_document id = after_enqueue id (services.enqueue id)

  unfoldable pub sync_changed_file :
      Option SyncedDocument → DownloadedConnectorFile → Method (Unit {0})
  sync_changed_file d downloaded = do
    lift (services.validate_upload downloaded)
    lift (services.prepare_document_metadata downloaded.remote)
    id ← write_document d downloaded
    enqueue_document id

  unfoldable pub sync_downloaded_file :
      Option ConnectorDocument → Option SyncedDocument → DownloadedConnectorFile → Method (Unit {0})
  sync_downloaded_file m d downloaded =
      if is_current m d downloaded
      then (do count one_skipped; set_manifest downloaded.remote.id (rename downloaded.remote))
      else sync_changed_file d downloaded

  abbrev pub remove_document : Option SyncedDocument → Method (Unit {0})
  remove_document none = pure tt
  remove_document (some d) = do
    lift (services.cancel_documents d.id)
    lift (services.delete_staged_file_path d.file_path)
    lift (services.delete_by_document d.id)
    modify (λ s. record s { documents = keep (λ e. not (text_eq e.id d.id)) s.documents })

  unfoldable pub delete_synced_document : ConnectorDocument → Method (Unit {0})
  delete_synced_document m = do
    d ← gets (λ s. find_document m.document_id s.documents)
    remove_document d
    forget_manifest m
