-- ===== src/Connectors/Pages/Counted.antt =====
-- The counters of one remote file: it is counted once, as created, updated, skipped or failed.
use bigrag.Base.{
  ℕ, suc, ◌+◌, ◌≤◌, ◌≡◌, Bool, true, false, Option, none, some, String, List, [], ◌∷◌, length,
  length-append, ltb, Bool-cases, inl, inr, arith,
}
use bigrag.Base.Result.{Result, ok, err}
use bigrag.Base.Exec.{modify}
use bigrag.Base.Exec.Triple.{
  Post, Triple, Triple-gets, Triple-lift, Triple-bind, Triple-raise, Triple-pure,
}
use bigrag.Connectors.{
  SyncFault, queue_full, cancelled, delete_safety, invalid_file, other_error, RemoteConnectorFile,
  DownloadedConnectorFile, ConnectorSyncCounters, ConnectorDocument, SyncedDocument, Sync, Services,
  add_error, update_manifest, update_manifest_remote,
}
use bigrag.Connectors.Files.{
  count, set_manifest, set_document, add_document, refile, rename, replace_file, after_enqueue,
  one_skipped, one_created, one_updated, is_current, create_new_synced_document,
  update_synced_document, write_document, enqueue_document, sync_changed_file, sync_downloaded_file,
}
use bigrag.Connectors.Pages.{
  report_totals, known_manifest, loaded_document, handled, sync_file, caught, try_file, mark_page,
}

-- `_processed_count`
abbrev pub processed_count : ConnectorSyncCounters → ℕ
processed_count c = c.created + c.updated + c.skipped + c.failed

module _ (found : ℕ) where
  -- So many files were found, at least `k` are processed, and no more than fifty errors are kept.
  abbrev pub AtLeast : ℕ → ConnectorSyncCounters → Type 0
  AtLeast k c = (k ≤ processed_count c) × (length c.errors ≤ 50) × (c.found ≡ found)

  abbrev pub Done : ℕ → Sync → Type 0
  Done k s = AtLeast k s.counters

  Done-less : (k : ℕ) (s : Sync) → Done (suc k) s → Done k s
  Done-less k s h = (omega (arith, h.0), h.1, h.2)

  add_error-AtLeast :
      (id name text : String) (k : ℕ) (c : ConnectorSyncCounters)
      → AtLeast k c
      → AtLeast (suc k) (add_error id name text c)
  unfolding add_error
  add_error-AtLeast id name text k c h = elim (Bool-cases (ltb (length c.errors) 50)) [
    | inl y ↦ rw y (
      omega (arith, h.0),
      ground (
        arith,
        y,
        length-append c.errors (record { remote_id = id; name = name; error = text } ∷ []),
      ),
      h.2,
    )
    | inr n ↦ rw n (omega (arith, h.0), h.1, h.2)
  ]

  module _ (k : ℕ) where
    counted_one :
        (f : ConnectorSyncCounters → ConnectorSyncCounters)
        → ((c : ConnectorSyncCounters) → AtLeast k c → AtLeast (suc k) (f c))
        → Triple (Done k) (count f) (Done (suc k)) (Done k)
    counted_one f step = record { at = λ s h. step s.counters h }

    created_counts : Triple (Done k) (count one_created) (Done (suc k)) (Done k)
    created_counts = counted_one one_created λ c h. (omega (arith, h.0), h.1, h.2)

    updated_counts : Triple (Done k) (count one_updated) (Done (suc k)) (Done k)
    updated_counts = counted_one one_updated λ c h. (omega (arith, h.0), h.1, h.2)

    skipped_counts : Triple (Done k) (count one_skipped) (Done (suc k)) (Done k)
    skipped_counts = counted_one one_skipped λ c h. (omega (arith, h.0), h.1, h.2)

    handled_counts :
        (remote : RemoteConnectorFile) (text : String) (x : SyncFault)
        → Triple (Done k) (handled remote text x) (Done (suc k)) (Done k)
    handled_counts remote text queue_full = Triple-raise queue_full
    handled_counts remote text cancelled = Triple-raise cancelled
    handled_counts remote text (invalid_file m) =
        counted_one _ (add_error-AtLeast remote.id remote.name text k)
    handled_counts remote text (other_error m) =
        counted_one _ (add_error-AtLeast remote.id remote.name text k)
    handled_counts remote text delete_safety =
        counted_one _ (add_error-AtLeast remote.id remote.name text k)

  -- Writes that leave the counters alone.
  module _ (j : ℕ) (R : Sync → Type 0) where
    set_manifest-quiet :
        (id : String) (f : ConnectorDocument → ConnectorDocument)
        → Triple (Done j) (set_manifest id f) (Done j) R
    set_manifest-quiet id f = record { at = λ s h. h }

    set_document-quiet :
        (id : String) (f : SyncedDocument → SyncedDocument)
        → Triple (Done j) (set_document id f) (Done j) R
    set_document-quiet id f = record { at = λ s h. h }

    add_document-quiet :
        (id key : String) (downloaded : DownloadedConnectorFile)
        → Triple (Done j) (modify {E = SyncFault} (add_document id key downloaded)) (Done j) R
    add_document-quiet id key downloaded = record { at = λ s h. h }

    pub mark_page-quiet :
        (page : List RemoteConnectorFile)
        → Triple (Done j) (modify {E = SyncFault} (mark_page page)) (Done j) R
    mark_page-quiet page = record { at = λ s h. h }

    pub report_totals-quiet : Triple (Done j) report_totals (Done j) R
    report_totals-quiet = record { at = λ s h. h }

  after_enqueue_counts :
      (k : ℕ) (id : String) (r : Result SyncFault (Unit {0}))
      → Triple (Done (suc k)) (after_enqueue id r) (Done (suc k)) (Done k)
  after_enqueue_counts k id (ok u) = record { at = λ s h. h }
  after_enqueue_counts k id (err x) = record { at = λ s h. Done-less k s h }

  module _ (services : Services) (k : ℕ) where
    create_counts :
        (downloaded : DownloadedConnectorFile)
        → Triple (Done k) (create_new_synced_document services downloaded) (Done (suc k)) (Done k)
    unfolding create_new_synced_document
    create_counts downloaded =
        Triple-bind {Q = Done k} _ _ (Triple-gets (λ s. services.uuid7 (length s.documents))) λ id.
          let key = services.storage_key id downloaded.file_ext in
          Triple-bind _ _ (Triple-lift (services.put_stream key downloaded)) λ _.
            Triple-bind _ _ (add_document-quiet k (Done k) id key downloaded)
              λ _. Triple-bind _ _ (created_counts k) λ _. Triple-pure id

    update_counts :
        (d : SyncedDocument) (downloaded : DownloadedConnectorFile)
        → Triple (Done k) (update_synced_document services d downloaded) (Done (suc k)) (Done k)
    unfolding update_synced_document
    update_counts d downloaded =
        let key = services.storage_key d.id downloaded.file_ext in
        Triple-bind _ _ (Triple-lift (services.cancel_documents d.id)) λ _.
          Triple-bind _ _ (Triple-lift (services.delete_by_document d.id)) λ _.
            Triple-bind _ _ (Triple-lift (services.put_stream key downloaded)) λ _.
              Triple-bind _ _ (Triple-lift (replace_file services d.file_path key)) λ _.
                Triple-bind _ _ (set_document-quiet k (Done k) d.id (refile key downloaded)) λ _.
                  Triple-bind _ _
                    (set_manifest-quiet k (Done k) downloaded.remote.id
                      (update_manifest downloaded))
                    λ _. Triple-bind _ _ (updated_counts k) λ _. Triple-pure d.id

    write_counts :
        (d : Option SyncedDocument) (downloaded : DownloadedConnectorFile)
        → Triple (Done k) (write_document services d downloaded) (Done (suc k)) (Done k)
    unfolding write_document
    write_counts none downloaded = create_counts downloaded
    write_counts (some d) downloaded = update_counts d downloaded

    enqueue_counts :
        (id : String) → Triple (Done (suc k)) (enqueue_document services id) (Done (suc k)) (Done k)
    unfolding enqueue_document
    enqueue_counts id = after_enqueue_counts k id (services.enqueue id)

    changed_counts :
        (d : Option SyncedDocument) (downloaded : DownloadedConnectorFile)
        → Triple (Done k) (sync_changed_file services d downloaded) (Done (suc k)) (Done k)
    unfolding sync_changed_file
    changed_counts d downloaded =
        Triple-bind _ _ (Triple-lift (services.validate_upload downloaded)) λ _.
          Triple-bind _ _ (Triple-lift (services.prepare_document_metadata downloaded.remote))
            λ _. Triple-bind _ _ (write_counts d downloaded) λ id. enqueue_counts id

    sync_downloaded_counts :
        (m : Option ConnectorDocument) (d : Option SyncedDocument)
        (downloaded : DownloadedConnectorFile)
        → Triple (Done k) (sync_downloaded_file services m d downloaded) (Done (suc k)) (Done k)
    unfolding sync_downloaded_file
    sync_downloaded_counts m d downloaded = elim (Bool-cases (is_current m d downloaded)) [
      | inl y ↦ rw y (
          Triple-bind _ _ (skipped_counts k) λ _.
            set_manifest-quiet (suc k) (Done k) downloaded.remote.id (rename downloaded.remote))
      | inr n ↦ rw n (changed_counts d downloaded)
    ]

    sync_file_counts :
        (known loaded : List String) (skipped : Bool) (remote : RemoteConnectorFile)
        → Triple (Done k) (sync_file services known loaded skipped remote) (Done (suc k)) (Done k)
    unfolding sync_file
    sync_file_counts known loaded true remote =
        Triple-bind _ _ (set_manifest-quiet k (Done k) remote.id (update_manifest_remote remote))
          λ _. skipped_counts k
    sync_file_counts known loaded false remote =
        Triple-bind {Q = Done k} _ _ (Triple-lift (services.download remote)) λ downloaded.
          Triple-bind {Q = Done k} _ _ (Triple-gets (known_manifest known remote.id)) λ m.
            Triple-bind {Q = Done k} _ _ (Triple-gets (loaded_document loaded m))
              λ d. sync_downloaded_counts m d downloaded

    caught_counts :
        (known : List String) (remote : RemoteConnectorFile) (r : Result SyncFault (Unit {0}))
        (s : Sync)
        → Post (Done (suc k)) (Done k) r s
        → Post
            (Done (suc k))
            (Done k)
            (caught services known remote (r, s)).0
            (caught services known remote (r, s)).1
    caught_counts known remote (ok u) s h = h
    caught_counts known remote (err x) s h = (handled_counts k remote (services.message x) x).at s h

    pub try_file_counts :
        (known loaded : List String) (skipped : Bool) (remote : RemoteConnectorFile)
        → Triple (Done k) (try_file services known loaded skipped remote) (Done (suc k)) (Done k)
    unfolding try_file
    try_file_counts known loaded skipped remote = record {
      at = λ s h.
          let r = sync_file services known loaded skipped remote s in
          caught_counts known remote r.0 r.1
            ((sync_file_counts known loaded skipped remote).at s h);
    }
