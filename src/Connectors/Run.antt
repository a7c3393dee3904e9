-- ===== src/Connectors/Run.antt =====
-- A whole sync job: sync_connector_job of api/bigrag/services/connectors/sync/run.py with
-- lifecycle.py, finalize.py, and status.py and time.py beside them.
pub mod Settled
use bigrag.Base.{
  ℕ, zero, suc, ◌+◌, ◌*◌, max, String, Bool, true, false, ◌&&◌, Option, none, some, List, [], ◌∷◌,
  ◌++◌, if◌then◌else◌, ◌==◌,
}
use bigrag.Base.Result.{Result, ok, err}
use bigrag.Base.Exec.{pure, raise, lift, gets, modify, ◌>>=◌, ◌>>◌, when}
use bigrag.Connectors.{
  SyncFault, queue_full, cancelled, delete_safety, invalid_file, other_error, RemoteConnectorFile,
  ConnectorSyncJob, ConnectorSource, JobStatus, pending, running, complete, failed, SourceStatus,
  idle, syncing, error, Phase, authenticating, scanning, finalizing, closing, failing, deferring,
  Sync, Method, Services,
}
use bigrag.Connectors.Pages.{report_totals, scan_pages}
use bigrag.Connectors.Prune.{prune_stale}

-- `int(source.sync_interval_hours or 24)`
abbrev interval_hours : Option ℕ → ℕ
interval_hours none = 24
interval_hours (some zero) = 24
interval_hours (some (suc n)) = suc n

-- With `from_time`, in seconds.
unfoldable pub next_sync_at : ConnectorSource → ℕ → Option ℕ
next_sync_at source from_time =
    if source.schedule_enabled
    then some (from_time + 3600 * max 1 (interval_hours source.sync_interval_hours))
    else none

abbrev announce : String → Method (Unit {0})
announce event = modify (λ s. record s { events = s.events ++ (event ∷ []) })

unfoldable pub mark_sync_running : Services → ℕ → Method (Unit {0})
mark_sync_running services now = do
  lift (services.commit authenticating)
  modify (λ s. record s {
    job = record s.job { status = running; started_at = some now };
    source = record s.source { status = syncing; last_error = none };
  })
  report_totals
  announce "connector.sync.started"

-- How a job and its source are left. A row has what was written once it is committed; a commit that
-- fails leaves the row as it was.
unfoldable pub settle : ℕ → JobStatus → SourceStatus → Option String → Sync → Sync
settle now status source_status message s = record s {
  job = record s.job {
    status = status;
    error_message = message;
    completed_at = some now;
    totals = s.counters;
  };
  source = record s.source {
    status = source_status;
    last_sync_at = some now;
    next_sync_at = next_sync_at s.source now;
    last_error = message;
  };
}

unfoldable pub fail_sync : Services → ℕ → String → Method (Unit {0})
fail_sync services now message = do
  lift (services.commit failing)
  modify (settle now failed error (some message))
  report_totals
  announce "connector.sync.failed"

unfoldable pub mark_sync_deferred_by_queue : Services → ℕ → Method (Unit {0})
mark_sync_deferred_by_queue services now = do
  lift (services.commit deferring)
  modify (settle now complete idle none)
  report_totals

abbrev pub outcome : ℕ → String → Sync → Sync
outcome now partial_failure s =
    if s.counters.failed == 0
    then settle now complete idle none s
    else settle now failed error (some partial_failure) s

abbrev closing_event : Sync → String
closing_event s =
    if s.counters.failed == 0 then "connector.sync.completed" else "connector.sync.failed"

abbrev pub is_pending : JobStatus → Bool
is_pending pending = true
is_pending _ = false

-- The end of `finalize_sync`.
unfoldable pub report_outcome : Method (Unit {0})
report_outcome = do report_totals; event ← gets closing_event; announce event

module _ (services : Services) where
  unfoldable pub finalize_sync : ℕ → String → Method (Unit {0})
  finalize_sync now partial_failure = do
    lift (services.commit finalizing)
    report_totals
    lift services.recount_collection_documents
    lift (services.commit closing)
    modify (outcome now partial_failure)
    report_outcome

  module _ (now : ℕ) (partial_failure : String) where
    -- The `try` block.
    unfoldable pub run_sync :
        ℕ → ℕ → List (List RemoteConnectorFile) → Result SyncFault (Unit {0}) → Method (Unit {0})
    run_sync download_concurrency max_percent pages end = do
      lift services.ensure_writes_allowed
      lift (services.commit scanning)
      report_totals
      scan_pages services download_concurrency pages end
      missing ← prune_stale services max_percent
      finalize_sync now partial_failure

    abbrev pub end_sync : Result SyncFault (Unit {0}) → Method (Unit {0})
    end_sync (ok u) = pure tt
    end_sync (err cancelled) = do fail_sync services now "Sync cancelled"; raise cancelled
    end_sync (err queue_full) = mark_sync_deferred_by_queue services now
    end_sync (err delete_safety) = fail_sync services now (services.message delete_safety)
    end_sync (err (invalid_file m)) = fail_sync services now (services.message (invalid_file m))
    end_sync (err (other_error m)) = fail_sync services now (services.message (other_error m))

    -- `try` with its handlers
    unfoldable pub run_and_end :
        ℕ → ℕ → List (List RemoteConnectorFile) → Result SyncFault (Unit {0}) → Method (Unit {0})
    run_and_end download_concurrency max_percent pages end s =
        let r = run_sync download_concurrency max_percent pages end s in end_sync r.0 r.1

    -- `collection` tells whether the source's collection is there.
    unfoldable pub start_sync :
        Bool
        → ℕ
        → ℕ
        → List (List RemoteConnectorFile)
        → Result SyncFault (Unit {0})
        → Method (Unit {0})
    start_sync false download_concurrency max_percent pages end = do
      mark_sync_running services now
      fail_sync services now "Collection not found"
    start_sync true download_concurrency max_percent pages end = do
      mark_sync_running services now
      run_and_end download_concurrency max_percent pages end

    -- A job that is not pending, or whose source is gone or another provider's, has no context.
    unfoldable pub sync_connector_job :
        Bool
        → Bool
        → ℕ
        → ℕ
        → List (List RemoteConnectorFile)
        → Result SyncFault (Unit {0})
        → Method (Unit {0})
    sync_connector_job source_found collection download_concurrency max_percent pages end = do
      status ← gets (λ s. s.job.status)
      when (source_found && is_pending status)
          (start_sync collection download_concurrency max_percent pages end)
