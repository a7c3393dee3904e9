-- ===== src/Connectors/Pages/Processed.antt =====
-- The counters of a scan: every file that was found is processed, and few errors are kept.
use bigrag.Base.{
  ℕ, suc, ◌+◌, ◌≤◌, refl, String, List, [], ◌∷◌, ◌++◌, length, map, length-append, ◌==◌, any_of,
  text_eq, max, Bool-cases, inl, inr, arith,
}
use bigrag.Base.Result.{Result, ok, err}
use bigrag.Base.Exec.{lift}
use bigrag.Base.Exec.Triple.{Post, Triple, Triple-gets, Triple-bind, Triple-weaken}
use bigrag.Connectors.{SyncFault, RemoteConnectorFile, Sync, Services}
use bigrag.Connectors.Pages.{
  skipped_remote_ids, batch_document_ids, manifest_remote_id, sync_files, sync_batch, last_batch,
  sync_batches, sync_page, sync_listed, scan_page, scan_pages,
}
use bigrag.Connectors.Pages.Counted.{
  processed_count, Done, try_file_counts, report_totals-quiet, mark_page-quiet,
}

module _ (found : ℕ) where
  -- Whatever came of it, few errors are kept.
  abbrev pub FewErrors : Sync → Type 0
  FewErrors s = Done found 0 s

  Done-more : (j k : ℕ) (s : Sync) → j ≤ k → Done found k s → Done found j s
  Done-more j k s e h = (omega (arith, e, h.0), h.1, h.2)

  module _ (services : Services) (known : List String) where
    sync_files_count :
        (loaded skipped : List String) (batch : List RemoteConnectorFile) (k : ℕ)
        → Triple
            (Done found k)
            (sync_files services known loaded skipped batch)
            (Done found (k + length batch))
            FewErrors
    unfolding sync_files
    sync_files_count loaded skipped [] k = record {
      at = λ s h. Done-more (k + 0) k s (omega arith) h;
    }
    sync_files_count loaded skipped (r ∷ batch) k =
        Triple-bind _ _
          (Triple-weaken
            (try_file_counts found services k known loaded (any_of (text_eq r.id) skipped) r)
            (λ t h. h) (λ t h. Done-more 0 k t (omega arith) h))
          λ _.
            Triple-weaken (sync_files_count loaded skipped batch (suc k))
              (λ t h. Done-more (k + suc (length batch)) (suc k + length batch) t (omega arith) h)
              (λ t h. h)

    sync_batch_counts :
        (batch : List RemoteConnectorFile) (k : ℕ)
        → Triple
            (Done found k)
            (sync_batch services known batch)
            (Done found (k + length batch))
            FewErrors
    unfolding sync_batch
    sync_batch_counts batch k =
        Triple-bind {Q = Done found k} _ _ (Triple-gets (λ s. batch_document_ids known s batch))
          λ loaded.
            Triple-bind {Q = Done found k} _ _ (Triple-gets (λ s. skipped_remote_ids known s batch))
              λ skipped.
                Triple-bind _ _ (sync_files_count loaded skipped batch k)
                  λ _. report_totals-quiet found (k + length batch) FewErrors

    last_batch_counts :
        (batch : List RemoteConnectorFile) (k : ℕ)
        → Triple
            (Done found k)
            (last_batch services known batch)
            (Done found (k + length batch))
            FewErrors
    last_batch_counts [] k = record { at = λ s h. Done-more (k + 0) k s (omega arith) h }
    last_batch_counts (r ∷ batch) k = sync_batch_counts (r ∷ batch) k

    sync_batches_count :
        (size : ℕ) (waiting remotes : List RemoteConnectorFile) (k : ℕ)
        → Triple
            (Done found k)
            (sync_batches services known size waiting remotes)
            (Done found (k + (length waiting + length remotes)))
            FewErrors
    unfolding sync_batches
    sync_batches_count size waiting [] k =
        Triple-weaken (last_batch_counts waiting k)
          (λ t h. Done-more _ (k + length waiting) t (omega arith) h) (λ t h. h)
    sync_batches_count size waiting (r ∷ remotes) k =
        let longer = length-append waiting (r ∷ []) in
        elim (Bool-cases (length (waiting ++ (r ∷ [])) == size)) [
          | inl y ↦ rw y (
              Triple-bind _ _ (sync_batch_counts (waiting ++ (r ∷ [])) k) λ _.
                Triple-weaken
                  (sync_batches_count size [] remotes (k + length (waiting ++ (r ∷ []))))
                  (λ t h. Done-more _ _ t (omega (arith, longer)) h) (λ t h. h))
          | inr n ↦ rw n (
              Triple-weaken (sync_batches_count size (waiting ++ (r ∷ [])) remotes k)
                (λ t h. Done-more _ _ t (omega (arith, longer)) h) (λ t h. h))
        ]

  sync_page_counts :
      (services : Services) (known : List String) (size : ℕ) (remotes : List RemoteConnectorFile)
      (k : ℕ)
      → Triple
          (Done found k)
          (sync_page services known size remotes)
          (Done found (k + length remotes))
          FewErrors
  unfolding sync_page
  sync_page_counts services known size remotes k =
      Triple-weaken (sync_batches_count services known (max 1 size) [] remotes k)
        (λ t h. Done-more _ _ t (omega arith) h) (λ t h. h)

  sync_listed_counts :
      (services : Services) (size : ℕ) (page : List RemoteConnectorFile) (k : ℕ)
      → Triple
          (Done found k)
          (sync_listed services size page)
          (Done found (k + length page))
          FewErrors
  unfolding sync_listed
  sync_listed_counts services size page k =
      Triple-bind {Q = Done found k} _ _ (Triple-gets (λ s. map manifest_remote_id s.manifests))
        λ known. Triple-bind _ _ (sync_page_counts services known size page k) λ _.
          Triple-bind _ _ (mark_page-quiet found (k + length page) FewErrors page)
            λ _. report_totals-quiet found (k + length page) FewErrors

-- Every file that was found is created, updated, skipped or failed.
abbrev pub IsProcessed : Sync → Type 0
IsProcessed s = (s.counters.found ≤ processed_count s.counters) × (length s.counters.errors ≤ 50)

-- At most fifty errors are kept.
abbrev pub IsShort : Sync → Type 0
IsShort s = length s.counters.errors ≤ 50

module _ (services : Services) (size : ℕ) where
  scan_page-IsProcessed :
      (page : List RemoteConnectorFile)
      → Triple IsProcessed (scan_page services size page) IsProcessed IsShort
  unfolding scan_page
  scan_page-IsProcessed page = record {
    at = λ s h.
        let f = s.counters.found + length page in
        (Triple-weaken {U = IsProcessed} {T = IsShort}
            (sync_listed_counts f services size page s.counters.found)
            (λ t g. (omega (arith, g.0, g.2), g.1)) (λ t g. g.1)).at
          _ (h.0, h.1, refl);
  }

  scan_end : (end : Result SyncFault (Unit {0})) → Triple IsProcessed (lift end) IsProcessed IsShort
  scan_end (ok u) = record { at = λ s h. h }
  scan_end (err x) = record { at = λ s h. h.1 }

  scan_counts :
      (pages : List (List RemoteConnectorFile)) (end : Result SyncFault (Unit {0}))
      → Triple IsProcessed (scan_pages services size pages end) IsProcessed IsShort
  unfolding scan_pages
  scan_counts [] end = scan_end end
  scan_counts (page ∷ pages) end =
      Triple-bind _ _ (scan_page-IsProcessed page) λ _. scan_counts pages end

  -- Started with no more files found than processed and at most fifty errors, a scan of any pages that
  -- comes back has processed every file it found, in whatever batches, and keeps at most fifty errors;
  -- it keeps no more if an exception ends it.
  pub scan_pages-IsProcessed :
      (pages : List (List RemoteConnectorFile)) (end : Result SyncFault (Unit {0})) (s : Sync)
      → IsProcessed s
      → Post IsProcessed IsShort
          (scan_pages services size pages end s).0
          (scan_pages services size pages end s).1
  scan_pages-IsProcessed pages end s h = (scan_counts pages end).at s h
