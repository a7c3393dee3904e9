-- ===== src/Connectors/Prune.antt =====
-- Removing what the source no longer has: api/bigrag/services/connectors/sync/prune_stale.py.
pub mod Ends
pub mod Kept
use bigrag.Base.{
  ℕ, zero, suc, ◌+◌, ◌*◌, String, Bool, true, false, ◌||◌, not, Option, none, some, List, [], ◌∷◌,
  if◌then◌else◌, length, take, keep, ltb, ◌==◌,
}
use bigrag.Base.Result.{Result, ok, err}
use bigrag.Base.Exec.{pure, raise, lift, gets, modify, ◌>>=◌, ◌>>◌, when}
use bigrag.Connectors.{delete_safety, ConnectorDocument, Sync, Method, Services}
use bigrag.Connectors.Files.{delete_synced_document}
use bigrag.Connectors.Pages.{report_totals}

unfoldable pub delete_safety_min_tracked : ℕ
delete_safety_min_tracked = 10

unfoldable pub delete_batch_size : ℕ
delete_batch_size = 200

-- `last_seen_job_id IS DISTINCT FROM job`
abbrev pub seen_by : ℕ → Option ℕ → Bool
seen_by job none = false
seen_by job (some j) = j == job

unfoldable pub is_unseen : ℕ → ConnectorDocument → Bool
is_unseen job m = not (seen_by job m.last_seen_job_id)

abbrev pub unseen : ℕ → Sync → List ConnectorDocument
unseen job s = keep (is_unseen job) s.manifests

unfoldable pub guard_deletion_safety : ℕ → ℕ → ℕ → Method (Unit {0})
unfolding delete_safety_min_tracked
guard_deletion_safety max_percent missing tracked =
    if (missing == 0) || ltb tracked delete_safety_min_tracked
    then pure tt
    else if ltb (tracked * max_percent) (missing * 100)
    then raise delete_safety
    else pure tt

module _ (services : Services) where
  unfoldable pub delete_all : List ConnectorDocument → Method (Unit {0})
  delete_all [] = pure tt
  delete_all (m ∷ stale) = do delete_synced_document services m; delete_all stale

  -- The `while True`, for at most so many rounds: whether it ended.
  unfoldable pub prune_rounds : ℕ → ℕ → Method Bool
  prune_rounds zero job = pure false
  prune_rounds (suc n) job = do
    stale ← gets (λ s. take delete_batch_size (unseen job s))
    elim stale [
      | [] ↦ pure true
      | m ∷ more ↦ do delete_all (m ∷ more); report_totals; prune_rounds n job
    ]

  -- `missing_count`, and whether the loop ended within one round more than that
  unfoldable pub prune_for : ℕ → ℕ → Method (ℕ × Bool)
  prune_for max_percent job = do
    tracked ← gets (λ s. length s.manifests)
    missing_count ← gets (λ s. length (unseen job s))
    guard_deletion_safety max_percent missing_count tracked
    report_totals
    ended ← prune_rounds (suc missing_count) job
    pure (missing_count, ended)

  unfoldable pub prune_stale : ℕ → Method (ℕ × Bool)
  prune_stale max_percent = do job ← gets (λ s. s.job.id); prune_for max_percent job
