-- ===== src/Connectors/Run/Settled.antt =====
-- How a sync leaves its job and its source.
use bigrag.Base.{ℕ, ◌≡◌, ◌⊎◌, some}
use bigrag.Base.Result.{Result, ok, err}
use bigrag.Base.Exec.Triple.{Triple}
use bigrag.Connectors.{
  SyncFault, cancelled, complete, failed, idle, error, authenticating, failing, deferring, Sync,
  Services,
}

-- The job is over since `now`, and the source agrees.
abbrev pub IsSettled : ℕ → Sync → Type 0
IsSettled now s =
    (s.job.completed_at ≡ some now)
    × (((s.job.status ≡ complete) × (s.source.status ≡ idle))
        ⊎ ((s.job.status ≡ failed) × (s.source.status ≡ error)))

abbrev Anything : Sync → Type 0
Anything s = Unit

-- What a job reports when it is over.
abbrev pub IsOver : ℕ → Result SyncFault (Unit {0}) × Sync → Type 0
IsOver now (r, s) = IsSettled now s × ((r ≡ ok tt) ⊎ (r ≡ err cancelled))

-- The commits that tell that a sync runs, failed or was put off go through.
pub record Commits (services : Services) : Type 0 where
  pub authenticating_goes : services.commit authenticating ≡ ok tt
  pub failing_goes : services.commit failing ≡ ok tt
  pub deferring_goes : services.commit deferring ≡ ok tt
