-- ===== src/Ingest/State.antt =====
-- Admission, leases, epochs and recovery in Redis: api/bigrag/services/queue_state.py.
pub mod Recovery
use Prim.Native.String.{◌++◌ as text_append}
use bigrag.Base.{
  ℕ, suc, ◌+◌, ◌-◌, String, Bool, true, false, not, Option, none, some, List, [], ◌∷◌, text_eq, ltb,
  leb, ◌==◌, if◌then◌else◌, length,
}
use bigrag.Base.Result.{Result, ok, err, ◌>>=◌}
use bigrag.Base.Counters.{Counters, find, value, bump}
use bigrag.Base.Exec.{modify}
use bigrag.Ingest.Types.{
  IngestionJob, Failure, cancelled, pos, State, Ingest, Decoded, decoded, malformed, uncaught,
  Codec,
}

-- `LEASE_TTL_SECONDS` and `LEASE_ACTIVE_MIN_TTL_SECONDS`
abbrev pub lease_ttl_seconds : ℕ
lease_ttl_seconds = 1800

abbrev pub lease_active_min_ttl_seconds : ℕ
lease_active_min_ttl_seconds = 1560

-- INCR, and DECR again where the result is past the depth. Without Redis all is admitted.
unfoldable pub admit_inflight : ℕ → Ingest Bool
admit_inflight max_depth s =
    if not s.connected
    then (ok true, s)
    else let current = s.inflight + 1 in
      if ltb max_depth current
      then (ok false, record s { inflight = current - 1 })
      else (ok true, record s { inflight = current })

-- DECR, and SET to 0 where the result is below 0.
unfoldable pub release_inflight : Ingest Unit
release_inflight s =
    if not s.connected
    then (ok tt, s)
    else if s.inflight == 0
    then (ok tt, record s { inflight = 0 })
    else (ok tt, record s { inflight = s.inflight - 1 })

-- Whether a lease that ends at `t` still has its minimum to run; a missing key has a TTL of -2.
abbrev pub is_active : ℕ → Option ℕ → Bool
is_active now none = false
is_active now (some t) = leb lease_active_min_ttl_seconds (t - now)

unfoldable pub processing_lease_active : State → String → Bool
unfolding find
processing_lease_active s job_id = is_active s.now (find job_id s.leases)

-- LREM of one occurrence
unfoldable pub remove_one : String → List String → List String
remove_one raw [] = []
remove_one raw (x ∷ xs) = if text_eq x raw then xs else x ∷ remove_one raw xs

module _ (codec : Codec) where
  -- The first loop, at a payload: one that is malformed is dropped from the list, any other exception
  -- leaves the loop.
  abbrev pub prepend_job :
      String × IngestionJob
      → List String × Result Failure (List (String × IngestionJob))
      → List String × Result Failure (List (String × IngestionJob))
  prepend_job item (kept, ok parsed) = (kept, ok (item ∷ parsed))
  prepend_job item (kept, err e) = (kept, err e)

  unfoldable pub parse_processing :
      List String → List String → List String × Result Failure (List (String × IngestionJob))
  unfolding remove_one
  parse_processing [] listed = (listed, ok [])
  parse_processing (raw ∷ raws) listed =
      let dropped = parse_processing raws (remove_one raw listed) in
      let more = parse_processing raws listed in
      elim (codec.deserialize raw) [
        | malformed ↦ dropped
        | uncaught e ↦ (listed, err e)
        | decoded job ↦ prepend_job (raw, job) more
      ]

  -- The second loop: jobs with no active lease leave the list and are recovered.
  unfoldable pub recover_parsed :
      State → List (String × IngestionJob) → List String → List String × List IngestionJob
  unfolding processing_lease_active remove_one
  recover_parsed s [] listed = (listed, [])
  recover_parsed s ((raw, job) ∷ parsed) listed =
      let active = recover_parsed s parsed listed in
      let (kept, recovered) = recover_parsed s parsed (remove_one raw listed) in
      if processing_lease_active s job.job_id then active else (kept, job ∷ recovered)

  abbrev count_recovered : List IngestionJob → List String → State → State
  count_recovered [] listed s = record s { processing_list = listed }
  count_recovered (j ∷ js) listed s = record s {
    processing_list = listed;
    stats = record s.stats { processing = pos (length listed) };
  }

  abbrev pub recover_after :
      State
      → List String
      → Result Failure (List (String × IngestionJob))
      → Result Failure (List IngestionJob) × State
  recover_after s listed (err e) = (err e, record s { processing_list = listed })
  recover_after s listed (ok parsed) =
      let (kept, recovered) = recover_parsed s parsed listed in
      (ok recovered, count_recovered recovered kept s)

  unfoldable pub recover_stuck_jobs : Ingest (List IngestionJob)
  unfolding parse_processing recover_parsed
  recover_stuck_jobs s =
      let (listed, parsed) = parse_processing s.processing_list s.processing_list in
      recover_after s listed parsed

-- `collection_epoch` and `document_epoch`: 0 without Redis and without a key
abbrev pub epoch_value : State → String → Counters → ℕ
epoch_value s key epochs = if not s.connected then 0 else value key epochs

unfoldable pub collection_epoch : State → String → ℕ
unfolding value
collection_epoch s name = epoch_value s name s.collection_epochs

unfoldable pub document_epoch : State → String → ℕ
unfolding value
document_epoch s id = epoch_value s id s.document_epochs

abbrev pub quoted : String → String → String
quoted before name = text_append (text_append before name) "'"

-- A job is current while the epochs are those that it was queued with.
unfoldable pub ensure_job_current : IngestionJob → Ingest Unit
unfolding collection_epoch document_epoch
ensure_job_current job s =
    if not (collection_epoch s job.collection_name == job.collection_epoch)
    then (err (cancelled (quoted "Ingestion cancelled for collection '" job.collection_name)), s)
    else if not (document_epoch s job.document_id == job.document_epoch)
    then (err (cancelled (quoted "Ingestion cancelled for document '" job.document_id)), s)
    else (ok tt, s)

unfoldable pub cancel_collection_jobs : String → Ingest Unit
unfolding bump
cancel_collection_jobs name =
    modify (λ s. record s { collection_epochs = bump name s.collection_epochs })

unfoldable pub bump_all : List String → Counters → Counters
unfolding bump
bump_all [] c = c
bump_all (d ∷ ds) c = bump_all ds (bump d c)

unfoldable pub cancel_document_jobs : List String → Ingest Unit
unfolding bump_all
cancel_document_jobs ids =
    modify (λ s. record s { document_epochs = bump_all ids s.document_epochs })

-- The counts of leased and of stale entries in `queue_stats`.
abbrev one_more : Bool → Result Failure (ℕ × ℕ) → Result Failure (ℕ × ℕ)
one_more active (err e) = err e
one_more true (ok (leased, stale)) = ok (suc leased, stale)
one_more false (ok (leased, stale)) = ok (leased, suc stale)

unfoldable pub count_leases : Codec → State → List String → Result Failure (ℕ × ℕ)
unfolding processing_lease_active
count_leases codec s [] = ok (0, 0)
count_leases codec s (raw ∷ raws) =
    let rest = count_leases codec s raws in
    elim (codec.deserialize raw) [
      | malformed ↦ one_more false rest
      | uncaught e ↦ err e
      | decoded job ↦ one_more (processing_lease_active s job.job_id) rest
    ]

pub record QueueStats : Type 0 where
  pub queued : ℕ
  pub completed : ℕ
  pub failed : ℕ
  pub processing : ℕ
  pub dead_lettered : ℕ
  pub leased_processing : ℕ
  pub stale_processing : ℕ

abbrev stats_of : State → ℕ × ℕ → QueueStats
stats_of s (leased, stale) = record {
  queued = s.stats.queued;
  completed = s.stats.completed;
  failed = s.stats.failed;
  processing = length s.processing_list;
  dead_lettered = length s.dead;
  leased_processing = leased;
  stale_processing = stale;
}

unfoldable pub queue_stats : Codec → State → Result Failure QueueStats
unfolding count_leases
queue_stats codec s = do leases ← count_leases codec s s.processing_list; ok (stats_of s leases)
