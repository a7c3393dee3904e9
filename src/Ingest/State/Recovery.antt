-- ===== src/Ingest/State/Recovery.antt =====
-- Recovery takes the jobs whose lease has run out, and no others.
use bigrag.Base.{
  String, ◌≡◌, refl, ap, Bool, not, List, [], ◌∷◌, keep, map, Bool-cases, inl, inr, ◌∙◌, ◌⊎◌,
}
use bigrag.Base.Result.{Result, ok, err}
use bigrag.Ingest.Types.{IngestionJob, Failure, State, Decoded, decoded, malformed, uncaught, Codec}
use bigrag.Ingest.State.{
  processing_lease_active, prepend_job, parse_processing, recover_parsed, recover_after,
  recover_stuck_jobs, remove_one,
}

abbrev pub map_ok : {A B : Type 0} → (A → B) → Result Failure A → Result Failure B
map_ok f (ok a) = ok (f a)
map_ok f (err e) = err e

abbrev with_job :
    IngestionJob → Result Failure (List IngestionJob) → Result Failure (List IngestionJob)
with_job job (ok jobs) = ok (job ∷ jobs)
with_job job (err e) = err e

Decoded-cases :
    (d : Decoded)
    → (d ≡ malformed)
      ⊎ ((e : Failure) × (d ≡ uncaught e))
      ⊎ ((job : IngestionJob) × (d ≡ decoded job))
Decoded-cases malformed = inl refl
Decoded-cases (uncaught e) = inr (inl (e, refl))
Decoded-cases (decoded job) = inr (inr (job, refl))

module _ (codec : Codec) where
  -- The jobs of the payloads that are read, in their order, or the first exception that is none of
  -- the three.
  abbrev pub jobs_of : List String → Result Failure (List IngestionJob)
  jobs_of [] = ok []
  jobs_of (raw ∷ raws) =
      let rest = jobs_of raws in
      elim (codec.deserialize raw) [
        | malformed ↦ rest
        | uncaught e ↦ err e
        | decoded job ↦ with_job job rest
      ]

  abbrev pub expired : State → IngestionJob → Bool
  expired s job = not (processing_lease_active s job.job_id)

  abbrev job_of : String × IngestionJob → IngestionJob
  job_of (raw, job) = job

  prepend_job-map :
      (raw : String) (job : IngestionJob)
      (r : List String × Result Failure (List (String × IngestionJob)))
      → map_ok (map job_of) (prepend_job codec (raw, job) r).1
        ≡ with_job job (map_ok (map job_of) r.1)
  prepend_job-map raw job (kept, ok parsed) = refl
  prepend_job-map raw job (kept, err e) = refl

  parse_processing-jobs_of :
      (raws listed : List String)
      → map_ok (map job_of) (parse_processing codec raws listed).1 ≡ jobs_of raws
  unfolding parse_processing
  parse_processing-jobs_of [] listed = refl
  parse_processing-jobs_of (raw ∷ raws) listed = elim (Decoded-cases (codec.deserialize raw)) [
    | inl m ↦ rw (m, map_ok, jobs_of) (parse_processing-jobs_of raws (remove_one raw listed))
    | inr (inl (e, u)) ↦ rw (u, map_ok, jobs_of) refl
    | inr (inr (job, d)) ↦
        rw (d, map_ok, jobs_of)
          (prepend_job-map raw job (parse_processing codec raws listed)
            ∙ ap (with_job job) (parse_processing-jobs_of raws listed))
  ]

  recover_parsed-keep :
      (s : State) (parsed : List (String × IngestionJob)) (listed : List String)
      → (recover_parsed codec s parsed listed).1 ≡ keep (expired s) (map job_of parsed)
  unfolding recover_parsed
  recover_parsed-keep s [] listed = refl
  recover_parsed-keep s ((raw, job) ∷ parsed) listed =
      elim (Bool-cases (processing_lease_active s job.job_id)) [
        | inl y ↦ rw (y, keep) (recover_parsed-keep s parsed listed)
        | inr n ↦
            rw (n, keep)
              (ap (λ js. job ∷ js) (recover_parsed-keep s parsed (remove_one raw listed)))
      ]

  recover_after-keep :
      (s : State) (listed : List String) (r : Result Failure (List (String × IngestionJob)))
      → (recover_after codec s listed r).0 ≡ map_ok (keep (expired s)) (map_ok (map job_of) r)
  recover_after-keep s listed (ok parsed) = ap ok (recover_parsed-keep s parsed listed)
  recover_after-keep s listed (err e) = refl

  -- If a payload on the processing list raises anything but a ValueError, a TypeError or a KeyError
  -- when it is read, then recovery raises the first such exception; else it returns exactly the jobs
  -- on the list whose lease is not active, in the list's order, and the payloads that raise one of
  -- the three yield no job.
  pub recover_stuck_jobs-keep :
      (s : State)
      → (recover_stuck_jobs codec s).0 ≡ map_ok (keep (expired s)) (jobs_of s.processing_list)
  unfolding recover_stuck_jobs
  recover_stuck_jobs-keep s =
      let (listed, parsed) = parse_processing codec s.processing_list s.processing_list in
      recover_after-keep s listed parsed
      ∙ ap (map_ok (keep (expired s)))
          (parse_processing-jobs_of s.processing_list s.processing_list)
