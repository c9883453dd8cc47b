-- ===== src/Ingestion/Tests.antt =====
-- Two jobs, one queued and one whose lease has expired.
use placement_assistant.Prelude.{
  ℕ, false, [], ◌∷◌, some, none, ok, err, integrity_error, evidence, ◌≡◌, refl, ap, arith, any,
  find, keep, replace,
}
use placement_assistant.Rag.{Rag, RagJob, RagIngestionRun, JobStatus, RunStatus}
use placement_assistant.Rag.Sample.{no_evidence}
use placement_assistant.Ingestion.Lease.{IsAcquired, acquire_job-IsAvailable}
use placement_assistant.Ingestion.Drain.{work, work-IsDrained, RunsExist}
use placement_assistant.Ingestion.Remaining.{is_waiting}
use placement_assistant.Ingestion.{
  is_queued, is_running, is_expired, least, job_status, ends_lease, ends_run, same_run, is_run,
  is_job_of, refuses_run, insert_run, insert_job, enqueue_new, enqueue_run, is_available, candidate,
  leased, with_job, take_job, acquire_job, changed, fail_run, update_job,
}
use placement_assistant.BindingService.Triggers.{is_filled}

-- Stands for all the definitions that a run computes with.
unfoldable everything : Unit {0}
unfolding is_queued is_running is_expired least job_status ends_lease ends_run same_run is_run
    is_job_of refuses_run insert_run insert_job enqueue_new enqueue_run is_available candidate
    leased with_job take_job acquire_job changed fail_run update_job is_filled any find keep replace
everything = tt

abbrev run : ℕ → RagIngestionRun
run id = record {
  id = id;
  institution_id = 1;
  binding_id = 60;
  schema_version = 1;
  parser_version = "p1";
  chunker_version = "c1";
  embedding_configuration = "e1";
  normalized_artifact_hash = none;
  status = RunStatus.running;
}

abbrev job : ℕ → JobStatus → ℕ → RagJob
job id status attempt = record {
  id = id;
  institution_id = 1;
  run_id = id;
  status = status;
  attempt = attempt;
  leased_until = some 100;
  stage = "QUEUED";
  error_code = none;
  recorded_at = id;
}

abbrev queue : Rag
queue = record no_evidence {
  runs = run 8 ∷ run 9 ∷ [];
  jobs = job 8 JobStatus.running 2 ∷ job 9 JobStatus.queued 0 ∷ [];
}

run_acquire :
    (acquire_job 1 (λ _. false) 200 900 3 queue).0
    ≡ ok (some (run 8, leased 1 200 900 (job 8 JobStatus.running 2)))
unfolding everything
run_acquire = refl

-- A live lease is left alone.
run_live :
    (acquire_job 1 (λ _. false) 50 900 3 queue).0
    ≡ ok (some (run 9, leased 1 50 900 (job 9 JobStatus.queued 0)))
unfolding everything
run_live = refl

run_failed :
    (update_job 1 9 "FAILED" "PARSE" (some "BAD") queue).1.runs
    ≡ run 8 ∷ record (run 9) { status = RunStatus.failed } ∷ []
unfolding everything
run_failed = refl

-- The constraint of the status column has no COMPLETED.
run_completed : (update_job 1 9 "COMPLETED" "DONE" none queue).0 ≡ err integrity_error
unfolding everything
run_completed = refl

run_missing : (update_job 1 10 "FAILED" "PARSE" none queue).0 ≡ err (evidence "JOB_NOT_FOUND")
unfolding everything
run_missing = refl

acquire_job-IsAvailable_example :
    IsAcquired 1
      (λ _. false)
      200
      900
      3
      queue
      (acquire_job 1 (λ _. false) 200 900 3 queue).1
      (run 8)
      (leased 1 200 900 (job 8 JobStatus.running 2))
acquire_job-IsAvailable_example =
    acquire_job-IsAvailable 1 (λ _. false) 200 900 3 queue
      (acquire_job 1 (λ _. false) 200 900 3 queue).1 (run 8)
      (leased 1 200 900 (job 8 JobStatus.running 2))
      (ap (λ r. (r, (acquire_job 1 (λ _. false) 200 900 3 queue).1)) run_acquire)

queue-RunsExist : RunsExist 1 900 queue
unfolding everything
queue-RunsExist = (λ _. refl, (λ _. refl, tt))

work-IsDrained_example :
    ((work 1 900 (200 ∷ 200 ∷ 1100 ∷ 2000 ∷ []) queue).0 ≡ ok tt)
    × (any (is_waiting 1) (work 1 900 (200 ∷ 200 ∷ 1100 ∷ 2000 ∷ []) queue).1.jobs ≡ false)
work-IsDrained_example =
    work-IsDrained 1 900 (200 ∷ 200 ∷ 1100 ∷ 2000 ∷ []) queue queue-RunsExist (omega arith)
