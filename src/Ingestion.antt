-- ===== src/Ingestion.antt =====
-- apps/api/app/rag/ingestion_repository.py, of one institution: ingestion runs, their jobs with leases,
-- and chunks, with the constraints of infrastructure/models/rag.py and the trigger of
-- apps/api/migrations/versions/3308b9710dbc_m6_durable_ingestion.py. `meanwhile` is what other sessions
-- commit between the search for a run and the insertion of a new one.
mod Terms
pub mod Chunks
pub mod Lease
pub mod Remaining
pub mod Drain
mod Tests
unfoldable pub use Terms.*
use placement_assistant.Prelude.{
  ℕ, ◌+◌, String, Bool, true, false, not, ◌&&◌, ◌||◌, Option, none, some, List, [], ◌∷◌, ◌++◌, find,
  keep, replace, any, Action, ◌>>=◌, ◌>>◌, pure, raise, raise_if, gets, modify, or_raise, evidence,
  database, integrity_error, ltb, leb, ◌==◌, str_eq, is_some, if◌then◌else◌,
}
use placement_assistant.Rag.{
  Rag, RagPolicySource, RagIngestionRun, RunStatus, RagJob, JobStatus, RagChunk,
}
use placement_assistant.BindingService.Triggers.{is_filled, is_hash}

module _ (institution_id : ℕ) where
  unfoldable pub same_run : ℕ → Configuration → RagIngestionRun → Bool
  same_run binding_id c r =
      r.institution_id == institution_id
      && r.binding_id == binding_id
      && r.schema_version == c.schema_version
      && str_eq r.parser_version c.parser_version
      && str_eq r.chunker_version c.chunker_version
      && str_eq r.embedding_configuration c.embedding_configuration

  unfoldable pub is_run : ℕ → RagIngestionRun → Bool
  is_run run_id r = r.institution_id == institution_id && r.id == run_id

  unfoldable pub is_job_of : ℕ → RagJob → Bool
  is_job_of run_id j = j.institution_id == institution_id && j.run_id == run_id

  unfoldable pub refuses_run : ℕ → ℕ → Configuration → Rag → Bool
  refuses_run run_id binding_id c s =
      c.schema_version == 0
      || not (
          is_filled c.parser_version
          && is_filled c.chunker_version
          && is_filled c.embedding_configuration)
      || any (λ r. r.id == run_id) s.runs
      || not (any (λ b. b.institution_id == institution_id && b.id == binding_id) s.policy_sources)

  unfoldable pub insert_run : ℕ → ℕ → Configuration → Action Rag RagIngestionRun
  insert_run run_id binding_id c = do
    present ← gets (λ s. any (same_run binding_id c) s.runs)
    raise_if present (evidence "IDEMPOTENCY_CONFLICT")
    refused ← gets (refuses_run run_id binding_id c)
    raise_if refused integrity_error
    let run : RagIngestionRun = record {
      id = run_id;
      institution_id = institution_id;
      binding_id = binding_id;
      schema_version = c.schema_version;
      parser_version = c.parser_version;
      chunker_version = c.chunker_version;
      embedding_configuration = c.embedding_configuration;
      normalized_artifact_hash = none;
      status = RunStatus.running;
    }
    modify (λ s. record s { runs = s.runs ++ run ∷ [] })
    pure run

  unfoldable pub insert_job : ℕ → ℕ → ℕ → Action Rag RagJob
  insert_job job_id run_id now = do
    refused ← gets (λ s. any (λ j. j.id == job_id) s.jobs || any (is_job_of run_id) s.jobs)
    raise_if refused integrity_error
    let job : RagJob = record {
      id = job_id;
      institution_id = institution_id;
      run_id = run_id;
      status = JobStatus.queued;
      attempt = 0;
      leased_until = none;
      stage = "QUEUED";
      error_code = none;
      recorded_at = now;
    }
    modify (λ s. record s { jobs = s.jobs ++ job ∷ [] })
    pure job

  unfoldable pub enqueue_new :
      (Rag → Rag)
      → ℕ
      → ℕ
      → ℕ
      → ℕ
      → Configuration
      → Option RagIngestionRun
      → Action Rag (RagIngestionRun × RagJob)
  enqueue_new meanwhile run_id job_id now binding_id c none = do
    modify meanwhile
    run ← insert_run run_id binding_id c
    job ← insert_job job_id run.id now
    pure (run, job)
  enqueue_new meanwhile run_id job_id now binding_id c (some run) = do
    found ← gets (λ s. find (is_job_of run.id) s.jobs)
    job ← or_raise (evidence "JOB_NOT_FOUND") found
    pure (run, job)

  unfoldable pub enqueue_run :
      (Rag → Rag)
      → ℕ
      → ℕ
      → ℕ
      → RagPolicySource
      → Configuration
      → Action Rag (RagIngestionRun × RagJob)
  enqueue_run meanwhile run_id job_id now binding c = do
    raise_if (not (binding.institution_id == institution_id)) (evidence "BINDING_NOT_FOUND")
    existing ← gets (λ s. find (same_run binding.id c) s.runs)
    enqueue_new meanwhile run_id job_id now binding.id c existing

  -- A job that `acquire_job` may take; `locked` tells the rows that other workers hold.
  unfoldable pub is_available : (ℕ → Bool) → ℕ → ℕ → RagJob → Bool
  is_available locked now max_attempts j =
      j.institution_id == institution_id
      && ltb j.attempt max_attempts
      && (is_queued j.status || is_running j.status && is_expired now j.leased_until)
      && not (locked j.id)

  unfoldable pub candidate : (ℕ → Bool) → ℕ → ℕ → Rag → Option RagJob
  candidate locked now max_attempts s =
      least (λ j. j.recorded_at) (keep (is_available locked now max_attempts) s.jobs)

  unfoldable pub leased : ℕ → ℕ → RagJob → RagJob
  leased now lease_seconds j = record j {
    status = JobStatus.running;
    attempt = j.attempt + 1;
    leased_until = some (now + lease_seconds);
  }

  unfoldable pub with_job : (RagJob → RagJob) → RagJob → Rag → Rag
  with_job f job s = record s { jobs = replace (λ j. j.id == job.id) f s.jobs }

  unfoldable pub take_job : ℕ → ℕ → Option RagJob → Action Rag (Option (RagIngestionRun × RagJob))
  take_job now lease_seconds none = pure none
  take_job now lease_seconds (some job) = do
    raise_if (ltb 3 (job.attempt + 1)) integrity_error
    modify (with_job (leased now lease_seconds) job)
    found ← gets (λ s. find (is_run job.run_id) s.runs)
    run ← or_raise (evidence "RUN_NOT_FOUND") found
    pure (some (run, leased now lease_seconds job))

  unfoldable pub acquire_job :
      (ℕ → Bool) → ℕ → ℕ → ℕ → Action Rag (Option (RagIngestionRun × RagJob))
  acquire_job locked now lease_seconds max_attempts s =
      take_job now lease_seconds (candidate locked now max_attempts s) s

  unfoldable pub changed : String → JobStatus → String → Option String → RagJob → RagJob
  changed text status stage error_code j = record j {
    status = status;
    stage = stage;
    error_code = error_code;
    leased_until = if ends_lease text then none else j.leased_until;
  }

  unfoldable pub fail_run : Bool → ℕ → Rag → Rag
  fail_run false run_id s = s
  fail_run true run_id s = record s {
    runs = replace (is_run run_id) (λ r. record r { status = RunStatus.failed }) s.runs;
  }

  unfoldable pub update_job : ℕ → String → String → Option String → Action Rag RagJob
  update_job job_id text stage error_code = do
    found ← gets (λ s. find (λ j. j.institution_id == institution_id && j.id == job_id) s.jobs)
    job ← or_raise (evidence "JOB_NOT_FOUND") found
    status ← or_raise integrity_error (job_status text)
    raise_if (not (is_filled stage)) integrity_error
    modify (with_job (changed text status stage error_code) job)
    modify (fail_run (ends_run text) job.run_id)
    pure (changed text status stage error_code job)
