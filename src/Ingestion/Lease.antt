-- ===== src/Ingestion/Lease.antt =====
-- What `acquire_job` takes, and how often.
use placement_assistant.Prelude.{
  false, ◌+◌, ◌<◌, ◌⊎◌, ◌∙◌, sym, ◌&&◌, ◌||◌, ◌==◌, ==_iff, replace, Bool-cases, find-passes,
  find-Has, Has-replace, Has-map, ℕ, ◌≤◌, Bool, true, none, some, List, [], ◌∷◌, find, All, All-map,
  All-keep, Has, Has-keep, ◌≡◌, refl, ap, arith, ok, inl, inr, ltb, if◌then◌else◌, Option-cases,
}
use placement_assistant.Rag.{Rag, RagJob, JobStatus, RagIngestionRun}
use placement_assistant.Ingestion.{
  is_queued, is_running, is_expired, least, is_available, candidate, leased, with_job, take_job,
  acquire_job, is_run,
}

module _ {A : Type 0} (column : A → ℕ) where
  pub least-Has : (xs : List A) (x : A) → least column xs ≡ some x → Has (λ y. y ≡ x) xs
  unfolding least
  least-Has [] x h = cc
  least-Has (y ∷ xs) x h = ground (arith, least-Has xs x)

  pub least-none : (xs : List A) → least column xs ≡ none → xs ≡ []
  unfolding least
  least-none [] h = refl
  least-none (y ∷ xs) h = ground arith

  below :
      (y x z : A) (xs : List A)
      → (if ltb (column z) (column y) then some z else some y) ≡ some x
      → All (λ w. column z ≤ column w) xs
      → (column x ≤ column y) × All (λ w. column x ≤ column w) xs
  below y x z xs h all =
      let lower : column x ≤ column z = ground arith in
      (
        ground arith,
        All-map (λ w. column z ≤ column w) (λ w. column x ≤ column w)
            (λ w at. omega (arith, at, lower)) xs all,
      )

  least-IsLeast :
      (xs : List A) (x : A) → least column xs ≡ some x → All (λ y. column x ≤ column y) xs
  unfolding least
  least-IsLeast [] x h = tt
  least-IsLeast (y ∷ xs) x h = elim (Option-cases (least column xs)) [
    | inl absent ↦
        let same : y ≡ x = ground arith in
        rw (least-none xs absent) (omega (arith, ap column same), tt)
    | inr (z, there) ↦ below y x z xs (rw there at h) (least-IsLeast xs z there)
  ]

passes_of :
    {A : Type 0} (q : A → Bool) (xs : List A) (a : A)
    → Has (λ x. (x ≡ a) × (q x ≡ true)) xs
    → q a ≡ true
passes_of q [] a h = absurd h
passes_of q (x ∷ xs) a (inl (same, passes)) = rw same at passes
passes_of q (x ∷ xs) a (inr later) = passes_of q xs a later

module _ (institution_id : ℕ) (locked : ℕ → Bool) where
  taken :
      (now lease_seconds : ℕ) (before : RagJob) (s t : Rag) (run : RagIngestionRun) (job : RagJob)
      → take_job institution_id now lease_seconds (some before) s ≡ (ok (some (run, job)), t)
      → (job ≡ leased institution_id now lease_seconds before)
        × (job.attempt ≤ 3)
        × (find (is_run institution_id before.run_id) s.runs ≡ some run)
        × (t.jobs
            ≡ replace (λ j. j.id == before.id) (leased institution_id now lease_seconds) s.jobs)
  unfolding take_job leased with_job
  taken now lease_seconds before s t run job h =
      elim (Option-cases (find (is_run institution_id before.run_id) s.runs)) [
        | inl absent ↦ absurd (ground arith)
        | inr (found, there) ↦ ground arith
      ]

  nothing :
      (now lease_seconds : ℕ) (s t : Rag) (pair : RagIngestionRun × RagJob)
      → ¬ (take_job institution_id now lease_seconds none s ≡ (ok (some pair), t))
  unfolding take_job
  nothing now lease_seconds s t pair h = cc (ap (λ p. p.0) h)

  -- Queued, or running on a lease that has ended.
  abbrev pub IsWaiting : ℕ → RagJob → Type 0
  IsWaiting now j =
      (j.status ≡ JobStatus.queued)
      ⊎ ((j.status ≡ JobStatus.running)
          × ((until : ℕ) × (j.leased_until ≡ some until) × (until ≤ now)))

  -- A job that a worker may take.
  pub record IsFree (now max_attempts : ℕ) (j : RagJob) : Type 0 where
    pub institution : j.institution_id ≡ institution_id
    pub attempts : j.attempt < max_attempts
    pub waiting : IsWaiting now j
    pub unlocked : locked j.id ≡ false

  -- What a worker holds of the job that was `before`.
  pub record IsLeased (now lease_seconds : ℕ) (before job : RagJob) : Type 0 where
    pub id : job.id ≡ before.id
    pub institution : job.institution_id ≡ institution_id
    pub run : job.run_id ≡ before.run_id
    pub status : job.status ≡ JobStatus.running
    pub attempt : job.attempt ≡ before.attempt + 1
    pub until : job.leased_until ≡ some (now + lease_seconds)

  pub record IsAcquired (now lease_seconds max_attempts : ℕ) (s t : Rag) (run : RagIngestionRun)
      (job : RagJob) : Type 0 where
    pub before : RagJob
    pub there : Has (λ j. (j ≡ before) × IsFree now max_attempts j) s.jobs
    pub first : All (λ j. IsFree now max_attempts j → before.recorded_at ≤ j.recorded_at) s.jobs
    pub lease : IsLeased now lease_seconds before job
    pub at_most : job.attempt ≤ 3
    pub run_institution : run.institution_id ≡ institution_id
    pub run_id : run.id ≡ job.run_id
    pub run_there : Has (λ r. r ≡ run) s.runs
    pub written : Has (λ j. j ≡ job) t.jobs

  waits_as_said :
      (now : ℕ) (j : RagJob)
      → (is_queued j.status || is_running j.status && is_expired now j.leased_until) ≡ true
      → IsWaiting now j
  unfolding is_queued is_running is_expired
  waits_as_said now j h = elim (Bool-cases (is_queued j.status)) [
    | inl queued ↦ inl (ground arith)
    | inr other ↦
        let running : is_running j.status ≡ true = ground arith in
        elim (Option-cases j.leased_until) [
          | inl absent ↦ absurd (ground arith)
          | inr (until, at) ↦ inr (ground arith, (until, at, ground arith))
        ]
  ]

  waiting_as_said :
      (now : ℕ) (j : RagJob)
      → IsWaiting now j
      → (is_queued j.status || is_running j.status && is_expired now j.leased_until) ≡ true
  unfolding is_queued is_running is_expired
  waiting_as_said now j (inl queued) = rw queued refl
  waiting_as_said now j (inr (running, (until, at, ended))) =
      rw (running, at) (ground (arith, ended))

  available-IsFree :
      (now max_attempts : ℕ) (j : RagJob)
      → is_available institution_id locked now max_attempts j ≡ true
      → IsFree now max_attempts j
  unfolding is_available
  available-IsFree now max_attempts j h = record {
    institution = ground (arith, ==_iff j.institution_id institution_id);
    attempts = ground arith;
    waiting = waits_as_said now j (ground arith);
    unlocked = ground arith;
  }

  IsFree-available :
      (now max_attempts : ℕ) (j : RagJob)
      → IsFree now max_attempts j
      → is_available institution_id locked now max_attempts j ≡ true
  unfolding is_available
  IsFree-available now max_attempts j free =
      rw
        (
          (==_iff j.institution_id institution_id).1 free.institution,
          waiting_as_said now j free.waiting,
          free.unlocked,
        )
        (ground (arith, free.attempts))

  leased-IsLeased :
      (now lease_seconds : ℕ) (before : RagJob)
      → before.institution_id ≡ institution_id
      → IsLeased now lease_seconds before (leased institution_id now lease_seconds before)
  unfolding leased
  leased-IsLeased now lease_seconds before place = record {
    id = refl;
    institution = place;
    run = refl;
    status = refl;
    attempt = refl;
    until = refl;
  }

  institution_of_run :
      (id : ℕ) (r : RagIngestionRun)
      → is_run institution_id id r ≡ true
      → r.institution_id ≡ institution_id
  unfolding is_run
  institution_of_run id r h = ground (arith, ==_iff r.institution_id institution_id)

  id_of_run : (id : ℕ) (r : RagIngestionRun) → is_run institution_id id r ≡ true → r.id ≡ id
  unfolding is_run
  id_of_run id r h = ground (arith, ==_iff r.id id)

  -- What an acquisition returned: a job of the institution that was queued, or running on a lease that
  -- had expired, that no other worker holds and that was tried fewer times than allowed; among these the
  -- one recorded first. It comes back running, tried once more, leased from now for the time asked for,
  -- with its own run of the institution, and the table of jobs has it like this.
  pub acquire_job-IsAvailable :
      (now lease_seconds max_attempts : ℕ) (s t : Rag) (run : RagIngestionRun) (job : RagJob)
      → acquire_job institution_id locked now lease_seconds max_attempts s
        ≡ (ok (some (run, job)), t)
      → IsAcquired now lease_seconds max_attempts s t run job
  unfolding acquire_job candidate
  acquire_job-IsAvailable now lease_seconds max_attempts s t run job h =
      elim (Option-cases (candidate institution_id locked now max_attempts s)) [
        | inl absent ↦ absurd (nothing now lease_seconds s t (run, job) (rw absent at h))
        | inr (before, chosen) ↦
            let (same, few, found, wrote) =
              taken now lease_seconds before s t run job (rw chosen at h) in
            let there =
              Has-keep (λ j. j ≡ before) (is_available institution_id locked now max_attempts)
                s.jobs (least-Has _ _ before chosen) in
            let member =
              Has-map
                (λ j. (j ≡ before) × (is_available institution_id locked now max_attempts j ≡ true))
                (λ j. j ≡ before) (λ j both. both.0) s.jobs there in
            let free = available-IsFree now max_attempts before (
              passes_of (is_available institution_id locked now max_attempts) s.jobs before
                there) in
            let place = find-passes (is_run institution_id before.run_id) s.runs run found in
            let lease = leased-IsLeased now lease_seconds before free.institution in
            record {
              before = before;
              there =
                  Has-map _ (λ j. (j ≡ before) × IsFree now max_attempts j)
                    (λ j (eq, passes). (eq, available-IsFree now max_attempts j passes)) s.jobs
                    there;
              first =
                  All-map _ (λ j. IsFree now max_attempts j → before.recorded_at ≤ j.recorded_at)
                    (λ j earlier free_too. earlier (IsFree-available now max_attempts j free_too))
                    s.jobs
                    (All-keep (λ j. before.recorded_at ≤ j.recorded_at)
                      (is_available institution_id locked now max_attempts) s.jobs
                      (least-IsLeast _ _ before chosen));
              lease = rw same lease;
              at_most = few;
              run_institution = institution_of_run before.run_id run place;
              run_id = id_of_run before.run_id run place ∙ sym (rw same lease.run);
              run_there = find-Has (is_run institution_id before.run_id) s.runs run found;
              written =
                  rw (wrote, same)
                    (Has-replace (λ j. j.id == before.id) (leased institution_id now lease_seconds)
                      before s.jobs ((==_iff before.id before.id).1 refl) member);
            }
      ]
