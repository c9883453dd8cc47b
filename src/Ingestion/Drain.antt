-- ===== src/Ingestion/Drain.antt =====
-- A worker that keeps acquiring jobs leaves none of them queued.
use placement_assistant.Prelude.{
  All-Has, All-replace, any-replace, keep_empty-any, is_some-some, ℕ, ◌+◌, ◌≤◌, true, false, Option,
  none, some, List, [], ◌∷◌, find, any, length, All, Has, Has-keep, Has-map, ==_iff, ◌≡◌, refl, ap,
  arith, Result, ok, Action, ◌>>◌, pure, inl, inr, ◌⊎◌, ltb, ◌==◌, is_some, Option-cases,
}
use placement_assistant.Rag.{Rag, RagJob, RagIngestionRun}
use placement_assistant.Ingestion.Lease.{least-Has, least-none}
use placement_assistant.Ingestion.{
  is_queued, is_available, candidate, leased, with_job, take_job, acquire_job, is_run,
}
use placement_assistant.Ingestion.Remaining.{
  unlocked, is_waiting, remaining, total-replace_strict, exhausted, waiting-IsAvailable,
}

module _ (institution_id lease_seconds : ℕ) where
  -- Acquires a job at each of these times, the first at the head.
  unfoldable pub work : List ℕ → Action Rag Unit
  work [] = pure tt
  work (now ∷ times) = do acquire_job institution_id unlocked now lease_seconds 3; work times

  -- Each job of the institution has its run, as the foreign key demands.
  abbrev pub RunsExist : Rag → Type 0
  RunsExist s =
      All
        (λ j.
          j.institution_id == institution_id ≡ true
          → is_some (find (is_run institution_id j.run_id) s.runs) ≡ true)
        s.jobs

  -- What one acquisition does to the queue.
  record Progress (s t : Rag) (r : Result (Option (RagIngestionRun × RagJob))) : Type 0 where
    returned : (o : Option (RagIngestionRun × RagJob)) × (r ≡ ok o)
    linked : RunsExist t
    nearer :
        (any (is_waiting institution_id) t.jobs ≡ false)
        ⊎ (remaining institution_id t + 1 ≤ remaining institution_id s)
    stays :
        any (is_waiting institution_id) s.jobs ≡ false
        → any (is_waiting institution_id) t.jobs ≡ false

  none_left :
      (now : ℕ) (s : Rag)
      → candidate institution_id unlocked now 3 s ≡ none
      → any (is_waiting institution_id) s.jobs ≡ false
  unfolding candidate
  none_left now s h =
      keep_empty-any (is_available institution_id unlocked now 3) (is_waiting institution_id) s.jobs
        (waiting-IsAvailable institution_id now) (least-none _ _ h)

  available_facts :
      (now : ℕ) (j : RagJob)
      → is_available institution_id unlocked now 3 j ≡ true
      → (j.institution_id == institution_id ≡ true) × (j.attempt ≤ 2)
  unfolding is_available
  available_facts now j h = ground arith

  same_id : (j before : RagJob) → j ≡ before → j.id == before.id ≡ true
  same_id j before same = (==_iff j.id before.id).1 (ap (λ x. x.id) same)

  take_found :
      (now : ℕ) (before : RagJob) (s : Rag) (run : RagIngestionRun)
      → before.attempt ≤ 2
      → find (is_run institution_id before.run_id) s.runs ≡ some run
      → take_job institution_id now lease_seconds (some before) s ≡ (
        ok (some (run, leased institution_id now lease_seconds before)),
        with_job institution_id (leased institution_id now lease_seconds) before s,
      )
  unfolding take_job with_job
  take_found now before s run few there =
      let within : ltb 3 (before.attempt + 1) ≡ false = ground arith in rw (within, there) refl

  leased-IsRunning :
      (now : ℕ) (j : RagJob)
      → (is_waiting institution_id) (leased institution_id now lease_seconds j) ≡ false
  unfolding is_waiting leased is_queued
  leased-IsRunning now j = ground arith

  keeps_run :
      (now : ℕ) (s : Rag) (j : RagJob)
      → (j.institution_id == institution_id ≡ true
          → is_some (find (is_run institution_id j.run_id) s.runs) ≡ true)
      → let k = leased institution_id now lease_seconds j in
        k.institution_id == institution_id ≡ true
        → is_some (find (is_run institution_id k.run_id) s.runs) ≡ true
  unfolding leased
  keeps_run now s j h = h

  after_lease :
      (now : ℕ) (s : Rag) (before : RagJob)
      → RunsExist s
      → Has
          (λ j. (j.id == before.id ≡ true) × (is_available institution_id unlocked now 3 j ≡ true))
          s.jobs
      → let t = with_job institution_id (leased institution_id now lease_seconds) before s in
        RunsExist t
        × (remaining institution_id t + 1 ≤ remaining institution_id s)
        × (any (is_waiting institution_id) s.jobs ≡ false
            → any (is_waiting institution_id) t.jobs ≡ false)
  unfolding with_job
  after_lease now s before exist there = (
    All-replace _ _ _ s.jobs (keeps_run now s) exist,
    total-replace_strict institution_id lease_seconds now (λ j. j.id == before.id) s.jobs there,
    any-replace (is_waiting institution_id) (λ j. j.id == before.id)
        (leased institution_id now lease_seconds) s.jobs (leased-IsRunning now),
  )

  chosen_Holds :
      (now : ℕ) (s : Rag) (before : RagJob)
      → RunsExist s
      → candidate institution_id unlocked now 3 s ≡ some before
      → (before.attempt ≤ 2)
        × ((run : RagIngestionRun) × (find (is_run institution_id before.run_id) s.runs ≡ some run))
        × Has
            (λ j.
              (j.id == before.id ≡ true) × (is_available institution_id unlocked now 3 j ≡ true))
            s.jobs
  unfolding candidate
  chosen_Holds now s before exist h =
      let there =
        Has-keep (λ j. j ≡ before) (is_available institution_id unlocked now 3) s.jobs
          (least-Has _ _ before h) in
      let (run_exists, available) =
        All-Has
          (λ j.
            j.institution_id == institution_id ≡ true
            → is_some (find (is_run institution_id j.run_id) s.runs) ≡ true)
          (λ j. is_available institution_id unlocked now 3 j ≡ true) s.jobs before exist there in
      let (mine, few) = available_facts now before available in
      (
        few,
        is_some-some _ (run_exists mine),
        Has-map (λ j. (j ≡ before) × (is_available institution_id unlocked now 3 j ≡ true))
            (λ j.
              (j.id == before.id ≡ true) × (is_available institution_id unlocked now 3 j ≡ true))
            (λ j (same, free). (same_id j before same, free)) s.jobs there,
      )

  take_nothing :
      (now : ℕ) (s : Rag) → take_job institution_id now lease_seconds none s ≡ (ok none, s)
  unfolding take_job
  take_nothing now s = refl

  idle :
      (s : Rag)
      → RunsExist s
      → any (is_waiting institution_id) s.jobs ≡ false
      → Progress s s (ok none)
  idle s exist drained = record {
    returned = (none, refl);
    linked = exist;
    nearer = inl drained;
    stays = λ h. h;
  }

  acquire-Progress :
      (now : ℕ) (s : Rag)
      → RunsExist s
      → let call = acquire_job institution_id unlocked now lease_seconds 3 s in
        Progress s call.1 call.0
  unfolding acquire_job
  acquire-Progress now s exist = elim (Option-cases (candidate institution_id unlocked now 3 s)) [
    | inl absent ↦ rw (absent, take_nothing now s) (idle s exist (none_left now s absent))
    | inr (before, chosen) ↦
        let (few, (run, there), free) = chosen_Holds now s before exist chosen in
        let (linked, nearer, stays) = after_lease now s before exist free in
        rw (chosen, take_found now before s run few there)
          record {
            returned = (some (run, leased institution_id now lease_seconds before), refl);
            linked = linked;
            nearer = inr nearer;
            stays = stays;
          }
  ]

  work_progress :
      (times : List ℕ) (s : Rag)
      → RunsExist s
      → ((work times s).0 ≡ ok tt)
        × (any (is_waiting institution_id) s.jobs ≡ false
            → any (is_waiting institution_id) (work times s).1.jobs ≡ false)
        × (remaining institution_id s ≤ length times
            → any (is_waiting institution_id) (work times s).1.jobs ≡ false)
  unfolding work
  work_progress [] s exist = (refl, λ h. h, λ h. exhausted institution_id s.jobs (omega (arith, h)))
  work_progress (now ∷ times) s exist =
      let p = acquire-Progress now s exist in
      let t = (acquire_job institution_id unlocked now lease_seconds 3 s).1 in
      let (done, stays, drains) = work_progress times t p.linked in
      rw p.returned.1 (
        done,
        λ h. stays (p.stays h),
        λ enough. elim p.nearer [
          | inl drained ↦ stays drained
          | inr nearer ↦ drains (omega (arith, nearer, enough))
        ],
      )

  -- Where each job has its run, a worker that acquires jobs again and again never fails, whatever the
  -- times, and once it has done so as often as the institution's jobs may still be tried, no job of the
  -- institution with a try left is queued.
  pub work-IsDrained :
      (times : List ℕ) (s : Rag)
      → RunsExist s
      → remaining institution_id s ≤ length times
      → ((work times s).0 ≡ ok tt) × (any (is_waiting institution_id) (work times s).1.jobs ≡ false)
  work-IsDrained times s exist enough =
      let (done, _, drains) = work_progress times s exist in (done, drains enough)
