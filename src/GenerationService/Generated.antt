-- ===== src/GenerationService/Generated.antt =====
-- A generation as a whole.
use placement_assistant.Prelude.{
  ℕ, String, Bool, true, false, not, Option, none, some, [], ◌∷◌, ◌++◌, find, length, ◌≡◌, refl,
  sym, ap, ◌⊎◌, inl, inr, arith, ok, evidence, or_raise-inversion, raise_if-inversion, Bool-cases,
  ◌==◌,
}
use placement_assistant.Rag.{Rag, RagIngestionRun, RagIndexGeneration, GenerationStatus}
use placement_assistant.BindingService.Triggers.{is_binding}
use placement_assistant.Ingestion.{is_run}
use placement_assistant.GenerationService.Published.{IsGenerated, reload_done}
use placement_assistant.GenerationService.{
  Services, mark, same_generation, refuses_generation, generation_row, chunks_of, is_completed,
  is_finished, retry, start, generate_index,
}

module _ (institution_id : ℕ) (services : Services) (digest : String → String) where
  -- The generation of the run and the space was there before.
  pub record IsKept (run_id g : ℕ) (s t : Rag) : Type 0 where
    pub existing : RagIndexGeneration
    pub found :
        find (same_generation institution_id services digest run_id) s.generations ≡ some existing
    pub finished : is_finished existing.status ≡ true
    pub returned : existing.id ≡ g
    pub unchanged : t ≡ s

  abbrev pub IsOutcome : ℕ → ℕ → Rag → Rag → Type 0
  IsOutcome run_id g s t =
      IsKept run_id g s t
      ⊎ IsGenerated institution_id services digest run_id (length (chunks_of run_id s)) g s t

  from_pending :
      (run_id expected id g : ℕ) (s t : Rag)
      → IsGenerated institution_id services digest run_id expected g
          (mark id GenerationStatus.pending s)
          t
      → IsGenerated institution_id services digest run_id expected g s t
  unfolding mark chunks_of
  from_pending run_id expected id g s t x = record {
    run = x.run;
    run_found = x.run_found;
    binding = x.binding;
    bound = x.bound;
    chunks = x.chunks;
    all_of_run = record {
      selected = x.all_of_run.selected;
      selects = x.all_of_run.selects;
      same = x.all_of_run.same;
    };
    indexed = x.indexed;
    published = x.published;
  }

  from_added :
      (run_id expected g : ℕ) (row : RagIndexGeneration) (s t : Rag)
      → IsGenerated institution_id services digest run_id expected g
          (record s { generations = s.generations ++ row ∷ [] })
          t
      → IsGenerated institution_id services digest run_id expected g s t
  unfolding chunks_of
  from_added run_id expected g row s t x = record {
    run = x.run;
    run_found = x.run_found;
    binding = x.binding;
    bound = x.bound;
    chunks = x.chunks;
    all_of_run = record {
      selected = x.all_of_run.selected;
      selects = x.all_of_run.selects;
      same = x.all_of_run.same;
    };
    indexed = x.indexed;
    published = x.published;
  }

  retry_done :
      (now run_id g : ℕ) (o : Option RagIndexGeneration) (s t : Rag)
      → find (same_generation institution_id services digest run_id) s.generations ≡ o
      → retry institution_id services digest now (length (chunks_of run_id s)) run_id o s
        ≡ (ok g, t)
      → IsOutcome run_id g s t
  unfolding retry
  retry_done now run_id g none s t there h = cc (ap (λ p. p.0) h)
  retry_done now run_id g (some existing) s t there h =
      elim (Bool-cases (is_finished existing.status)) [
        | inl finished ↦
            let kept = rw finished at h in
            inl record {
              existing = existing;
              found = there;
              finished = finished;
              returned = cc (ap (λ p. p.0) kept);
              unchanged = sym (ap (λ p. p.1) kept);
            }
        | inr open_still ↦ inr (
            from_pending run_id (length (chunks_of run_id s)) existing.id g s t (
              reload_done institution_id services digest now (length (chunks_of run_id s)) run_id
                existing.id g (mark existing.id GenerationStatus.pending s) t (rw open_still at h)))
      ]

  start_done :
      (new_id now run_id g : ℕ) (refused : Bool) (s t : Rag)
      → start institution_id services digest new_id now run_id (chunks_of run_id s) refused s
        ≡ (ok g, t)
      → IsOutcome run_id g s t
  unfolding start
  start_done new_id now run_id g true s t h =
      retry_done now run_id g
        (find (same_generation institution_id services digest run_id) s.generations) s t refl h
  start_done new_id now run_id g false s t h =
      let row =
        generation_row institution_id services digest new_id run_id (length (chunks_of run_id s)) in
      inr (
        from_added run_id (length (chunks_of run_id s)) g row s t (
          reload_done institution_id services digest now (length (chunks_of run_id s)) run_id new_id
            g (record s { generations = s.generations ++ row ∷ [] }) t h))

  -- A generation that returns belongs to a completed run of the institution. Either the generation of
  -- this run and embedding space was verified or published before, and nothing changed; or the provider
  -- embedded the texts of the run's chunks, all of them and no others, each was sent to the index as one
  -- point with its hash, text and vector, the index accepted them, the points that were read back are
  -- these, in some order, the run's binding now publishes the generation, whose status is PUBLISHED, and what is
  -- published for other bindings and institutions stays as it was.
  pub generate_index-IsOutcome :
      (new_id now run_id g : ℕ) (s t : Rag)
      → generate_index institution_id services digest new_id now run_id s ≡ (ok g, t)
      → ((run : RagIngestionRun) × (find (is_run institution_id run_id) s.runs ≡ some run)
          × (is_completed run.status ≡ true))
        × IsOutcome run_id g s t
  unfolding generate_index
  generate_index-IsOutcome new_id now run_id g s t h =
      let (run, found, h1) =
        or_raise-inversion (evidence "RUN_NOT_FOUND") (find (is_run institution_id run_id) s.runs) _
          s t g h in
      let (completed, h2) =
        raise_if-inversion (not (is_completed run.status)) (evidence "RUN_NOT_COMPLETED") _ s t g
          h1 in
      let (binding, _, h3) =
        or_raise-inversion (evidence "BINDING_NOT_FOUND")
          (find (is_binding institution_id run.binding_id) s.policy_sources) _ s t g h2 in
      let (_, h4) =
        raise_if-inversion (length (chunks_of run_id s) == 0) (evidence "NO_CHUNKS_FOUND") _ s t g
          h3 in
      (
        (run, found, ground arith),
        start_done new_id now run_id g
            (refuses_generation institution_id services digest new_id run_id s) s t h4,
      )
