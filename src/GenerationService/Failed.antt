-- ===== src/GenerationService/Failed.antt =====
-- What a generation that raises leaves published.
use placement_assistant.Prelude.{
  ℕ, String, Bool, true, false, Option, none, some, List, ◌≡◌, refl, arith, err, Error, length,
  Option-cases, inl, inr, find, ◌==◌,
}
use placement_assistant.Rag.{Rag, RagPolicySource, RagChunk, RagIndexGeneration, GenerationStatus}
use placement_assistant.GenerationService.{
  Services, attempt, mark, publish_generation, build, reload, retry, start, generate_index,
  chunks_of, refuses_generation,
}

module _ (institution_id : ℕ) (services : Services) (digest : String → String) where
  publish_failed :
      (binding_id generation_id now : ℕ) (s : Rag) (e : Error)
      → (publish_generation institution_id services digest binding_id generation_id now s).0 ≡ err e
      → (publish_generation institution_id services digest binding_id generation_id now s).1 ≡ s
  unfolding publish_generation
  publish_failed binding_id generation_id now s e h = ground arith

  build_failed :
      (now expected : ℕ) (binding : RagPolicySource) (chunks : List RagChunk) (generation_id : ℕ)
      (s : Rag) (e : Error)
      → (build institution_id services digest now expected binding chunks generation_id s).0 ≡ err e
      → (build institution_id services digest now expected binding chunks generation_id
          s).1.published
        ≡ s.published
  unfolding build attempt mark
  build_failed now expected binding chunks generation_id s e h =
      ground (arith, publish_failed binding.id generation_id now s e)

  reload_failed :
      (now expected run_id generation_id : ℕ) (s : Rag) (e : Error)
      → (reload institution_id services digest now expected run_id generation_id s).0 ≡ err e
      → (reload institution_id services digest now expected run_id generation_id s).1.published
        ≡ s.published
  unfolding reload
  reload_failed now expected run_id generation_id s e h =
      elim (Option-cases (find (λ r. r.id == run_id) s.runs)) [
        | inl absent ↦ ground arith
        | inr (run, found) ↦
            elim (Option-cases (find (λ b. b.id == run.binding_id) s.policy_sources)) [
              | inl absent ↦ ground arith
              | inr (binding, bound) ↦
                  ground (
                    arith,
                    build_failed now expected binding (chunks_of run_id s) generation_id s e,
                  )
            ]
      ]

  retry_failed :
      (now expected run_id : ℕ) (o : Option RagIndexGeneration) (s : Rag) (e : Error)
      → (retry institution_id services digest now expected run_id o s).0 ≡ err e
      → (retry institution_id services digest now expected run_id o s).1.published ≡ s.published
  unfolding retry mark
  retry_failed now expected run_id none s e h = refl
  retry_failed now expected run_id (some g) s e h =
      ground
        (arith, reload_failed now expected run_id g.id (mark g.id GenerationStatus.pending s) e)

  start_failed :
      (new_id now run_id : ℕ) (chunks : List RagChunk) (refused : Bool) (s : Rag) (e : Error)
      → (start institution_id services digest new_id now run_id chunks refused s).0 ≡ err e
      → (start institution_id services digest new_id now run_id chunks refused s).1.published
        ≡ s.published
  unfolding start
  start_failed new_id now run_id chunks true s e h = retry_failed now (length chunks) run_id _ s e h
  start_failed new_id now run_id chunks false s e h =
      reload_failed now (length chunks) run_id new_id _ e h

  -- A generation that raises, at whatever step, leaves what is published as it was: evidence is served
  -- from the generation that was published before.
  pub generate_index_failed :
      (new_id now run_id : ℕ) (s : Rag) (e : Error)
      → (generate_index institution_id services digest new_id now run_id s).0 ≡ err e
      → (generate_index institution_id services digest new_id now run_id s).1.published
        ≡ s.published
  unfolding generate_index
  generate_index_failed new_id now run_id s e h = ground (
    arith,
    start_failed new_id now run_id (chunks_of run_id s)
        (refuses_generation institution_id services digest new_id run_id s) s e,
  )
