-- ===== src/GenerationService/Single.antt =====
-- A binding publishes one generation, and a generation is published for one binding.
mod Table
pub use Table.{IsSingle}
use placement_assistant.Prelude.{
  ℕ, ◌≤◌, String, Bool, true, false, not, ◌&&◌, Option, none, some, List, [], ◌∷◌, ◌++◌, find, keep,
  replace, any, All, length, ◌≡◌, refl, inl, inr, arith, Result, ok, err, modify, evidence,
  attribute_error, Bool-cases, ==_iff, ◌==◌, Respects, IsPreorder, Respects-pure, Respects-raise,
  Respects-lift, Respects-if, Respects-bind, keep-append, keep-none, length-append, sym, ◌∙◌,
  Respects-read, Respects-require, Respects-refuse,
}
use placement_assistant.Rag.{
  Rag, RagPolicySource, RagChunk, RagIndexGeneration, GenerationStatus, RagPublishedGeneration,
}
use placement_assistant.BindingService.Triggers.{is_binding}
use placement_assistant.Ingestion.{is_run}
use placement_assistant.GenerationService.{
  Services, attempt, mark, is_published_for, put_published, is_taken, publish_generation, chunks_of,
  build, reload, retry, start, generate_index, refuses_generation, is_finished, is_completed,
  same_generation,
}
use placement_assistant.GenerationService.Single.Table.{put_published-IsSingle}

module _ (institution_id : ℕ) (services : Services) (digest : String → String) where
  abbrev KeepsSingle : Rag → Rag → Type 0
  KeepsSingle s t = IsSingle s.published → IsSingle t.published

  KeepsSingle-preorder : IsPreorder KeepsSingle
  KeepsSingle-preorder = record {
    reflexive = λ s h. h;
    transitive = λ s t u first later h. later (first h);
  }

  is_taken-mark :
      (binding_id generation_id id : ℕ) (status : GenerationStatus) (s : Rag)
      → is_taken institution_id services digest binding_id generation_id (mark id status s)
        ≡ is_taken institution_id services digest binding_id generation_id s
  unfolding is_taken mark
  is_taken-mark binding_id generation_id id status s = refl

  mark-KeepsSingle :
      (id : ℕ) (status : GenerationStatus) → Respects KeepsSingle (modify (mark id status))
  unfolding mark
  mark-KeepsSingle id status = record { at = λ s h. h }

  publish_generation-KeepsSingle :
      (binding_id generation_id now : ℕ)
      → Respects KeepsSingle
          (publish_generation institution_id services digest binding_id generation_id now)
  unfolding publish_generation mark
  publish_generation-KeepsSingle binding_id generation_id now = record {
    at = λ s h.
        elim (Bool-cases (is_taken institution_id services digest binding_id generation_id s)) [
          | inl taken ↦ rw taken h
          | inr free ↦ rw free (
              put_published-IsSingle institution_id services digest binding_id generation_id now
                (mark generation_id GenerationStatus.verified s)
                (is_taken-mark binding_id generation_id generation_id GenerationStatus.verified s
                  ∙ free)
                h)
        ];
  }

  attempt-KeepsSingle :
      {A : Type 0} (code : String) (id : ℕ) (r : Result A)
      → Respects KeepsSingle (attempt code id r)
  unfolding attempt mark
  attempt-KeepsSingle code id (ok a) = record { at = λ s h. h }
  attempt-KeepsSingle code id (err e) = record { at = λ s h. h }

  build-KeepsSingle :
      (now expected : ℕ) (binding : RagPolicySource) (chunks : List RagChunk) (generation_id : ℕ)
      → Respects KeepsSingle
          (build institution_id services digest now expected binding chunks generation_id)
  unfolding build
  build-KeepsSingle now expected binding chunks generation_id =
      Respects-bind KeepsSingle-preorder _ _ (attempt-KeepsSingle _ _ _) λ vectors.
        Respects-bind KeepsSingle-preorder _ _ (Respects-lift KeepsSingle-preorder _) λ points.
          Respects-bind KeepsSingle-preorder _ _ (attempt-KeepsSingle _ _ _) λ _.
            Respects-bind KeepsSingle-preorder _ _ (attempt-KeepsSingle _ _ _)
              λ _. publish_generation-KeepsSingle binding.id generation_id now

  reload-KeepsSingle :
      (now expected run_id generation_id : ℕ)
      → Respects KeepsSingle
          (reload institution_id services digest now expected run_id generation_id)
  unfolding reload
  reload-KeepsSingle now expected run_id generation_id =
      Respects-read KeepsSingle-preorder (λ s. find (λ r. r.id == run_id) s.runs) _
        λ found. Respects-require KeepsSingle-preorder attribute_error found _ λ run.
          Respects-read KeepsSingle-preorder
            (λ s. find (λ b. b.id == run.binding_id) s.policy_sources) _
            λ bound. Respects-read KeepsSingle-preorder (chunks_of run_id) _ λ chunks.
              Respects-require KeepsSingle-preorder attribute_error bound _
                λ binding. build-KeepsSingle now expected binding chunks generation_id

  retry-KeepsSingle :
      (now expected run_id : ℕ) (o : Option RagIndexGeneration)
      → Respects KeepsSingle (retry institution_id services digest now expected run_id o)
  unfolding retry
  retry-KeepsSingle now expected run_id none = Respects-raise KeepsSingle-preorder _
  retry-KeepsSingle now expected run_id (some existing) =
      Respects-if KeepsSingle-preorder (is_finished existing.status) _ _
        (Respects-pure KeepsSingle-preorder _)
        (Respects-bind KeepsSingle-preorder _ _
          (mark-KeepsSingle existing.id GenerationStatus.pending)
          λ _. reload-KeepsSingle now expected run_id existing.id)

  start-KeepsSingle :
      (new_id now run_id : ℕ) (chunks : List RagChunk) (refused : Bool)
      → Respects KeepsSingle (start institution_id services digest new_id now run_id chunks refused)
  unfolding start
  start-KeepsSingle new_id now run_id chunks true =
      Respects-read KeepsSingle-preorder
        (λ s. find (same_generation institution_id services digest run_id) s.generations) _
        λ existing. retry-KeepsSingle now (length chunks) run_id existing
  start-KeepsSingle new_id now run_id chunks false = record {
    at = λ s h. (reload-KeepsSingle now (length chunks) run_id new_id).at _ h;
  }

  generate_index-KeepsSingle :
      (new_id now run_id : ℕ)
      → Respects KeepsSingle (generate_index institution_id services digest new_id now run_id)
  unfolding generate_index
  generate_index-KeepsSingle new_id now run_id =
      Respects-read KeepsSingle-preorder (λ s. find (is_run institution_id run_id) s.runs) _
        λ found. Respects-require KeepsSingle-preorder (evidence "RUN_NOT_FOUND") found _ λ run.
          Respects-refuse KeepsSingle-preorder (not (is_completed run.status))
            (evidence "RUN_NOT_COMPLETED") _
            (Respects-read KeepsSingle-preorder
              (λ s. find (is_binding institution_id run.binding_id) s.policy_sources) _
              λ bound.
                Respects-require KeepsSingle-preorder (evidence "BINDING_NOT_FOUND") bound _ λ _.
                  Respects-read KeepsSingle-preorder (chunks_of run_id) _ λ chunks.
                    Respects-refuse KeepsSingle-preorder (length chunks == 0)
                      (evidence "NO_CHUNKS_FOUND") _
                      (Respects-read KeepsSingle-preorder
                        (refuses_generation institution_id services digest new_id run_id) _
                        λ refused. start-KeepsSingle new_id now run_id chunks refused))

  -- In every institution a binding publishes at most one generation, and a generation is published for
  -- at most one binding: if this is so before a generation, then it is so after it, whether it returns
  -- or raises, and whatever the provider and the index answer.
  pub generate_index-IsSingle :
      (new_id now run_id : ℕ) (s : Rag)
      → IsSingle s.published
      → IsSingle (generate_index institution_id services digest new_id now run_id s).1.published
  generate_index-IsSingle new_id now run_id s h =
      (generate_index-KeepsSingle new_id now run_id).at s h
