-- ===== src/GenerationService.antt =====
-- apps/api/app/rag/generation_service.py, of one institution: the chunks of a completed run are
-- embedded, written to the index, read back and compared, and then published. The provider and the
-- index are parameters: what they answer to the calls of one `generate_index`. `digest` is sha256 of a
-- text in UTF-8; `new_id` and `now` are the id of a new row and the time.
mod Points
pub mod Indexed
pub mod Published
pub mod Generated
pub mod Failed
pub mod Single
mod Tests
unfoldable pub use Points.*
use Prim.Native.Nat.{◌*◌}
use Prim.Native.Char.{Char, code}
use placement_assistant.Prelude.{
  ℕ, zero, suc, ◌+◌, ◌-◌, String, Bool, true, false, not, ◌&&◌, ◌||◌, Option, none, some, List, [],
  ◌∷◌, ◌++◌, find, keep, replace, any, map, length, Result, ok, err, Action, ◌>>=◌, ◌>>◌, pure,
  raise, raise_if, gets, modify, lift, or_raise, Error, evidence, attribute_error, value_error,
  integrity_error, leb, ◌==◌, str_eq, if◌then◌else◌,
}
use placement_assistant.Database.{ascending}
use placement_assistant.Evidence.{
  Checked, Component, EmbeddingSpace, ManifestPoint, validate_vectors, validate_manifest,
}
use placement_assistant.Evidence.Text.{hex, ◌+++◌}
use placement_assistant.Evidence.Identity.{validate_hash}
use placement_assistant.Rag.{
  Rag, RagPolicySource, RagIngestionRun, RunStatus, RagChunk, RagIndexGeneration, GenerationStatus,
  RagPublishedGeneration,
}
use placement_assistant.BindingService.Triggers.{is_hash, is_binding}
use placement_assistant.Ingestion.{is_run}

-- all chunks of the run, by ordinal
unfoldable pub chunks_of : ℕ → Rag → List RagChunk
chunks_of run_id s = ascending (λ c. c.ordinal) (keep (λ c. c.run_id == run_id) s.chunks)

unfoldable pub is_completed : RunStatus → Bool
is_completed RunStatus.completed = true
is_completed _ = false

unfoldable pub is_finished : GenerationStatus → Bool
is_finished GenerationStatus.verified = true
is_finished GenerationStatus.published = true
is_finished _ = false

unfoldable pub mark : ℕ → GenerationStatus → Rag → Rag
mark id status s = record s {
  generations = replace (λ g. g.id == id) (λ g. record g { status = status }) s.generations;
}

-- A step in `try`: an exception marks the generation as failed, commits, and becomes `code`.
unfoldable pub attempt : {A : Type 0} → String → ℕ → Result A → Action Rag A
attempt code id (ok a) s = (ok a, s)
attempt code id (err e) s = (err (evidence code), mark id GenerationStatus.failed s)

abbrev then_check : {A : Type 0} → Result A → (A → Checked) → Result A
then_check (ok a) check = elim (check a) [ ok _ ↦ ok a | err e ↦ err e ]
then_check (err e) check = err e

abbrev then_call : Checked → Checked → Checked
then_call (ok _) next = next
then_call (err e) next = err e

module _ (institution_id : ℕ) (services : Services) (digest : String → String) where
  unfoldable pub same_generation : ℕ → RagIndexGeneration → Bool
  same_generation run_id g = g.run_id == run_id && str_eq g.space_id services.space_id

  unfoldable pub refuses_generation : ℕ → ℕ → Rag → Bool
  refuses_generation new_id run_id s =
      any (λ g. g.institution_id == institution_id && same_generation run_id g) s.generations
      || not (is_hash services.space_id)
      || any (λ g. g.id == new_id) s.generations

  unfoldable pub generation_row : ℕ → ℕ → ℕ → RagIndexGeneration
  generation_row new_id run_id expected_chunk_count = record {
    id = new_id;
    institution_id = institution_id;
    run_id = run_id;
    space_id = services.space_id;
    collection_name = collection_name institution_id services.space_id;
    expected_chunk_count = expected_chunk_count;
    status = GenerationStatus.pending;
  }

  unfoldable pub embedded : List RagChunk → ℕ → Result (List (List Component))
  embedded chunks expected_chunk_count =
      then_check (services.embed (map (λ c. c.content) chunks))
        (λ vectors. validate_vectors services.space vectors expected_chunk_count)

  unfoldable pub upserted : List Point → Checked
  upserted points =
      let name = collection_name institution_id services.space_id in
      then_call
        (services.ensure_collection name services.space.dimensions services.space.distance_metric)
        (services.upsert_points name points)

  unfoldable pub compared : ℕ → List Point → ℕ → Result (List ManifestPoint)
  compared generation_id points expected_chunk_count =
      then_check
        (services.fetch_manifest (collection_name institution_id services.space_id) generation_id
          expected_chunk_count)
        (validate_manifest (map (λ p. p.point) points))

  unfoldable pub is_published_for : ℕ → RagPublishedGeneration → Bool
  is_published_for binding_id p = p.institution_id == institution_id && p.binding_id == binding_id

  -- The row of the binding is changed, or made.
  unfoldable pub put_published : ℕ → ℕ → ℕ → Rag → Rag
  put_published binding_id generation_id now s =
      let row : RagPublishedGeneration = record {
        institution_id = institution_id;
        binding_id = binding_id;
        generation_id = generation_id;
        published_at = now;
      } in
      if any (is_published_for binding_id) s.published
      then record s {
        published =
            replace (is_published_for binding_id)
              (λ p. record p { generation_id = generation_id; published_at = now }) s.published;
      }
      else record s { published = s.published ++ row ∷ [] }

  -- UNIQUE (institution_id, generation_id), for another binding
  unfoldable pub is_taken : ℕ → ℕ → Rag → Bool
  is_taken binding_id generation_id s =
      any
        (λ p.
          p.institution_id == institution_id
          && p.generation_id == generation_id
          && not (p.binding_id == binding_id))
        s.published

  unfoldable pub publish_generation : ℕ → ℕ → ℕ → Action Rag ℕ
  publish_generation binding_id generation_id now = do
    taken ← gets (is_taken binding_id generation_id)
    raise_if taken integrity_error
    modify (mark generation_id GenerationStatus.verified)
    modify (put_published binding_id generation_id now)
    modify (mark generation_id GenerationStatus.published)
    pure generation_id

  -- From the embeddings on.
  unfoldable pub build : ℕ → ℕ → RagPolicySource → List RagChunk → ℕ → Action Rag ℕ
  build now expected_chunk_count binding chunks generation_id = do
    vectors ←
        attempt "EMBEDDING_GENERATION_FAILED" generation_id (embedded chunks expected_chunk_count)
    points ← lift (points_of digest services.space_id binding generation_id chunks vectors)
    attempt "QDRANT_UPSERT_FAILED" generation_id (upserted points)
    attempt "MANIFEST_VERIFICATION_FAILED" generation_id
        (compared generation_id points expected_chunk_count)
    publish_generation binding.id generation_id now

  -- The run and its binding are loaded again, by their ids alone.
  unfoldable pub reload : ℕ → ℕ → ℕ → ℕ → Action Rag ℕ
  reload now expected_chunk_count run_id generation_id = do
    found ← gets (λ s. find (λ r. r.id == run_id) s.runs)
    run ← or_raise attribute_error found
    bound ← gets (λ s. find (λ b. b.id == run.binding_id) s.policy_sources)
    chunks ← gets (chunks_of run_id)
    binding ← or_raise attribute_error bound
    build now expected_chunk_count binding chunks generation_id

  unfoldable pub retry : ℕ → ℕ → ℕ → Option RagIndexGeneration → Action Rag ℕ
  retry now expected_chunk_count run_id none = raise (evidence "GENERATION_CONFLICT")
  retry now expected_chunk_count run_id (some existing) =
      if is_finished existing.status
      then pure existing.id
      else (modify (mark existing.id GenerationStatus.pending)
          >> reload now expected_chunk_count run_id existing.id)

  unfoldable pub start : ℕ → ℕ → ℕ → List RagChunk → Bool → Action Rag ℕ
  start new_id now run_id chunks true = do
    existing ← gets (λ s. find (same_generation run_id) s.generations)
    retry now (length chunks) run_id existing
  start new_id now run_id chunks false = do
    modify (λ s. record s {
      generations = s.generations ++ generation_row new_id run_id (length chunks) ∷ [];
    })
    reload now (length chunks) run_id new_id

  unfoldable pub generate_index : ℕ → ℕ → ℕ → Action Rag ℕ
  generate_index new_id now run_id = do
    found ← gets (λ s. find (is_run institution_id run_id) s.runs)
    run ← or_raise (evidence "RUN_NOT_FOUND") found
    raise_if (not (is_completed run.status)) (evidence "RUN_NOT_COMPLETED")
    bound ← gets (λ s. find (is_binding institution_id run.binding_id) s.policy_sources)
    binding ← or_raise (evidence "BINDING_NOT_FOUND") bound
    chunks ← gets (chunks_of run_id)
    raise_if (length chunks == 0) (evidence "NO_CHUNKS_FOUND")
    refused ← gets (refuses_generation new_id run_id)
    start new_id now run_id chunks refused
