-- ===== src/GenerationService/Tests.antt =====
-- A run with one chunk, an index that keeps its point, and one that loses it.
use placement_assistant.Prelude.{
  String, [], ◌∷◌, List, some, pos, ok, err, evidence, ◌≡◌, refl, ap, true, arith,
}
use placement_assistant.Evidence.{ManifestPoint, finite, validate_vectors, validate_manifest}
use placement_assistant.Rag.{Rag, RagIngestionRun, RagPublishedGeneration}
use placement_assistant.Rag.Sample.{chunked, hash_a}
use placement_assistant.GenerationService.Generated.{IsOutcome, generate_index-IsOutcome}
use placement_assistant.GenerationService.Single.{IsSingle, generate_index-IsSingle}
use placement_assistant.GenerationService.Failed.{generate_index_failed}
use placement_assistant.GenerationService.{Services}
use placement_assistant.Evidence.Text.{
  text_length, is_space, is_present, is_hex, all_hex, hex_digit, hex_digits, hex, ◌+++◌,
}
use placement_assistant.Evidence.Identity.{validate_hash, source_identity, object_key}
use placement_assistant.BindingService.Triggers.{
  is_hash, is_filled, is_binding, is_event_of, events_of, last_sequence, sequence_state,
  insert_event, is_revision_of, guard_revision, first_event, insert_binding,
}
use placement_assistant.Ingestion.{
  is_queued, is_running, is_expired, least, job_status, ends_lease, ends_run, same_run, is_run,
  is_job_of, refuses_run, insert_run, insert_job, enqueue_new, enqueue_run, is_available, candidate,
  leased, with_job, take_job, acquire_job, changed, fail_run, update_job,
}
use placement_assistant.GenerationService.{
  parse_hex, point_id, collection_name, chunks_of, is_completed, is_finished, mark, attempt,
  same_generation, refuses_generation, generation_row, points_of, embedded, upserted, compared,
  is_published_for, put_published, is_taken, publish_generation, build, reload, retry, start,
  generate_index,
}
use placement_assistant.Prelude.{keep, find, replace, any, last}
use placement_assistant.Database.{one_or_none, greatest, insert_row, ascending, descending}

-- Stands for all the definitions that a run computes with.
unfoldable everything : Unit {0}
unfolding text_length is_space is_present is_hex all_hex hex_digit hex_digits hex ◌+++◌
    validate_hash source_identity object_key is_hash is_filled is_binding is_event_of events_of
    last_sequence sequence_state insert_event is_revision_of guard_revision first_event
    insert_binding is_queued is_running is_expired least job_status ends_lease ends_run same_run
    is_run is_job_of refuses_run insert_run insert_job enqueue_new enqueue_run is_available
    candidate leased with_job take_job acquire_job changed fail_run update_job parse_hex point_id
    collection_name chunks_of is_completed is_finished mark attempt same_generation
    refuses_generation generation_row points_of embedded upserted compared is_published_for
    put_published is_taken publish_generation build reload retry start generate_index keep find
    replace any last one_or_none greatest insert_row ascending descending validate_vectors
    validate_manifest
everything = tt

abbrev digest : String → String
digest text = "000000000000000000000000000000ff"

abbrev kept_point : ManifestPoint
kept_point = record { point_id = 255; chunk_hash = hash_a }

abbrev services : List ManifestPoint → Services
services manifest = record {
  space = record {
    provider = "HTTP";
    model = "m";
    tokenizer = "t";
    pipeline_version = "1";
    dimensions = 1;
    distance_metric = "cosine";
  };
  space_id = hash_a;
  embed = λ _. ok ((finite (pos 1) 0 ∷ []) ∷ []);
  ensure_collection = λ _ _ _. ok tt;
  upsert_points = λ _ _. ok tt;
  fetch_manifest = λ _ _ _. ok manifest;
}

run_kept : (generate_index 1 (services (kept_point ∷ [])) digest 70 1000 8 chunked).0 ≡ ok 70
unfolding everything
run_kept = refl

run_published :
    (generate_index 1 (services (kept_point ∷ [])) digest 70 1000 8 chunked).1.published
    ≡ record { institution_id = 1; binding_id = 60; generation_id = 70; published_at = 1000 } ∷ []
unfolding everything
run_published = refl

run_lost :
    (generate_index 1 (services []) digest 70 1000 8 chunked).0
    ≡ err (evidence "MANIFEST_VERIFICATION_FAILED")
unfolding everything
run_lost = refl

generate_index_failed_example :
    (generate_index 1 (services []) digest 70 1000 8 chunked).1.published ≡ []
generate_index_failed_example =
    generate_index_failed 1 (services []) digest 70 1000 8 chunked
      (evidence "MANIFEST_VERIFICATION_FAILED") run_lost

generate_index-IsOutcome_example :
    ((run : RagIngestionRun) × (find (is_run 1 8) chunked.runs ≡ some run)
      × (is_completed run.status ≡ true))
    × IsOutcome 1
        (services (kept_point ∷ []))
        digest
        8
        70
        chunked
        (generate_index 1 (services (kept_point ∷ [])) digest 70 1000 8 chunked).1
generate_index-IsOutcome_example =
    generate_index-IsOutcome 1 (services (kept_point ∷ [])) digest 70 1000 8 70 chunked
      (generate_index 1 (services (kept_point ∷ [])) digest 70 1000 8 chunked).1
      (ap (λ r. (r, (generate_index 1 (services (kept_point ∷ [])) digest 70 1000 8 chunked).1))
        run_kept)

abbrev elsewhere : RagPublishedGeneration
elsewhere = record { institution_id = 2; binding_id = 60; generation_id = 70; published_at = 5 }

-- Another institution publishes a generation already.
abbrev shared : Rag
shared = record chunked { published = elsewhere ∷ [] }

shared-IsSingle : IsSingle shared.published
unfolding keep
shared-IsSingle = record { bindings = λ i b. ground arith; generations = λ i g. ground arith }

generate_index-IsSingle_example :
    IsSingle (generate_index 1 (services (kept_point ∷ [])) digest 70 1000 8 shared).1.published
generate_index-IsSingle_example =
    generate_index-IsSingle 1 (services (kept_point ∷ [])) digest 70 1000 8 shared shared-IsSingle
