-- ===== src/RetrievalService/Tests.antt =====
-- A published chunk, an index that answers with its id, and one that answers with its point's.
use placement_assistant.Prelude.{
  ℕ, String, [], ◌∷◌, List, some, none, pos, ok, ◌≡◌, refl, Result, ◌⊎◌, All,
}
use placement_assistant.Evidence.{Component, finite}
use placement_assistant.Evidence.Chunk.{VerifiedEvidence}
use placement_assistant.Rag.{RagPublishedGeneration}
use placement_assistant.Rag.Sample.{served, hash_a}
use placement_assistant.RetrievalService.Published.{IsPublishedFor, NothingPublished}
use placement_assistant.RetrievalService.Grounded.{IsGrounded, retrieve-IsGrounded}
use placement_assistant.Evidence.Text.{
  text_length, is_space, is_present, is_hex, all_hex, hex_digit, hex_digits, hex, ◌+++◌,
}
use placement_assistant.Evidence.Identity.{validate_hash, source_identity, object_key}
use placement_assistant.Evidence.Chunk.{new_citation}
use placement_assistant.RetrievalService.{
  concat_map, score_of, published_for, is_candidate, objects_for, sources_for, rows, row_of,
  citation_of, assemble, confirm, searching, retrieve_from, retrieve,
}
use placement_assistant.GenerationService.{point_id, parse_hex}
use placement_assistant.Prelude.{keep, find, replace, any, last}

-- Stands for all the definitions that a run computes with.
unfoldable everything : Unit {0}
unfolding text_length is_space is_present is_hex all_hex hex_digit hex_digits hex ◌+++◌
    validate_hash source_identity object_key new_citation concat_map score_of published_for
    is_candidate objects_for sources_for rows row_of citation_of assemble confirm searching
    retrieve_from retrieve keep find replace any last point_id parse_hex
everything = tt

abbrev digest : String → String
digest text = "000000000000000000000000000000ff"

abbrev embed : List String → Result (List (List Component))
embed texts = ok ((finite (pos 1) 0 ∷ []) ∷ [])

abbrev answering : ℕ → List Component → ℕ → Result (List (ℕ × ℕ))
answering id vector generation_id = ok ((id, 7) ∷ [])

abbrev piece : VerifiedEvidence ℕ
piece = record {
  text = "One offer at most.";
  citation = record {
    document_id = 7;
    source_hash = hash_a;
    chunk_hash = hash_a;
    ordinal = 0;
    page = some 1;
    section = none;
    start_offset = none;
    end_offset = none;
  };
  score = some 7;
}

run_chunk_id : retrieve 1 4 embed (answering 90) "How many offers?" served ≡ ok (piece ∷ [])
unfolding everything
run_chunk_id = refl

run_point_id : retrieve 1 4 embed (answering 255) "How many offers?" served ≡ ok []
unfolding everything
run_point_id = refl

run_other_institution : retrieve 2 4 embed (answering 90) "How many offers?" served ≡ ok []
unfolding everything
run_other_institution = refl

retrieve-IsGrounded_example :
    ((piece ∷ [] ≡ []) × NothingPublished 1 4 served)
    ⊎ ((p : RagPublishedGeneration) × IsPublishedFor 1 4 served p
        × All (IsGrounded 1 4 served p.generation_id) (piece ∷ []))
retrieve-IsGrounded_example =
    retrieve-IsGrounded 1 4 embed (answering 90) "How many offers?" served (piece ∷ []) run_chunk_id
