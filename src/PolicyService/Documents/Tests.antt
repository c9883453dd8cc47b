-- ===== src/PolicyService/Documents/Tests.antt =====
-- A text document, and one of a type that the table refuses.
use placement_assistant.Prelude.{String, [], ◌∷◌, ok, err, integrity_error, ◌≡◌, refl, any}
use placement_assistant.Database.Sample.{carla}
use placement_assistant.Evidence.Text.{text_length, is_hex, all_hex, ◌+++◌}
use placement_assistant.Rag.{Bytes}
use placement_assistant.Rag.Sample.{no_evidence}
use placement_assistant.PolicyService.Documents.{
  DocumentCreate, has_slash, last_part, extension, is_taken, is_media_type, new_document,
  create_document,
}

-- Stands for all the definitions that a run computes with.
unfoldable everything : Unit {0}
unfolding text_length is_hex all_hex ◌+++◌ has_slash last_part extension is_taken is_media_type
    new_document create_document any
everything = tt

abbrev rules_of : String → DocumentCreate
rules_of media_type = record {
  filename = "rules";
  media_type = media_type;
  content = "One offer at most.";
}

abbrev sha256 : Bytes → String
sha256 bytes = "0123456789abcdef0123456789abcdef0123456789abcdef0123456789abcdef"

abbrev encode : String → Bytes
encode text = 79 ∷ []

run_created :
    (create_document carla (λ _. "1") encode sha256 7 8 (rules_of "text/markdown") no_evidence).0
    ≡ ok record {
      id = 7;
      institution_id = 1;
      storage_key = "policies/1/1.markdown";
      filename = "rules";
      media_type = "text/markdown";
      content_hash = "0123456789abcdef0123456789abcdef0123456789abcdef0123456789abcdef";
      source_version = "v1";
    }
unfolding everything
run_created = refl

run_refused :
    create_document carla (λ _. "1") encode sha256 7 8 (rules_of "image/png") no_evidence
    ≡ (err integrity_error, no_evidence)
unfolding everything
run_refused = refl
