-- ===== src/SourceService/Tests.antt =====
-- A document whose bytes are imported, once and again.
use placement_assistant.Prelude.{
  false, zero, suc, [], ◌∷◌, ok, err, evidence, ◌≡◌, refl, any, keep, find, some, true,
}
use placement_assistant.Database.{one_or_none}
use placement_assistant.Database.Sample.{anna, carla}
use placement_assistant.Evidence.{verify_source}
use placement_assistant.Evidence.Text.{hex}
use placement_assistant.Evidence.Identity.{source_identity, object_key}
use placement_assistant.Rag.{Rag, Bytes, RagSourceObject, StoredObject}
use placement_assistant.Rag.Sample.{hash_a, digest, library, text}
use placement_assistant.SourceService.Storage.{preserve, object_at}
use placement_assistant.SourceService.Immutable.{import_matching_bytes-object_at}
use placement_assistant.SourceService.RoundTrip.{import_matching_bytes-read_for_review}
use placement_assistant.SourceService.{
  import_matching_bytes, import_as, read_for_review, document_identity, get, recording, agrees,
  is_staff_role, insert_or_keep, confirm,
}
use placement_assistant.Evidence.Text.{text_length}
use placement_assistant.Evidence.Text.{all_hex}
use placement_assistant.Evidence.Text.{◌+++◌}

-- Stands for all the definitions that a run computes with.
unfoldable everything : Unit {0}
unfolding import_matching_bytes import_as document_identity get recording agrees is_staff_role
    preserve insert_or_keep confirm source_identity verify_source any keep find one_or_none
    text_length all_hex object_key ◌+++◌ hex
everything = tt

abbrev row : RagSourceObject
row = record {
  id = 50;
  institution_id = 1;
  document_id = 7;
  object_key = object_key record { institution_id = 1; document_id = 7; source_hash = hash_a };
  byte_length = 1;
  source_hash = hash_a;
  actor_id = 13;
}

run_import : (import_matching_bytes carla digest 50 7 text library).0 ≡ ok row
unfolding everything
run_import = refl

run_other_bytes :
    (import_matching_bytes carla digest 50 7 (2 ∷ []) library).0
    ≡ err (evidence "SOURCE_HASH_MISMATCH")
unfolding import_matching_bytes import_as document_identity is_staff_role source_identity
    verify_source keep one_or_none text_length all_hex
run_other_bytes = refl

run_student : (import_matching_bytes anna digest 50 7 text library).0 ≡ err (evidence "FORBIDDEN")
unfolding import_matching_bytes is_staff_role
run_student = refl

no_other : (other : Bytes) → digest other ≡ digest text → other ≡ text
no_other [] h = cc
no_other (zero ∷ bytes) h = cc
no_other (suc zero ∷ []) h = refl
no_other (suc zero ∷ b ∷ bytes) h = cc
no_other (suc (suc n) ∷ bytes) h = cc

import_matching_bytes-read_for_review_example :
    (read_for_review carla digest 7 (import_matching_bytes carla digest 50 7 text library).1).0
    ≡ ok text
import_matching_bytes-read_for_review_example =
    import_matching_bytes-read_for_review carla digest 50 7 text library row refl no_other
      run_import

abbrev imported : Rag
imported = (import_matching_bytes carla digest 50 7 text library).1

abbrev kept : StoredObject
kept = record {
  key = object_key record { institution_id = 1; document_id = 7; source_hash = hash_a };
  link = false;
  regular = true;
  contents = 1 ∷ 2 ∷ [];
}

kept_there : object_at kept.key (record library { objects = kept ∷ [] }) ≡ some kept
unfolding object_at find object_key ◌+++◌ hex
kept_there = refl

-- A corrupt object with the document's key stays as it is.
import_matching_bytes-object_at_example :
    object_at kept.key
      (import_matching_bytes carla digest 50 7 text (record library { objects = kept ∷ [] })).1
    ≡ some kept
import_matching_bytes-object_at_example =
    import_matching_bytes-object_at carla digest 50 7 text (record library { objects = kept ∷ [] })
      kept.key kept kept_there
