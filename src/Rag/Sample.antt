-- ===== src/Rag/Sample.antt =====
-- Data that the tests share.
use placement_assistant.Prelude.{false, zero, suc, String, [], ◌∷◌, true, none, some}
use placement_assistant.Database.Sample.{season}
use placement_assistant.Evidence.Identity.{object_key}
use placement_assistant.Rag.{Rag, Bytes, Fault, RunStatus, GenerationStatus}

abbrev pub no_evidence : Rag
no_evidence = record {
  documents = [];
  policy_versions = [];
  source_objects = [];
  policy_sources = [];
  binding_events = [];
  runs = [];
  jobs = [];
  chunks = [];
  generations = [];
  published = [];
  objects = [];
  fault = Fault.healthy;
}

abbrev pub hash_a : String
hash_a = "aaaaaaaaaaaaaaaaaaaaaaaaaaaaaaaaaaaaaaaaaaaaaaaaaaaaaaaaaaaaaaaa"

-- A stand-in for sha256: one text has the first digest, all others the second.
abbrev pub digest : Bytes → String
digest (suc zero ∷ []) = hash_a
digest _ = "bb"

abbrev pub library : Rag
library = record no_evidence {
  documents =
      record {
        id = 7;
        institution_id = 1;
        storage_key = "policies/1/7.plain";
        filename = "policy.txt";
        media_type = "text/plain";
        content_hash = hash_a;
        source_version = "v1";
      }
      ∷ [];
}

abbrev pub text : Bytes
text = 1 ∷ []

abbrev pub key : String
key = object_key record { institution_id = 1; document_id = 7; source_hash = hash_a }

-- The document's bytes are imported, and there is a version of a policy.
abbrev pub ready : Rag
ready = record library {
  policy_versions = season.policy_versions;
  source_objects =
      record {
        id = 50;
        institution_id = 1;
        document_id = 7;
        object_key = key;
        byte_length = 1;
        source_hash = hash_a;
        actor_id = 13;
      }
      ∷ [];
  objects = record { key = key; link = false; regular = true; contents = text } ∷ [];
}

-- A completed run with one chunk.
abbrev pub chunked : Rag
chunked = record ready {
  policy_sources =
      record {
        id = 60;
        institution_id = 1;
        source_object_id = 50;
        policy_version_id = 4;
        revision = 1;
        previous_revision_id = none;
        source_hash = hash_a;
        proposal_reason = "rules of the season";
        actor_id = 13;
        request_id = 500;
      }
      ∷ [];
  runs =
      record {
        id = 8;
        institution_id = 1;
        binding_id = 60;
        schema_version = 1;
        parser_version = "p1";
        chunker_version = "c1";
        embedding_configuration = "e1";
        normalized_artifact_hash = none;
        status = RunStatus.completed;
      }
      ∷ [];
  chunks =
      record {
        id = 90;
        institution_id = 1;
        run_id = 8;
        ordinal = 0;
        content = "One offer at most.";
        page = some 1;
        section = none;
        start_offset = none;
        end_offset = none;
        source_hash = hash_a;
        artifact_hash = hash_a;
        chunk_hash = hash_a;
      }
      ∷ [];
}

-- The chunk is published.
abbrev pub served : Rag
served = record chunked {
  generations =
      record {
        id = 70;
        institution_id = 1;
        run_id = 8;
        space_id = hash_a;
        collection_name = "rag";
        expected_chunk_count = 1;
        status = GenerationStatus.published;
      }
      ∷ [];
  published =
      record { institution_id = 1; binding_id = 60; generation_id = 70; published_at = 1000 } ∷ [];
}
