-- ===== src/Evidence/Tests.antt =====
-- Manifests of two points.
use placement_assistant.Prelude.{pos, ◌≡◌, refl, [], ◌∷◌, any, ok, err, evidence}
use placement_assistant.Evidence.{
  ManifestPoint, validate_manifest, mismatch, validate_vectors, EmbeddingSpace, finite,
}

abbrev first_point : ManifestPoint
first_point = record { point_id = 1; chunk_hash = "aa" }

abbrev second_point : ManifestPoint
second_point = record { point_id = 2; chunk_hash = "bb" }

run_accepts :
    validate_manifest (first_point ∷ second_point ∷ []) (second_point ∷ first_point ∷ []) ≡ ok tt
unfolding validate_manifest mismatch any
run_accepts = refl

-- A point that was written with another hash is noticed.
run_refuses :
    validate_manifest (first_point ∷ []) (record first_point { chunk_hash = "bb" } ∷ [])
    ≡ err (evidence "INDEX_MANIFEST_MISMATCH")
unfolding validate_manifest mismatch any
run_refuses = refl

abbrev plane : EmbeddingSpace
plane = record {
  provider = "HTTP";
  model = "m";
  tokenizer = "t";
  pipeline_version = "1";
  dimensions = 2;
  distance_metric = "cosine";
}

run_zero :
    validate_vectors plane ((finite (pos 0) 0 ∷ finite (pos 0) 0 ∷ []) ∷ []) 1
    ≡ err (evidence "ZERO_COSINE_VECTOR")
unfolding validate_vectors any
run_zero = refl
