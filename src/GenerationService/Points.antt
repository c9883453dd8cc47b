-- ===== src/GenerationService/Points.antt =====
-- The points that `generate_index` sends to the index, and the services that it calls.
use Prim.Native.Nat.{◌*◌}
use Prim.Native.Char.{code}
use placement_assistant.Prelude.{
  ℕ, zero, suc, ◌+◌, ◌-◌, String, List, [], ◌∷◌, Result, ok, err, value_error, leb, if◌then◌else◌,
}
use placement_assistant.Evidence.{Checked, Component, EmbeddingSpace, ManifestPoint}
use placement_assistant.Evidence.Text.{hex, ◌+++◌}
use placement_assistant.Evidence.Identity.{validate_hash}
use placement_assistant.Rag.{RagPolicySource, RagChunk}

-- A point as it is sent to the index, with the payload's entries that are not fixed by the call.
pub record Point : Type 0 where
  pub point : ManifestPoint
  pub vector : List Component
  pub artifact_hash : String
  pub source_hash : String
  pub text : String
  pub binding_id : ℕ
  pub policy_version_id : ℕ
  pub generation_id : ℕ

-- HTTPEmbeddingProvider and QdrantAdapter
pub record Services : Type 0 where
  pub space : EmbeddingSpace
  pub space_id : String
  pub embed : List String → Result (List (List Component))
  pub ensure_collection : String → ℕ → String → Checked
  pub upsert_points : String → List Point → Checked
  pub fetch_manifest : String → ℕ → ℕ → Result (List ManifestPoint)

abbrev hex_value : ℕ → ℕ
hex_value n = if leb n 57 then n - 48 else n - 87

-- The number that the first hexadecimal digits of a text stand for.
unfoldable pub parse_hex : ℕ → ℕ → String → ℕ
parse_hex zero n s = n
parse_hex (suc k) n String.[] = n
parse_hex (suc k) n (String.◌∷◌ c s) = parse_hex k (n * 16 + hex_value (code c)) s

-- uuid.UUID(sha256(f"{space_id}:{chunk_hash}")[:32])
unfoldable pub point_id : (String → String) → String → String → ℕ
point_id digest space_id chunk_hash = parse_hex 32 0 (digest (space_id +++ ":" +++ chunk_hash))

-- f"rag_{institution_id.hex}_{space_id}"
unfoldable pub collection_name : ℕ → String → String
collection_name institution_id space_id = "rag_" +++ hex institution_id +++ "_" +++ space_id

module _ (digest : String → String) (space_id : String) where
  -- One point for each chunk and vector; `zip(chunks, vectors, strict=True)`.
  unfoldable pub points_of :
      RagPolicySource → ℕ → List RagChunk → List (List Component) → Result (List Point)
  points_of binding generation_id [] [] = ok []
  points_of binding generation_id [] (v ∷ vs) = err value_error
  points_of binding generation_id (c ∷ cs) [] = err value_error
  points_of binding generation_id (c ∷ cs) (v ∷ vs) =
      let rest = points_of binding generation_id cs vs in
      elim (validate_hash c.chunk_hash) [
        | err e ↦ err e
        | ok _ ↦ elim rest [
          | err e ↦ err e
          | ok ps ↦ ok (
              record {
                point = record {
                  point_id = point_id digest space_id c.chunk_hash;
                  chunk_hash = c.chunk_hash;
                };
                vector = v;
                artifact_hash = c.artifact_hash;
                source_hash = c.source_hash;
                text = c.content;
                binding_id = binding.id;
                policy_version_id = binding.policy_version_id;
                generation_id = generation_id;
              }
              ∷ ps)
        ]
      ]
