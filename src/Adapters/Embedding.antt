-- ===== src/Adapters/Embedding.antt =====
-- HTTPEmbeddingProvider of apps/api/app/rag/embedding_provider.py.
use placement_assistant.Prelude.{
  ℕ, String, not, Option, none, some, List, [], ◌∷◌, length, Result, ok, err, evidence, ◌==◌,
  if◌then◌else◌,
}
use placement_assistant.Database.{ascending}
use placement_assistant.Evidence.{Component, EmbeddingSpace}
use placement_assistant.Adapters.{HttpReply, body_of}

-- An item of the response: its index, 0 when it has none, and its vector.
pub record Embedding : Type 0 where
  pub index : ℕ
  pub embedding : Option (List Component)

-- The space that the settings give.
unfoldable pub space_of : String → ℕ → EmbeddingSpace
space_of model dimensions = record {
  provider = "HTTP_OPENAI_COMPATIBLE";
  model = model;
  tokenizer = "cl100k_base";
  pipeline_version = "1";
  dimensions = dimensions;
  distance_metric = "cosine";
}

unfoldable pub vectors_of : List Embedding → Result (List (List Component))
vectors_of [] = ok []
vectors_of (x ∷ xs) =
    let rest = vectors_of xs in
    elim x.embedding [
      | none ↦ err (evidence "EMBEDDING_PROVIDER_INVALID_RESPONSE")
      | some v ↦ elim rest [ ok vs ↦ ok (v ∷ vs) | err e ↦ err e ]
    ]

-- `data["data"]`: missing, or not a list; or the list
unfoldable pub read_data : ℕ → Option (List Embedding) → Result (List (List Component))
read_data expected none = err (evidence "EMBEDDING_PROVIDER_INVALID_RESPONSE")
read_data expected (some items) =
    if not (length items == expected)
    then err (evidence "EMBEDDING_COUNT_MISMATCH")
    else vectors_of (ascending (λ x. x.index) items)

abbrev pub data_of : ℕ → Result (Option (List Embedding)) → Result (List (List Component))
data_of expected (ok data_list) = read_data expected data_list
data_of expected (err e) = err e

-- `post` is the request to the provider's URL.
unfoldable pub embed :
    (List String → HttpReply (Option (List Embedding)))
    → List String
    → Result (List (List Component))
embed post [] = ok []
embed post (t ∷ ts) = data_of (length (t ∷ ts)) (
    body_of "EMBEDDING_PROVIDER_ERROR" (evidence "EMBEDDING_PROVIDER_INVALID_RESPONSE")
      (post (t ∷ ts)))
