-- ===== src/Evidence/Chunk.antt =====
-- Chunks, embedding spaces and citations: apps/api/app/rag/contracts.py.
use placement_assistant.Prelude.{
  ℕ, zero, suc, ℤ, pos, negsuc, ◌-◌, String, Bool, true, false, not, ◌&&◌, ◌||◌, Option, none, some,
  Result, ok, err, evidence, leb, ltb, ◌==◌, str_eq, if◌then◌else◌,
}
use placement_assistant.Evidence.{Checked, EmbeddingSpace, then_rest}
use placement_assistant.Evidence.Text.{text_length, is_present}
use placement_assistant.Evidence.Identity.{validate_hash}

pub record Chunk : Type 0 where
  pub source_hash : String
  pub normalized_artifact_hash : String
  pub ordinal : ℤ
  pub text : String
  pub start_offset : ℤ
  pub end_offset : ℤ
  pub page : Option ℤ
  pub section : Option String
  pub schema_version : ℤ

-- `0 <= n`
abbrev is_natural : ℤ → Bool
is_natural (pos n) = true
is_natural (negsuc n) = false

-- A number that is not negative.
abbrev magnitude : ℤ → ℕ
magnitude (pos n) = n
magnitude (negsuc n) = 0

abbrev is_version_one : ℤ → Bool
is_version_one (pos n) = n == 1
is_version_one (negsuc n) = false

abbrev is_page : Option ℤ → Bool
is_page none = true
is_page (some (pos n)) = leb 1 n
is_page (some (negsuc n)) = false

valid_chunk : Chunk → Bool
valid_chunk chunk =
    is_version_one schema_version
    && is_natural ordinal
    && is_natural start_offset
    && is_natural end_offset
    && ltb (magnitude start_offset) (magnitude end_offset)
    && not (text_length text == 0)
    && is_page page
  where
    open chunk use {schema_version, ordinal, start_offset, end_offset, text, page}

-- `Chunk.__post_init__`
new_chunk : Chunk → Checked
unfolding valid_chunk then_rest
new_chunk chunk = then_rest (validate_hash chunk.source_hash) (
    then_rest (validate_hash chunk.normalized_artifact_hash)
      (if valid_chunk chunk then ok tt else err (evidence "INVALID_CHUNK")))

-- `text[start:end]` with `start <= end`
take : ℕ → String → String
take zero s = ""
take (suc n) String.[] = ""
take (suc n) (String.◌∷◌ c s) = String.◌∷◌ c (take n s)

drop : ℕ → String → String
drop zero s = s
drop (suc n) String.[] = ""
drop (suc n) (String.◌∷◌ c s) = drop n s

slice : String → ℕ → ℕ → String
unfolding take drop
slice s start end = take (end - start) (drop start s)

-- The offsets of a constructed chunk are not negative.
located : Chunk → Option String → Checked
unfolding slice
located chunk none = err (evidence "INVALID_ARTIFACT_ENCODING")
located chunk (some text) =
    if ltb (text_length text) (magnitude chunk.end_offset)
      || not (
          str_eq (slice text (magnitude chunk.start_offset) (magnitude chunk.end_offset))
            chunk.text)
    then err (evidence "CHUNK_LOCATOR_MISMATCH")
    else ok tt

-- hashlib.sha256 and `bytes.decode("utf-8", errors="strict")`
module _ {Bytes : Type 0} (sha256 : Bytes → String) (decode : Bytes → Option String) where
  verify_artifact : Chunk → Bytes → Checked
  unfolding located
  verify_artifact chunk artifact =
      if not (str_eq (sha256 artifact) chunk.normalized_artifact_hash)
      then err (evidence "ARTIFACT_HASH_MISMATCH")
      else located chunk (decode artifact)

is_metric : String → Bool
is_metric metric = str_eq metric "cosine" || str_eq metric "dot" || str_eq metric "euclidean"

-- `EmbeddingSpace.__post_init__`
new_space : EmbeddingSpace → Checked
unfolding is_metric
new_space space =
    if not (
        is_present provider
        && is_present model
        && is_present tokenizer
        && is_present pipeline_version)
      || dimensions == 0
      || not (is_metric distance_metric)
    then err (evidence "INVALID_EMBEDDING_SPACE")
    else ok tt
  where
    open space use {provider, model, tokenizer, pipeline_version, dimensions, distance_metric}

pub record CitationMetadata : Type 0 where
  pub document_id : ℕ
  pub source_hash : String
  pub chunk_hash : String
  pub ordinal : ℕ
  pub page : Option ℕ
  pub section : Option String
  pub start_offset : Option ℕ
  pub end_offset : Option ℕ

abbrev kept : {A : Type 0} → Checked → A → Result A
kept (ok _) a = ok a
kept (err e) a = err e

-- `CitationMetadata.__post_init__`
unfoldable pub new_citation : CitationMetadata → Result CitationMetadata
unfolding then_rest
new_citation citation =
    kept (then_rest (validate_hash citation.source_hash) (validate_hash citation.chunk_hash))
      citation

-- `score` is a number of the index, as it gives it.
pub record VerifiedEvidence (Score : Type 0) : Type 0 where
  pub text : String
  pub citation : CitationMetadata
  pub score : Option Score
