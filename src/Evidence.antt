-- ===== src/Evidence.antt =====
-- The integrity contracts of the evidence pipeline: apps/api/app/rag/contracts.py. Hashes are texts;
-- sha256 and the bytes are parameters.
pub mod Manifest
pub mod Text
pub mod Identity
pub mod Chunk
pub mod Canonical
mod Tests
use placement_assistant.Prelude.{
  ℕ, zero, suc, ◌≤◌, ℤ, pos, negsuc, String, Bool, true, false, not, ◌&&◌, ◌||◌, List, [], ◌∷◌, any,
  length, Result, ok, err, Error, evidence, ◌==◌, leb, ltb, str_eq, if◌then◌else◌, is_zero,
}

-- A check that returns nothing or raises.
abbrev pub Checked : Type 0
Checked = Result (Unit {0})

pub data BindingState : Type 0 where
  proposed approved revoked : BindingState

unfoldable pub validate_binding_transition : BindingState → BindingState → Checked
validate_binding_transition BindingState.proposed BindingState.approved = ok tt
validate_binding_transition BindingState.approved BindingState.revoked = ok tt
validate_binding_transition _ _ = err (evidence "INVALID_BINDING_TRANSITION")

abbrev pub max_source_bytes : ℕ
max_source_bytes = 10485760

pub record SourceIdentity : Type 0 where
  pub institution_id : ℕ
  pub document_id : ℕ
  pub source_hash : String

module _ {Bytes : Type 0} (length_of : Bytes → ℕ) (sha256 : Bytes → String) where
  unfoldable pub verify_source : SourceIdentity → Bytes → Checked
  verify_source identity bytes =
      if length_of bytes == 0
      then err (evidence "EMPTY_SOURCE")
      else if ltb max_source_bytes (length_of bytes)
      then err (evidence "SOURCE_TOO_LARGE")
      else if str_eq (sha256 bytes) identity.source_hash
      then ok tt
      else err (evidence "SOURCE_HASH_MISMATCH")

-- A component of a vector: finite, as numerator and denominator less one; not finite; or a bool.
pub data Component : Type 0 where
  finite : ℤ → ℕ → Component
  not_finite : Component
  boolean : Bool → Component

is_value : Component → Bool
is_value (finite n d) = true
is_value _ = false

is_nonzero : Component → Bool
is_nonzero (finite n d) = not (is_zero n)
is_nonzero not_finite = true
is_nonzero (boolean b) = b

pub record EmbeddingSpace : Type 0 where
  pub provider : String
  pub model : String
  pub tokenizer : String
  pub pipeline_version : String
  pub dimensions : ℕ
  pub distance_metric : String

all_values : List Component → Bool
unfolding is_value
all_values [] = true
all_values (c ∷ cs) = is_value c && all_values cs

validate_vector : EmbeddingSpace → List Component → Checked
unfolding all_values is_nonzero
validate_vector space vector =
    if not (length vector == space.dimensions)
    then err (evidence "EMBEDDING_DIMENSION_MISMATCH")
    else if not (all_values vector)
    then err (evidence "INVALID_EMBEDDING_VALUE")
    else if str_eq space.distance_metric "cosine" && not (any is_nonzero vector)
    then err (evidence "ZERO_COSINE_VECTOR")
    else ok tt

then_rest : Checked → Checked → Checked
then_rest (err e) rest = err e
then_rest (ok _) rest = rest

validate_each : EmbeddingSpace → List (List Component) → Checked
unfolding validate_vector then_rest
validate_each space [] = ok tt
validate_each space (v ∷ vs) = then_rest (validate_vector space v) (validate_each space vs)

-- `expected_count` is a count of chunks, never negative.
unfoldable pub validate_vectors : EmbeddingSpace → List (List Component) → ℕ → Checked
unfolding validate_each
validate_vectors space vectors expected_count =
    if expected_count == 0 || not (length vectors == expected_count)
    then err (evidence "EMBEDDING_COUNT_MISMATCH")
    else validate_each space vectors

pub record ManifestPoint : Type 0 where
  pub point_id : ℕ
  pub chunk_hash : String

-- Equality of two points, as of frozen dataclasses.
same_point : ManifestPoint → ManifestPoint → Bool
same_point p q = p.point_id == q.point_id && str_eq p.chunk_hash q.chunk_hash

-- `len({p.point_id for p in points}) == len(points)`
distinct_ids : List ManifestPoint → Bool
distinct_ids [] = true
distinct_ids (p ∷ ps) = not (any (λ q. p.point_id == q.point_id) ps) && distinct_ids ps

-- `set(points) <= set(others)`
included : List ManifestPoint → List ManifestPoint → Bool
unfolding same_point
included [] others = true
included (p ∷ ps) others = any (same_point p) others && included ps others

mismatch : List ManifestPoint → List ManifestPoint → Bool
unfolding distinct_ids included
mismatch expected actual =
    length expected == 0
    || not (length expected == length actual)
    || not (distinct_ids expected)
    || not (distinct_ids actual)
    || not (included expected actual && included actual expected)

unfoldable pub validate_manifest : List ManifestPoint → List ManifestPoint → Checked
unfolding mismatch
validate_manifest expected actual =
    if mismatch expected actual then err (evidence "INDEX_MANIFEST_MISMATCH") else ok tt
