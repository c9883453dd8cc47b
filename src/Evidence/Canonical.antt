-- ===== src/Evidence/Canonical.antt =====
-- `canonical_bytes` of apps/api/app/rag/contracts.py, and the hashes over it. A text is its code points;
-- what is written comes before `rest`.
pub mod Identify
pub mod Numbers
pub mod Texts
pub mod Unique
mod Tests
use Prim.Native.Nat.{◌/◌, ◌%◌}
use Prim.Native.Char.{code}
use placement_assistant.Prelude.{
  ℕ, zero, suc, ◌+◌, ℤ, pos, negsuc, String, Bool, Option, none, some, List, [], ◌∷◌, ltb, ◌==◌,
  if◌then◌else◌,
}
use placement_assistant.Evidence.{EmbeddingSpace}
use placement_assistant.Evidence.Chunk.{Chunk}

-- The values that a dataclass of the contracts has.
pub data Json : Type 0 where
  null : Json
  number : ℤ → Json
  text : String → Json

abbrev pub nibble : ℕ → ℕ
nibble n = if ltb n 10 then 48 + n else 87 + n

-- The characters that json.dumps escapes, `ensure_ascii=False`.
unfoldable pub write_char : ℕ → List ℕ → List ℕ
write_char c rest =
    if c == 34
    then 92 ∷ 34 ∷ rest
    else if c == 92
    then 92 ∷ 92 ∷ rest
    else if c == 10
    then 92 ∷ 110 ∷ rest
    else if c == 13
    then 92 ∷ 114 ∷ rest
    else if c == 9
    then 92 ∷ 116 ∷ rest
    else if c == 12
    then 92 ∷ 102 ∷ rest
    else if c == 8
    then 92 ∷ 98 ∷ rest
    else if ltb c 32
    then 92 ∷ 117 ∷ 48 ∷ 48 ∷ nibble (c / 16) ∷ nibble (c % 16) ∷ rest
    else c ∷ rest

-- A text, from behind its first quote.
unfoldable pub write_text : String → List ℕ → List ℕ
write_text String.[] rest = 34 ∷ rest
write_text (String.◌∷◌ c s) rest = write_char (code c) (write_text s rest)

-- Decimal digits, at most `fuel` of them.
unfoldable pub digits : ℕ → ℕ → List ℕ → List ℕ
digits zero n rest = rest
digits (suc fuel) n rest =
    let before = digits fuel (n / 10) ((48 + n % 10) ∷ rest) in
    if ltb n 10 then (48 + n) ∷ rest else before

-- `n` has at most `n + 1` digits.
unfoldable pub write_number : ℤ → List ℕ → List ℕ
write_number (pos n) rest = digits (suc n) n rest
write_number (negsuc n) rest = 45 ∷ digits (suc (suc n)) (suc n) rest

unfoldable pub write_value : Json → List ℕ → List ℕ
write_value null rest = 110 ∷ 117 ∷ 108 ∷ 108 ∷ rest
write_value (number n) rest = write_number n rest
write_value (text s) rest = 34 ∷ write_text s rest

abbrev pub write_member : String → Json → List ℕ → List ℕ
write_member key v rest = 34 ∷ write_text key (58 ∷ write_value v rest)

unfoldable pub write_members : List (String × Json) → List ℕ
write_members [] = 125 ∷ []
write_members ((key, v) ∷ []) = write_member key v (125 ∷ [])
write_members ((key, v) ∷ m ∷ ms) = write_member key v (44 ∷ write_members (m ∷ ms))

-- The text of a dictionary whose keys are sorted.
unfoldable pub canonical : List (String × Json) → List ℕ
canonical members = 123 ∷ write_members members

abbrev pub optional : {A : Type 0} → (A → Json) → Option A → Json
optional json none = null
optional json (some a) = json a

-- `asdict`, with the keys sorted.
abbrev pub space_members : EmbeddingSpace → List (String × Json)
space_members s =
    ("dimensions", number (pos s.dimensions))
    ∷ ("distance_metric", text s.distance_metric)
    ∷ ("model", text s.model)
    ∷ ("pipeline_version", text s.pipeline_version)
    ∷ ("provider", text s.provider)
    ∷ ("tokenizer", text s.tokenizer)
    ∷ []

abbrev pub chunk_members : Chunk → List (String × Json)
chunk_members c =
    ("end_offset", number c.end_offset)
    ∷ ("normalized_artifact_hash", text c.normalized_artifact_hash)
    ∷ ("ordinal", number c.ordinal)
    ∷ ("page", optional number c.page)
    ∷ ("schema_version", number c.schema_version)
    ∷ ("section", optional text c.section)
    ∷ ("source_hash", text c.source_hash)
    ∷ ("start_offset", number c.start_offset)
    ∷ ("text", text c.text)
    ∷ []

-- `digest` is sha256 of the UTF-8 of a text.
module _ (digest : List ℕ → String) where
  unfoldable pub space_id : EmbeddingSpace → String
  space_id s = digest (canonical (space_members s))

  unfoldable pub chunk_hash : Chunk → String
  chunk_hash c = digest (canonical (chunk_members c))
