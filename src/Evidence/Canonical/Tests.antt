-- ===== src/Evidence/Canonical/Tests.antt =====
-- The canonical text of small values, and two spaces that a digest tells apart.
use Prim.Native.Char.{char, code}
use package.text.Mathlib.TextLemmas.{head-eq_of_cons-eq, tail-eq_of_cons-eq}
use placement_assistant.Prelude.{
  ℕ, zero, suc, pos, negsuc, String, none, some, List, [], ◌∷◌, ◌≡◌, ◌≢◌, refl, ap, sym, arith,
}
use placement_assistant.Evidence.{EmbeddingSpace}
use placement_assistant.Evidence.Chunk.{Chunk}
use placement_assistant.Evidence.Canonical.{
  null, number, text, write_char, write_text, digits, write_number, write_value, write_members,
  canonical, space_members, chunk_members, space_id, chunk_hash,
}
use placement_assistant.Evidence.Canonical.Identify.{hashes_identify}

abbrev codes : String → List ℕ
codes String.[] = []
codes (String.◌∷◌ c s) = code c ∷ codes s

run_canonical :
    canonical (("a", number (pos 120)) ∷ ("b", text "x\"y\n") ∷ ("c", null) ∷ [])
    ≡ codes "{\"a\":120,\"b\":\"x\\\"y\\n\",\"c\":null}"
unfolding canonical write_members write_value write_number digits write_text write_char
run_canonical = refl

run_negative : canonical (("n", number (negsuc 9)) ∷ []) ≡ codes "{\"n\":-10}"
unfolding canonical write_members write_value write_number digits write_text write_char
run_negative = refl

-- A digest without collisions: each number in unary.
abbrev unary : ℕ → String → String
unary zero s = String.◌∷◌ (char 0 tt) s
unary (suc n) s = String.◌∷◌ (char 1 tt) (unary n s)

abbrev in_unary : List ℕ → String
in_unary [] = ""
in_unary (n ∷ ns) = unary n (in_unary ns)

unary-injective : (m n : ℕ) (s t : String) → unary m s ≡ unary n t → (m ≡ n) × (s ≡ t)
unary-injective zero zero s t h = (refl, tail-eq_of_cons-eq h)
unary-injective zero (suc n) s t h = absurd (omega (arith, ap code (head-eq_of_cons-eq h)))
unary-injective (suc m) zero s t h = absurd (omega (arith, ap code (head-eq_of_cons-eq h)))
unary-injective (suc m) (suc n) s t h =
    let (same, rest) = unary-injective m n s t (tail-eq_of_cons-eq h) in (ap suc same, rest)

unary-not_empty : (n : ℕ) (s : String) → unary n s ≢ ""
unary-not_empty zero s h = cc h
unary-not_empty (suc n) s h = cc h

in_unary-injective : (ms ns : List ℕ) → in_unary ms ≡ in_unary ns → ms ≡ ns
in_unary-injective [] [] h = refl
in_unary-injective [] (n ∷ ns) h = absurd (unary-not_empty n (in_unary ns) (sym h))
in_unary-injective (m ∷ ms) [] h = absurd (unary-not_empty m (in_unary ms) h)
in_unary-injective (m ∷ ms) (n ∷ ns) h =
    let (first, later) = unary-injective m n (in_unary ms) (in_unary ns) h in
    let rest = in_unary-injective ms ns later in (λ i. first i ∷ rest i)

abbrev plane : EmbeddingSpace
plane = record {
  provider = "HTTP";
  model = "m";
  tokenizer = "t";
  pipeline_version = "1";
  dimensions = 2;
  distance_metric = "cosine";
}

abbrev chunk : Chunk
chunk = record {
  source_hash = "aa";
  normalized_artifact_hash = "bb";
  ordinal = pos 0;
  text = "ab";
  start_offset = pos 0;
  end_offset = pos 2;
  page = none;
  section = some "Terms";
  schema_version = pos 1;
}

abbrev third : EmbeddingSpace
third = record plane { dimensions = 3 }

abbrev on_page : Chunk
on_page = record chunk { page = some (pos 1) }

hashes_identify_example :
    (space_id in_unary plane ≡ space_id in_unary third → plane ≡ third)
    × (chunk_hash in_unary chunk ≡ chunk_hash in_unary on_page → chunk ≡ on_page)
hashes_identify_example =
    hashes_identify in_unary plane third chunk on_page
      (in_unary-injective (canonical (space_members plane)) (canonical (space_members third)))
      (in_unary-injective (canonical (chunk_members chunk)) (canonical (chunk_members on_page)))
