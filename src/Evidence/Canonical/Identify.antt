-- ===== src/Evidence/Canonical/Identify.antt =====
-- What is hashed of a space or a chunk, in apps/api/app/rag/contracts.py, tells them apart.
use mathlib.Core.List.{head-eq_of_cons-eq, tail-eq_of_cons-eq}
use placement_assistant.Prelude.{
  ℕ, ℤ, pos, negsuc, String, Option, none, some, List, ◌∷◌, ◌≡◌, refl, ap, sym, ◌∙◌,
}
use placement_assistant.Evidence.{EmbeddingSpace}
use placement_assistant.Evidence.Chunk.{Chunk}
use placement_assistant.Evidence.Canonical.{
  Json, null, number, text, canonical, optional, space_members, chunk_members, space_id, chunk_hash,
}
use placement_assistant.Evidence.Canonical.Unique.{write_members-injective}

-- What each dictionary says at its head, and that the rest agrees.
members-head :
    {ms ns : List (String × Json)} {k : String} {v w : Json} → ((k, v) ∷ ms) ≡ ((k, w) ∷ ns) → v ≡ w
members-head h = ap (λ m. m.1) (head-eq_of_cons-eq h)

abbrev the_number : Json → ℤ
the_number null = pos 0
the_number (number n) = n
the_number (text s) = pos 0

abbrev the_text : Json → String
the_text null = ""
the_text (number n) = ""
the_text (text s) = s

abbrev magnitude : ℤ → ℕ
magnitude (pos n) = n
magnitude (negsuc n) = n

number_inj : {m n : ℤ} → number m ≡ number n → m ≡ n
number_inj h = ap the_number h

text_inj : {s t : String} → text s ≡ text t → s ≡ t
text_inj h = ap the_text h

abbrev to_number : Json → Option ℤ
to_number null = none
to_number (number n) = some n
to_number (text s) = none

abbrev to_text : Json → Option String
to_text null = none
to_text (number n) = none
to_text (text s) = some s

to_number-optional : (x : Option ℤ) → to_number (optional number x) ≡ x
to_number-optional none = refl
to_number-optional (some n) = refl

to_text-optional : (x : Option String) → to_text (optional text x) ≡ x
to_text-optional none = refl
to_text-optional (some s) = refl

optional-number_inj : (x y : Option ℤ) → optional number x ≡ optional number y → x ≡ y
optional-number_inj x y h = sym (to_number-optional x) ∙ ap to_number h ∙ to_number-optional y

optional-text_inj : (x y : Option String) → optional text x ≡ optional text y → x ≡ y
optional-text_inj x y h = sym (to_text-optional x) ∙ ap to_text h ∙ to_text-optional y

space_members-injective : (s t : EmbeddingSpace) → space_members s ≡ space_members t → s ≡ t
space_members-injective s t h0 =
    let h1 = tail-eq_of_cons-eq h0 in
    let h2 = tail-eq_of_cons-eq h1 in
    let h3 = tail-eq_of_cons-eq h2 in
    let h4 = tail-eq_of_cons-eq h3 in
    let h5 = tail-eq_of_cons-eq h4 in
    let dimensions_eq = ap magnitude (number_inj (members-head h0)) in
    let metric_eq = text_inj (members-head h1) in
    let model_eq = text_inj (members-head h2) in
    let pipeline_eq = text_inj (members-head h3) in
    let provider_eq = text_inj (members-head h4) in
    let tokenizer_eq = text_inj (members-head h5) in
    (λ i. record {
      provider = provider_eq i;
      model = model_eq i;
      tokenizer = tokenizer_eq i;
      pipeline_version = pipeline_eq i;
      dimensions = dimensions_eq i;
      distance_metric = metric_eq i;
    })

chunk_members-injective : (b c : Chunk) → chunk_members b ≡ chunk_members c → b ≡ c
chunk_members-injective b c h0 =
    let h1 = tail-eq_of_cons-eq h0 in
    let h2 = tail-eq_of_cons-eq h1 in
    let h3 = tail-eq_of_cons-eq h2 in
    let h4 = tail-eq_of_cons-eq h3 in
    let h5 = tail-eq_of_cons-eq h4 in
    let h6 = tail-eq_of_cons-eq h5 in
    let h7 = tail-eq_of_cons-eq h6 in
    let h8 = tail-eq_of_cons-eq h7 in
    let end_eq = number_inj (members-head h0) in
    let artifact_eq = text_inj (members-head h1) in
    let ordinal_eq = number_inj (members-head h2) in
    let page_eq = optional-number_inj b.page c.page (members-head h3) in
    let version_eq = number_inj (members-head h4) in
    let section_eq = optional-text_inj b.section c.section (members-head h5) in
    let source_eq = text_inj (members-head h6) in
    let start_eq = number_inj (members-head h7) in
    let text_eq = text_inj (members-head h8) in
    (λ i. record {
      source_hash = source_eq i;
      normalized_artifact_hash = artifact_eq i;
      ordinal = ordinal_eq i;
      text = text_eq i;
      start_offset = start_eq i;
      end_offset = end_eq i;
      page = page_eq i;
      section = section_eq i;
      schema_version = version_eq i;
    })

canonical-injective : (ms ns : List (String × Json)) → canonical ms ≡ canonical ns → ms ≡ ns
unfolding canonical
canonical-injective ms ns h = write_members-injective ms ns (tail-eq_of_cons-eq h)

-- For a digest that does not collide on what is hashed of two spaces, nor on what is hashed of two
-- chunks: spaces with the same id have the same fields, all of them, and chunks with the same hash have
-- the same fields, text, offsets, page and section included.
pub hashes_identify :
    (digest : List ℕ → String) (s t : EmbeddingSpace) (b c : Chunk)
    → (digest (canonical (space_members s)) ≡ digest (canonical (space_members t))
        → canonical (space_members s) ≡ canonical (space_members t))
    → (digest (canonical (chunk_members b)) ≡ digest (canonical (chunk_members c))
        → canonical (chunk_members b) ≡ canonical (chunk_members c))
    → (space_id digest s ≡ space_id digest t → s ≡ t)
      × (chunk_hash digest b ≡ chunk_hash digest c → b ≡ c)
unfolding space_id chunk_hash
hashes_identify digest s t b c spaces chunks = (
  (λ same. space_members-injective s t (canonical-injective _ _ (spaces same))),
  (λ same. chunk_members-injective b c (canonical-injective _ _ (chunks same))),
)
