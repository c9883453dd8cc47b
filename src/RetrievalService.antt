-- ===== src/RetrievalService.antt =====
-- apps/api/app/rag/retrieval_service.py: evidence for a question, found by the index and checked against
-- the database. What the provider and the index answer are parameters; an index may answer anything.
-- `Score` is the number that it gives to a point.
pub mod Rows
pub mod Published
pub mod Grounded
mod Tests
use placement_assistant.Prelude.{
  ℕ, String, Bool, true, false, not, ◌&&◌, ◌||◌, Option, none, some, List, [], ◌∷◌, ◌++◌, find,
  keep, any, map, last, Result, ok, err, Error, evidence, ◌==◌, if◌then◌else◌,
}
use placement_assistant.Evidence.{Component}
use placement_assistant.Evidence.Chunk.{CitationMetadata, VerifiedEvidence, new_citation}
use placement_assistant.Rag.{
  Rag, RagPolicySource, RagSourceObject, RagIngestionRun, RagChunk, RagIndexGeneration,
  RagPublishedGeneration,
}

-- A row of the query that checks the candidates.
pub record Row : Type 0 where
  pub chunk : RagChunk
  pub source : RagPolicySource
  pub object : RagSourceObject

unfoldable pub concat_map {ℓ κ} : {A : Type ℓ} {B : Type κ} → (A → List B) → List A → List B
concat_map f [] = []
concat_map f (x ∷ xs) = f x ++ concat_map f xs

-- vectors[0]
abbrev pub first_vector : Result (List (List Component)) → Result (List Component)
first_vector (ok (v ∷ vs)) = ok v
first_vector (ok []) = err (evidence "EMBEDDING_FAILED")
first_vector (err e) = err (evidence "EMBEDDING_FAILED")

module _ {Score : Type 0} where
  -- EvidenceError is raised again; any other exception becomes one.
  abbrev pub searched : Result (List (ℕ × Score)) → Result (List (ℕ × Score))
  searched (ok candidates) = ok candidates
  searched (err (evidence code)) = err (evidence code)
  searched (err _) = err (evidence "QDRANT_COMMUNICATION_ERROR")

  abbrev pub ids_of : List (ℕ × Score) → List ℕ
  ids_of [] = []
  ids_of ((id, score) ∷ more) = id ∷ ids_of more

  abbrev second : Option (ℕ × Score) → Option Score
  second none = none
  second (some (id, score)) = some score

  -- `{cid: score for cid, score in candidates}.get(id)`
  unfoldable pub score_of : ℕ → List (ℕ × Score) → Option Score
  score_of id candidates = second (last (keep (λ c. c.0 == id) candidates))

module _ (institution_id policy_version_id : ℕ) where
  abbrev is_bound : List RagPolicySource → RagPublishedGeneration → Bool
  is_bound sources p =
      p.institution_id == institution_id
      && any (λ b. b.id == p.binding_id && b.policy_version_id == policy_version_id) sources

  unfoldable pub published_for : Rag → Option RagPublishedGeneration
  published_for s = find (is_bound s.policy_sources) s.published

  unfoldable pub is_candidate : List ℕ → RagChunk → Bool
  is_candidate ids c = c.institution_id == institution_id && any (λ id. c.id == id) ids

  unfoldable pub objects_for : RagChunk → RagPolicySource → Rag → List Row
  objects_for c b s =
      map (λ o. record { chunk = c; source = b; object = o })
        (keep (λ o. o.id == b.source_object_id) s.source_objects)

  unfoldable pub sources_for : ℕ → RagChunk → RagIngestionRun → Rag → List Row
  sources_for generation_id c r s =
      concat_map
        (λ b.
          concat_map (λ _. objects_for c b s)
            (keep (λ g. g.run_id == r.id && g.id == generation_id) s.generations))
        (keep (λ b. b.id == r.binding_id && b.policy_version_id == policy_version_id)
          s.policy_sources)

  -- The join of chunks, runs, sources, objects and generations.
  unfoldable pub rows : ℕ → List ℕ → Rag → List Row
  rows generation_id ids s =
      concat_map
        (λ c.
          concat_map (λ r. sources_for generation_id c r s) (keep (λ r. r.id == c.run_id) s.runs))
        (keep (is_candidate ids) s.chunks)

  -- `chunk_map[cid]`: the last row of a chunk
  unfoldable pub row_of : ℕ → List Row → Option Row
  row_of id found = last (keep (λ x. x.chunk.id == id) found)

  unfoldable pub citation_of : Row → CitationMetadata
  citation_of x = record {
    document_id = x.object.document_id;
    source_hash = x.source.source_hash;
    chunk_hash = x.chunk.chunk_hash;
    ordinal = x.chunk.ordinal;
    page = x.chunk.page;
    section = x.chunk.section;
    start_offset = x.chunk.start_offset;
    end_offset = x.chunk.end_offset;
  }

  module _ {Score : Type 0} where
    abbrev pub with_citation :
        Row → Option Score → Result CitationMetadata → Result (VerifiedEvidence Score)
    with_citation x score (err e) = err e
    with_citation x score (ok citation) =
        ok record { text = x.chunk.content; citation = citation; score = score }

    abbrev pub prepended :
        Result (VerifiedEvidence Score)
        → Result (List (VerifiedEvidence Score))
        → Result (List (VerifiedEvidence Score))
    prepended (err e) rest = err e
    prepended (ok x) (err e) = err e
    prepended (ok x) (ok xs) = ok (x ∷ xs)

    abbrev pub added :
        List (ℕ × Score)
        → ℕ
        → Option Row
        → Result (List (VerifiedEvidence Score))
        → Result (List (VerifiedEvidence Score))
    added candidates id none rest = rest
    added candidates id (some x) rest =
        prepended (with_citation x (score_of id candidates) (new_citation (citation_of x))) rest

    -- In the order of the candidates; those that the database does not confirm are passed over.
    unfoldable pub assemble :
        List (ℕ × Score) → List Row → List ℕ → Result (List (VerifiedEvidence Score))
    assemble candidates found [] = ok []
    assemble candidates found (id ∷ ids) =
        added candidates id (row_of id found) (assemble candidates found ids)

    unfoldable pub confirm :
        ℕ → Rag → Result (List (ℕ × Score)) → Result (List (VerifiedEvidence Score))
    confirm generation_id s (err e) = err e
    confirm generation_id s (ok candidates) =
        assemble candidates (rows generation_id (ids_of candidates) s) (ids_of candidates)

    unfoldable pub searching :
        (List Component → ℕ → Result (List (ℕ × Score)))
        → ℕ
        → Rag
        → Result (List Component)
        → Result (List (VerifiedEvidence Score))
    searching search generation_id s (err e) = err e
    searching search generation_id s (ok vector) =
        confirm generation_id s (searched (search vector generation_id))

    unfoldable pub retrieve_from :
        (List String → Result (List (List Component)))
        → (List Component → ℕ → Result (List (ℕ × Score)))
        → String
        → Rag
        → Option RagPublishedGeneration
        → Result (List (VerifiedEvidence Score))
    retrieve_from embed search query s none = ok []
    retrieve_from embed search query s (some generation) =
        searching search generation.generation_id s (first_vector (embed (query ∷ [])))

    -- `search` stands for the index's answer in the collection of the institution, to the vector, the
    -- limit and the generation.
    unfoldable pub retrieve :
        (List String → Result (List (List Component)))
        → (List Component → ℕ → Result (List (ℕ × Score)))
        → String
        → Rag
        → Result (List (VerifiedEvidence Score))
    retrieve embed search query s = retrieve_from embed search query s (published_for s)
