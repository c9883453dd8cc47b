-- ===== src/RetrievalService/Rows.antt =====
-- The rows that a retrieval checks its candidates with.
use placement_assistant.Prelude.{
  All-kept, All-mapped, ℕ, true, ◌&&◌, some, List, [], ◌∷◌, keep, last, All, All-append, Has, ◌≡◌,
  arith, ==_iff, ◌==◌,
}
use placement_assistant.Rag.{Rag, RagIngestionRun, RagChunk, RagIndexGeneration}
use placement_assistant.RetrievalService.{
  Row, concat_map, is_candidate, objects_for, sources_for, rows, row_of,
}

All-concat_map :
    {A B : Type 0} (P : B → Type 0) (f : A → List B) (xs : List A)
    → All (λ x. All P (f x)) xs
    → All P (concat_map f xs)
unfolding concat_map
All-concat_map P f [] h = tt
All-concat_map P f (x ∷ xs) h = All-append P (f x) (concat_map f xs) h.0 (All-concat_map P f xs h.1)

module _ (institution_id policy_version_id : ℕ) where
  -- A row of the database's own tables: a chunk of the institution, of the run that the generation
  -- indexed, with the run's binding, which is to this version of the policy, and the binding's source.
  pub record IsRow (s : Rag) (generation_id : ℕ) (x : Row) : Type 0 where
    pub run : RagIngestionRun
    pub generation : RagIndexGeneration
    pub chunk_there : Has (λ c. c ≡ x.chunk) s.chunks
    pub run_there : Has (λ r. r ≡ run) s.runs
    pub source_there : Has (λ b. b ≡ x.source) s.policy_sources
    pub generation_there : Has (λ g. g ≡ generation) s.generations
    pub object_there : Has (λ o. o ≡ x.object) s.source_objects
    pub institution : x.chunk.institution_id ≡ institution_id
    pub of_run : run.id ≡ x.chunk.run_id
    pub of_binding : x.source.id ≡ run.binding_id
    pub of_policy : x.source.policy_version_id ≡ policy_version_id
    pub of_source : x.object.id ≡ x.source.source_object_id
    pub indexed : (generation.run_id ≡ run.id) × (generation.id ≡ generation_id)

  both : (a b c d : ℕ) → (a == b && c == d) ≡ true → (a ≡ b) × (c ≡ d)
  both a b c d h = ground (arith, ==_iff a b, ==_iff c d)

  candidate-institution :
      (ids : List ℕ) (c : RagChunk)
      → is_candidate institution_id policy_version_id ids c ≡ true
      → c.institution_id ≡ institution_id
  unfolding is_candidate
  candidate-institution ids c h = ground (arith, ==_iff c.institution_id institution_id)

  pub rows-IsRow :
      (generation_id : ℕ) (ids : List ℕ) (s : Rag)
      → All (IsRow s generation_id) (rows institution_id policy_version_id generation_id ids s)
  unfolding rows sources_for objects_for
  rows-IsRow generation_id ids s = All-concat_map _ _ _ (
      All-kept _ _ s.chunks λ c c_there candidate. All-concat_map _ _ _ (
        All-kept _ _ s.runs λ r r_there of_run. All-concat_map _ _ _ (
          All-kept _ _ s.policy_sources λ b b_there bound. All-concat_map _ _ _ (
            All-kept _ _ s.generations λ g g_there indexed. All-mapped _ _ _ (
              All-kept _ _ s.source_objects λ o o_there of_source. record {
                run = r;
                generation = g;
                chunk_there = c_there;
                run_there = r_there;
                source_there = b_there;
                generation_there = g_there;
                object_there = o_there;
                institution = candidate-institution ids c candidate;
                of_run = (==_iff r.id c.run_id).0 of_run;
                of_binding = (both b.id r.binding_id b.policy_version_id policy_version_id bound).0;
                of_policy = (both b.id r.binding_id b.policy_version_id policy_version_id bound).1;
                of_source = (==_iff o.id b.source_object_id).0 of_source;
                indexed = both g.run_id r.id g.id generation_id indexed;
              })))))

  pub row_of-last :
      (id : ℕ) (found : List Row) (x : Row)
      → row_of institution_id policy_version_id id found ≡ some x
      → last (keep (λ y. y.chunk.id == id) found) ≡ some x
  unfolding row_of
  row_of-last id found x h = h
