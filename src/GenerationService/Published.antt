-- ===== src/GenerationService/Published.antt =====
-- What a generation that returns has published.
use placement_assistant.Prelude.{
  find-replace, find-added, keep, not, keep_others-replace, keep_others-added, ℕ, String, true,
  some, List, [], ◌∷◌, find, replace, any, All, ◌≡◌, refl, sym, ◌∙◌, inl, inr, arith, ok,
  attribute_error, continue-inversion, or_raise-inversion, Bool-cases, ==_iff, ◌==◌,
}
use placement_assistant.Rag.{
  Rag, RagPolicySource, RagIngestionRun, RagChunk, RagIndexGeneration, GenerationStatus,
  RagPublishedGeneration,
}
use placement_assistant.GenerationService.Indexed.{
  AreChunksOf, chunks_of-AreChunksOf, IsIndexed, attempt-inversion, points_of-IsIndexed,
}
use placement_assistant.GenerationService.{
  Services, mark, put_published, is_published_for, publish_generation, points_of, compared,
  embedded, upserted, chunks_of, build, reload,
}

mark-All :
    (id : ℕ) (status : GenerationStatus) (gs : List RagIndexGeneration)
    → All
        (λ g. g.id ≡ id → g.status ≡ status)
        (replace (λ g. g.id == id) (λ g. record g { status = status }) gs)
unfolding replace
mark-All id status [] = tt
mark-All id status (g ∷ gs) = ground (arith, ==_iff g.id id, mark-All id status gs)

module _ (institution_id : ℕ) (services : Services) (digest : String → String) where
  -- A generation that is published for a binding.
  -- The rows that publish for other bindings, or for other institutions.
  abbrev pub others : ℕ → List RagPublishedGeneration → List RagPublishedGeneration
  others binding_id = keep (λ p. not (is_published_for institution_id services digest binding_id p))

  pub record IsPublished (binding_id generation_id : ℕ) (before : List RagPublishedGeneration)
      (t : Rag) : Type 0 where
    pub row : RagPublishedGeneration
    pub found :
        find (is_published_for institution_id services digest binding_id) t.published ≡ some row
    pub points_at : row.generation_id ≡ generation_id
    pub status :
        All (λ g. g.id ≡ generation_id → g.status ≡ GenerationStatus.published) t.generations
    pub kept : others binding_id t.published ≡ others binding_id before

  abbrev pointed : ℕ → ℕ → RagPublishedGeneration → RagPublishedGeneration
  pointed generation_id now p = record p { generation_id = generation_id; published_at = now }

  abbrev new_row : ℕ → ℕ → ℕ → RagPublishedGeneration
  new_row binding_id generation_id now = record {
    institution_id = institution_id;
    binding_id = binding_id;
    generation_id = generation_id;
    published_at = now;
  }

  pointed-here :
      (binding_id generation_id now : ℕ) (p : RagPublishedGeneration)
      → is_published_for institution_id services digest binding_id (pointed generation_id now p)
        ≡ is_published_for institution_id services digest binding_id p
  unfolding is_published_for
  pointed-here binding_id generation_id now p = refl

  new_row-here :
      (binding_id generation_id now : ℕ)
      → is_published_for institution_id services digest binding_id
          (new_row binding_id generation_id now)
        ≡ true
  unfolding is_published_for
  new_row-here binding_id generation_id now =
      rw ((==_iff institution_id institution_id).1 refl, (==_iff binding_id binding_id).1 refl) refl

  put_published-found :
      (binding_id generation_id now : ℕ) (s : Rag)
      → (row : RagPublishedGeneration) × (find
            (is_published_for institution_id services digest binding_id)
            (put_published institution_id services digest binding_id generation_id now s).published
          ≡ some row)
        × (row.generation_id ≡ generation_id)
  unfolding put_published
  put_published-found binding_id generation_id now s =
      let here = is_published_for institution_id services digest binding_id in
      let pointing = λ (p : RagPublishedGeneration). pointed generation_id now p in
      elim (Bool-cases (any here s.published)) [
        | inl present ↦
            let (row, there) =
              find-replace here pointing s.published (pointed-here binding_id generation_id now)
                present in
            (pointing row, rw present there, refl)
        | inr absent ↦ (
          new_row binding_id generation_id now,
          rw absent (
              find-added here s.published (new_row binding_id generation_id now) absent
                (new_row-here binding_id generation_id now)),
          refl,
        )
      ]

  put_published-others :
      (binding_id generation_id now : ℕ) (s : Rag)
      → others binding_id
          (put_published institution_id services digest binding_id generation_id now s).published
        ≡ others binding_id s.published
  unfolding put_published
  put_published-others binding_id generation_id now s =
      let here = is_published_for institution_id services digest binding_id in
      elim (Bool-cases (any here s.published)) [
        | inl present ↦ rw present (
            keep_others-replace here (pointed generation_id now) s.published
              (pointed-here binding_id generation_id now))
        | inr absent ↦ rw absent (
            keep_others-added here s.published (new_row binding_id generation_id now)
              (new_row-here binding_id generation_id now))
      ]

  publish_state :
      (binding_id generation_id now g : ℕ) (s t : Rag)
      → publish_generation institution_id services digest binding_id generation_id now s ≡ (ok g, t)
      → (g ≡ generation_id)
        × (t
            ≡ mark generation_id GenerationStatus.published (
                put_published institution_id services digest binding_id generation_id now
                  (mark generation_id GenerationStatus.verified s)))
  unfolding publish_generation
  publish_state binding_id generation_id now g s t h = ground arith

  publish_done :
      (binding_id generation_id now g : ℕ) (s t : Rag)
      → publish_generation institution_id services digest binding_id generation_id now s ≡ (ok g, t)
      → IsPublished binding_id g s.published t
  unfolding mark
  publish_done binding_id generation_id now g s t h =
      let verified = mark generation_id GenerationStatus.verified s in
      let (same, at) = publish_state binding_id generation_id now g s t h in
      let (row, found, points_at) = put_published-found binding_id generation_id now verified in
      rw at record {
        row = row;
        found = found;
        points_at = points_at ∙ sym same;
        status = rw same (
            mark-All generation_id GenerationStatus.published
              (put_published institution_id services digest binding_id generation_id now
                verified).generations);
        kept = put_published-others binding_id generation_id now verified;
      }

  build_done :
      (now expected : ℕ) (binding : RagPolicySource) (chunks : List RagChunk) (generation_id g : ℕ)
      (s t : Rag)
      → build institution_id services digest now expected binding chunks generation_id s ≡ (ok g, t)
      → IsIndexed institution_id services digest chunks expected binding generation_id
        × IsPublished binding.id g s.published t
        × (g ≡ generation_id)
  unfolding build
  build_done now expected binding chunks generation_id g s t h =
      let (vectors, read, h1) =
        attempt-inversion institution_id services digest "EMBEDDING_GENERATION_FAILED" generation_id
          (embedded institution_id services digest chunks expected) _ s t g h in
      let sending = points_of digest services.space_id binding generation_id chunks vectors in
      let (points, made, h2) = continue-inversion sending _ s t g h1 in
      let (_, sent, h3) =
        attempt-inversion institution_id services digest "QDRANT_UPSERT_FAILED" generation_id
          (upserted institution_id services digest points) _ s t g h2 in
      let (manifest, back, h4) =
        attempt-inversion institution_id services digest "MANIFEST_VERIFICATION_FAILED"
          generation_id (compared institution_id services digest generation_id points expected) _ s
          t g h3 in
      (
        points_of-IsIndexed institution_id services digest chunks expected binding generation_id
            vectors points manifest read made sent back,
        publish_done binding.id generation_id now g s t h4,
        (publish_state binding.id generation_id now g s t h4).0,
      )

  -- The run's chunks, indexed and published for the run's binding.
  pub record IsGenerated (run_id expected g : ℕ) (s t : Rag) : Type 0 where
    pub run : RagIngestionRun
    pub run_found : find (λ r. r.id == run_id) s.runs ≡ some run
    pub binding : RagPolicySource
    pub bound : find (λ b. b.id == run.binding_id) s.policy_sources ≡ some binding
    pub chunks : List RagChunk
    pub all_of_run : AreChunksOf run_id s chunks
    pub indexed : IsIndexed institution_id services digest chunks expected binding g
    pub published : IsPublished binding.id g s.published t

  pub reload_done :
      (now expected run_id generation_id g : ℕ) (s t : Rag)
      → reload institution_id services digest now expected run_id generation_id s ≡ (ok g, t)
      → IsGenerated run_id expected g s t
  unfolding reload
  reload_done now expected run_id generation_id g s t h =
      let (run, found, h1) =
        or_raise-inversion attribute_error (find (λ r. r.id == run_id) s.runs) _ s t g h in
      let (binding, bound, h2) =
        or_raise-inversion attribute_error (find (λ b. b.id == run.binding_id) s.policy_sources) _ s
          t g h1 in
      let (indexed, published, same) =
        build_done now expected binding (chunks_of run_id s) generation_id g s t h2 in
      record {
        run = run;
        run_found = found;
        binding = binding;
        bound = bound;
        chunks = chunks_of run_id s;
        all_of_run = chunks_of-AreChunksOf run_id s;
        indexed = rw same indexed;
        published = published;
      }
