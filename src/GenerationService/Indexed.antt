-- ===== src/GenerationService/Indexed.antt =====
-- What a generation that returns has sent to the index, and read back.
use mathlib.Core.List.{Perm, Permᴰ}
use placement_assistant.Prelude.{
  ℕ, String, List, [], ◌∷◌, map, keep, ◌≡◌, refl, sym, ap, arith, Result, ok, err, Result-cases,
  Action, ◌>>=◌, Selects, keep-Selects, Pairs, ==_iff, ◌==◌, false, inl, inr,
}
use placement_assistant.Database.Order.{ascending-Perm}
use placement_assistant.Evidence.{Component, ManifestPoint, validate_manifest}
use placement_assistant.Evidence.Identity.{validate_hash}
use placement_assistant.Evidence.Manifest.{validate_manifest-Perm}
use placement_assistant.Rag.{Rag, RagPolicySource, RagChunk}
use placement_assistant.GenerationService.{
  Services, Point, attempt, points_of, compared, embedded, upserted, chunks_of, collection_name,
  point_id,
}

ok-injective : {A : Type 0} {a b : A} → ◌≡◌ {A = Result A} (ok a) (ok b) → a ≡ b
ok-injective h = cc h

-- The chunks of a run, each once, in some order.
pub record AreChunksOf (run_id : ℕ) (s : Rag) (chunks : List RagChunk) : Type 0 where
  pub selected : List RagChunk
  pub selects : Selects (λ c. c.run_id ≡ run_id) (λ c d. d ≡ c) s.chunks selected
  pub same : Permᴰ chunks selected

pub chunks_of-AreChunksOf : (run_id : ℕ) (s : Rag) → AreChunksOf run_id s (chunks_of run_id s)
unfolding chunks_of
chunks_of-AreChunksOf run_id s = record {
  selected = keep (λ c. c.run_id == run_id) s.chunks;
  selects =
      keep-Selects (λ c. c.run_id ≡ run_id) (λ c. c.run_id == run_id)
        (λ c h. (==_iff c.run_id run_id).0 h) (λ c h same. differs c.run_id h same) s.chunks;
  same = ascending-Perm (λ c. c.ordinal) (keep (λ c. c.run_id == run_id) s.chunks);
}
  where
    differs : {n : ℕ} (m : ℕ) → (m == n) ≡ false → ¬ (m ≡ n)
    differs {n} m h same = ground (arith, ==_iff m n)

module _ (institution_id : ℕ) (services : Services) (digest : String → String) where
  -- A chunk's point: it has the id made of the space and the chunk's hash, and says what the chunk says.
  pub record IsPointOf (binding : RagPolicySource) (generation_id : ℕ) (c : RagChunk) (p : Point)
      : Type 0 where
    pub id : p.point.point_id ≡ point_id digest services.space_id c.chunk_hash
    pub chunk_hash : p.point.chunk_hash ≡ c.chunk_hash
    pub text : p.text ≡ c.content
    pub source_hash : p.source_hash ≡ c.source_hash
    pub artifact_hash : p.artifact_hash ≡ c.artifact_hash
    pub binding_id : p.binding_id ≡ binding.id
    pub policy_version_id : p.policy_version_id ≡ binding.policy_version_id
    pub generation : p.generation_id ≡ generation_id

  -- What was sent to the index and read from it.
  pub record IsIndexed (chunks : List RagChunk) (expected : ℕ) (binding : RagPolicySource)
      (generation_id : ℕ) : Type 0 where
    pub vectors : List (List Component)
    pub points : List Point
    pub manifest : List ManifestPoint
    pub by_provider : services.embed (map (λ c. c.content) chunks) ≡ ok vectors
    pub one_for_each : Pairs (IsPointOf binding generation_id) chunks points
    pub with_vectors : Pairs (λ (v : List Component) (p : Point). p.vector ≡ v) vectors points
    pub collection :
        services.ensure_collection
          (collection_name institution_id services.space_id)
          services.space.dimensions
          services.space.distance_metric
        ≡ ok tt
    pub sent :
        services.upsert_points (collection_name institution_id services.space_id) points ≡ ok tt
    pub fetched :
        services.fetch_manifest
          (collection_name institution_id services.space_id)
          generation_id
          expected
        ≡ ok manifest
    pub same : Perm (map (λ p. p.point) points) manifest

  points_of-Pairs :
      (binding : RagPolicySource) (generation_id : ℕ) (chunks : List RagChunk)
      (vectors : List (List Component)) (points : List Point)
      → points_of digest services.space_id binding generation_id chunks vectors ≡ ok points
      → Pairs (IsPointOf binding generation_id) chunks points
        × Pairs (λ (v : List Component) (p : Point). p.vector ≡ v) vectors points
  unfolding points_of
  points_of-Pairs binding generation_id [] [] points h =
      let nothing : [] ≡ points = cc h in rw (sym nothing) (tt, tt)
  points_of-Pairs binding generation_id [] (v ∷ vs) points h = cc
  points_of-Pairs binding generation_id (c ∷ cs) [] points h = cc
  points_of-Pairs binding generation_id (c ∷ cs) (v ∷ vs) points h =
      elim (Result-cases (validate_hash c.chunk_hash)) [
        | inr (e, invalid) ↦ absurd (cc (rw (invalid, points_of) at h))
        | inl (_, valid) ↦
            elim (Result-cases (points_of digest services.space_id binding generation_id cs vs)) [
              | inr (e, failed) ↦ absurd (cc (rw (valid, failed, points_of) at h))
              | inl (ps, made) ↦
                  let (each, with_vectors) = points_of-Pairs binding generation_id cs vs ps made in
                  let same = ok-injective (rw (valid, made, points_of) at h) in
                  rw (sym same) (
                    (
                      record {
                        id = refl;
                        chunk_hash = refl;
                        text = refl;
                        source_hash = refl;
                        artifact_hash = refl;
                        binding_id = refl;
                        policy_version_id = refl;
                        generation = refl;
                      },
                      each,
                    ),
                    (refl, with_vectors),
                  )
            ]
      ]

  pub attempt-inversion :
      {A : Type 0} (code : String) (id : ℕ) (r : Result A) (f : A → Action Rag ℕ) (s t : Rag)
      (g : ℕ)
      → (attempt code id r >>= f) s ≡ (ok g, t)
      → (a : A) × (r ≡ ok a) × (f a s ≡ (ok g, t))
  unfolding attempt
  attempt-inversion code id (ok a) f s t g h = (a, refl, h)
  attempt-inversion code id (err e) f s t g h = cc (ap (λ p. p.0) h)

  embedded-ok :
      (chunks : List RagChunk) (expected : ℕ) (vectors : List (List Component))
      → embedded institution_id services digest chunks expected ≡ ok vectors
      → services.embed (map (λ c. c.content) chunks) ≡ ok vectors
  unfolding embedded
  embedded-ok chunks expected vectors h = ground arith

  upserted-ok :
      (points : List Point)
      → upserted institution_id services digest points ≡ ok tt
      → (services.ensure_collection
            (collection_name institution_id services.space_id)
            services.space.dimensions
            services.space.distance_metric
          ≡ ok tt)
        × (services.upsert_points (collection_name institution_id services.space_id) points ≡ ok tt)
  unfolding upserted
  upserted-ok points h = ground arith

  compared-ok :
      (generation_id expected : ℕ) (points : List Point) (manifest : List ManifestPoint)
      → compared institution_id services digest generation_id points expected ≡ ok manifest
      → (services.fetch_manifest
            (collection_name institution_id services.space_id)
            generation_id
            expected
          ≡ ok manifest)
        × (validate_manifest (map (λ p. p.point) points) manifest ≡ ok tt)
  unfolding compared
  compared-ok generation_id expected points manifest h = ground arith

  pub points_of-IsIndexed :
      (chunks : List RagChunk) (expected : ℕ) (binding : RagPolicySource) (generation_id : ℕ)
      (vectors : List (List Component)) (points : List Point) (manifest : List ManifestPoint)
      → embedded institution_id services digest chunks expected ≡ ok vectors
      → points_of digest services.space_id binding generation_id chunks vectors ≡ ok points
      → upserted institution_id services digest points ≡ ok tt
      → compared institution_id services digest generation_id points expected ≡ ok manifest
      → IsIndexed chunks expected binding generation_id
  points_of-IsIndexed chunks expected binding generation_id vectors points manifest read made sent
        back =
      let (each, with_vectors) = points_of-Pairs binding generation_id chunks vectors points made in
      let (collection, upserted) = upserted-ok points sent in
      let (fetched, valid) = compared-ok generation_id expected points manifest back in
      record {
        vectors = vectors;
        points = points;
        manifest = manifest;
        by_provider = embedded-ok chunks expected vectors read;
        one_for_each = each;
        with_vectors = with_vectors;
        collection = collection;
        sent = upserted;
        fetched = fetched;
        same = (validate_manifest-Perm (map (λ p. p.point) points) manifest valid).2;
      }
