-- ===== src/RetrievalService/Published.antt =====
-- Which generation a retrieval reads from, and what a citation says.
use placement_assistant.Prelude.{
  ℕ, Bool, true, false, ◌&&◌, none, some, List, [], ◌∷◌, find, find-passes, find-Has, any, any-All,
  All, All-map, Has, ◌≡◌, ◌≢◌, refl, inl, inr, arith, Bool-cases, ◌==◌, ==_iff,
}
use placement_assistant.Evidence.Chunk.{CitationMetadata}
use placement_assistant.Rag.{Rag, RagPolicySource, RagPublishedGeneration}
use placement_assistant.RetrievalService.{Row, is_bound, published_for, citation_of}

find-none : {A : Type 0} (p : A → Bool) (xs : List A) → find p xs ≡ none → All (λ x. p x ≡ false) xs
unfolding find
find-none p [] h = tt
find-none p (x ∷ xs) h = ground (arith, find-none p xs)

any-Has :
    {A : Type 0} (p : A → Bool) (xs : List A)
    → any p xs ≡ true
    → (a : A) × Has (λ x. x ≡ a) xs × (p a ≡ true)
unfolding any
any-Has p [] h = cc
any-Has p (x ∷ xs) h = elim (Bool-cases (p x)) [
  | inl passes ↦ (x, inl refl, passes)
  | inr fails ↦ let (a, there, passes) = any-Has p xs (rw fails at h) in (a, inr there, passes)
]

module _ (institution_id policy_version_id : ℕ) where
  -- A generation that the institution publishes for a binding to this version of the policy.
  pub record IsPublishedFor (s : Rag) (p : RagPublishedGeneration) : Type 0 where
    pub binding : RagPolicySource
    pub there : Has (λ x. x ≡ p) s.published
    pub institution : p.institution_id ≡ institution_id
    pub binding_there : Has (λ b. b ≡ binding) s.policy_sources
    pub of_binding : p.binding_id ≡ binding.id
    pub of_policy : binding.policy_version_id ≡ policy_version_id

  -- No generation of the institution is published for a binding to this version.
  abbrev pub NothingPublished : Rag → Type 0
  NothingPublished s =
      All
        (λ p.
          p.institution_id ≡ institution_id
          → All (λ b. b.id ≡ p.binding_id → b.policy_version_id ≢ policy_version_id)
              s.policy_sources)
        s.published

  pub published_for-some :
      (s : Rag) (p : RagPublishedGeneration)
      → published_for institution_id policy_version_id s ≡ some p
      → IsPublishedFor s p
  unfolding published_for
  published_for-some s p h =
      let passes =
        find-passes (is_bound institution_id policy_version_id s.policy_sources) s.published p h in
      let (binding, there, bound) =
        any-Has (λ b. b.id == p.binding_id && b.policy_version_id == policy_version_id)
          s.policy_sources (ground arith) in
      record {
        binding = binding;
        there = find-Has _ s.published p h;
        institution = ground (arith, ==_iff p.institution_id institution_id);
        binding_there = there;
        of_binding = ground (arith, ==_iff binding.id p.binding_id);
        of_policy = ground (arith, ==_iff binding.policy_version_id policy_version_id);
      }

  unbound :
      (s : Rag) (p : RagPublishedGeneration)
      → is_bound institution_id policy_version_id s.policy_sources p ≡ false
      → p.institution_id ≡ institution_id
      → All (λ b. b.id ≡ p.binding_id → b.policy_version_id ≢ policy_version_id) s.policy_sources
  unbound s p h place =
      All-map (λ b. (b.id == p.binding_id && b.policy_version_id == policy_version_id) ≡ false)
        (λ b. b.id ≡ p.binding_id → b.policy_version_id ≢ policy_version_id)
        (λ b fails same version.
          ground (arith, ==_iff b.id p.binding_id, ==_iff b.policy_version_id policy_version_id))
        s.policy_sources
        (any-All (λ b. b.id == p.binding_id && b.policy_version_id == policy_version_id)
          s.policy_sources (rw ((==_iff p.institution_id institution_id).1 place) at h))

  pub published_for-none :
      (s : Rag) → published_for institution_id policy_version_id s ≡ none → NothingPublished s
  unfolding published_for
  published_for-none s h =
      All-map (λ p. is_bound institution_id policy_version_id s.policy_sources p ≡ false) _
        (λ p fails. unbound s p fails) s.published
        (find-none (is_bound institution_id policy_version_id s.policy_sources) s.published h)

  -- A citation of the row, column by column.
  pub record Cites (x : Row) (c : CitationMetadata) : Type 0 where
    pub document_id : c.document_id ≡ x.object.document_id
    pub source_hash : c.source_hash ≡ x.source.source_hash
    pub chunk_hash : c.chunk_hash ≡ x.chunk.chunk_hash
    pub ordinal : c.ordinal ≡ x.chunk.ordinal
    pub page : c.page ≡ x.chunk.page
    pub section : c.section ≡ x.chunk.section
    pub start_offset : c.start_offset ≡ x.chunk.start_offset
    pub end_offset : c.end_offset ≡ x.chunk.end_offset

  pub citation_of-Cites : (x : Row) → Cites x (citation_of institution_id policy_version_id x)
  unfolding citation_of
  citation_of-Cites x = record {
    document_id = refl;
    source_hash = refl;
    chunk_hash = refl;
    ordinal = refl;
    page = refl;
    section = refl;
    start_offset = refl;
    end_offset = refl;
  }
