-- ===== src/SourceService/Review.antt =====
-- The steps of a review that returned.
use placement_assistant.Prelude.{
  ℕ, String, true, Option, none, some, ◌≡◌, refl, arith, Result, ok, err, Result-cases, inl, inr,
}
use placement_assistant.Database.{Principal}
use placement_assistant.Evidence.{SourceIdentity}
use placement_assistant.Rag.{Rag, Bytes, RagSourceObject}
use placement_assistant.SourceService.Storage.{read_verified}
use placement_assistant.SourceService.Immutable.{document_identity_reads, read_verified_reads}
use placement_assistant.SourceService.{document_identity, get, agrees, read_for_review}

module _ (principal : Principal) (sha256 : Bytes → String) where
  review_recorded :
      (d : ℕ) (s : Rag) (bytes : Bytes) (identity : SourceIdentity)
      (o : Result (Option RagSourceObject))
      → (read_for_review principal sha256 d s).0 ≡ ok bytes
      → (document_identity principal d s).0 ≡ ok identity
      → (get principal d s).0 ≡ o
      → (r : RagSourceObject) × (o ≡ ok (some r)) × (agrees identity r ≡ true)
  unfolding read_for_review get
  review_recorded d s bytes identity (ok (some r)) h found got =
      (r, refl, ground (arith, document_identity_reads principal d s))
  review_recorded d s bytes identity (ok none) h found got =
      absurd (ground (arith, document_identity_reads principal d s))
  review_recorded d s bytes identity (err e) h found got =
      absurd (ground (arith, document_identity_reads principal d s))

  review_readable :
      (d : ℕ) (s : Rag) (bytes : Bytes) (identity : SourceIdentity)
      → (read_for_review principal sha256 d s).0 ≡ ok bytes
      → (document_identity principal d s).0 ≡ ok identity
      → (read_verified sha256 identity s).0 ≡ ok bytes
  unfolding read_for_review get
  review_readable d s bytes identity h found =
      ground (arith, document_identity_reads principal d s, read_verified_reads sha256 identity s)

  review_identified :
      (d : ℕ) (s : Rag) (bytes : Bytes)
      → (read_for_review principal sha256 d s).0 ≡ ok bytes
      → (identity : SourceIdentity) × ((document_identity principal d s).0 ≡ ok identity)
  unfolding read_for_review
  review_identified d s bytes h = elim (Result-cases (document_identity principal d s).0) [
    | inl found ↦ found
    | inr (e, raised) ↦ absurd (ground (arith, document_identity_reads principal d s))
  ]

  pub review_steps :
      (d : ℕ) (s : Rag) (bytes : Bytes)
      → (read_for_review principal sha256 d s).0 ≡ ok bytes
      → (identity : SourceIdentity) × ((document_identity principal d s).0 ≡ ok identity)
        × ((read_verified sha256 identity s).0 ≡ ok bytes)
        × ((r : RagSourceObject) × ((get principal d s).0 ≡ ok (some r))
            × (agrees identity r ≡ true))
  review_steps d s bytes h =
      let (identity, found) = review_identified d s bytes h in
      (
        identity,
        found,
        review_readable d s bytes identity h found,
        review_recorded d s bytes identity (get principal d s).0 h found refl,
      )
