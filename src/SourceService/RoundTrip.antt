-- ===== src/SourceService/RoundTrip.antt =====
-- Bytes that are imported and read again.
use placement_assistant.Prelude.{
  ℕ, String, true, some, length, ◌≡◌, refl, sym, ap, ◌∙◌, arith, ok, Bool-cases, Result-cases, inl,
  inr, ==_iff, ◌≤◌,
}
use placement_assistant.Database.{Principal}
use placement_assistant.Evidence.{SourceIdentity, verify_source, max_source_bytes}
use placement_assistant.Evidence.Identity.{source_identity}
use placement_assistant.Rag.{Rag, Bytes, RagSourceObject, Fault}
use placement_assistant.SourceService.Storage.{read_verified, preserve}
use placement_assistant.SourceService.Immutable.{
  document_identity_reads, read_verified_reads, recording_objects,
}
use placement_assistant.SourceService.Stored.{
  verified_fits, read_verified-verified, preserve-read, preserve_tables, recording-found,
  document_identity_same,
}
use placement_assistant.SourceService.Review.{review_steps}
use placement_assistant.SourceService.{
  is_staff_role, document_identity, get, recording, agrees, import_as, import_matching_bytes,
  read_for_review,
}

module _ (principal : Principal) (sha256 : Bytes → String) where
  -- What an import that returned has done: the bytes are verified, can be read, and the row says so.
  record Imported (identity : SourceIdentity) (bytes : Bytes) (s t : Rag) : Type 0 where
    found : Bytes
    readable : (read_verified sha256 identity t).0 ≡ ok found
    verified : verify_source length sha256 identity bytes ≡ ok tt
    row : RagSourceObject
    recorded : (get principal identity.document_id t).0 ≡ ok (some row)
    agreeing : agrees identity row ≡ true
    measured : row.byte_length ≡ length bytes
    documents : t.documents ≡ s.documents

  import_as_steps :
      (new_id : ℕ) (bytes : Bytes) (identity : SourceIdentity) (s : Rag) (r : RagSourceObject)
      → (import_as principal sha256 new_id bytes identity s).0 ≡ ok r
      → let preserved = (preserve sha256 identity bytes s).1 in
        (verify_source length sha256 identity bytes ≡ ok tt)
        × ((preserve sha256 identity bytes s).0 ≡ ok tt)
        × ((recording principal new_id identity (length bytes) preserved).0 ≡ ok r)
        × (import_as principal sha256 new_id bytes identity s
            ≡ recording principal new_id identity (length bytes) preserved)
  unfolding import_as
  import_as_steps new_id bytes identity s r h = ground arith

  read_verified_same :
      (identity : SourceIdentity) (s t : Rag)
      → t.objects ≡ s.objects
      → t.fault ≡ s.fault
      → (read_verified sha256 identity t).0 ≡ (read_verified sha256 identity s).0
  unfolding read_verified
  read_verified_same identity s t objects fault = ground arith

  import_as-Imported :
      (new_id : ℕ) (bytes : Bytes) (identity : SourceIdentity) (s : Rag) (r : RagSourceObject)
      → s.fault ≡ Fault.healthy
      → (import_as principal sha256 new_id bytes identity s).0 ≡ ok r
      → Imported identity bytes s (import_as principal sha256 new_id bytes identity s).1
  import_as-Imported new_id bytes identity s r well h =
      let (verified, kept, ended, same) = import_as_steps new_id bytes identity s r h in
      let preserved = (preserve sha256 identity bytes s).1 in
      let (recorded, agreeing, measured, documents, fault) =
        recording-found principal new_id identity (length bytes) preserved r ended in
      let (found, readable) = preserve-read sha256 identity bytes s well kept in
      rw same record {
        found = found;
        readable =
            read_verified_same identity preserved _
              (recording_objects principal new_id identity (length bytes) preserved) fault
            ∙ readable;
        verified = verified;
        row = r;
        recorded = recorded;
        agreeing = agreeing;
        measured = measured;
        documents = documents ∙ (preserve_tables sha256 identity bytes s).0;
      }

  read_steps :
      (d : ℕ) (identity : SourceIdentity) (r : RagSourceObject) (bytes : Bytes) (s : Rag)
      → is_staff_role principal.role ≡ true
      → (document_identity principal d s).0 ≡ ok identity
      → (get principal d s).0 ≡ ok (some r)
      → agrees identity r ≡ true
      → (read_verified sha256 identity s).0 ≡ ok bytes
      → r.byte_length ≡ length bytes
      → (read_for_review principal sha256 d s).0 ≡ ok bytes
  unfolding read_for_review get
  read_steps d identity r bytes s staff found row agreeing readable measured =
      rw
        (
          staff,
          document_identity_reads principal d s,
          found,
          row,
          agreeing,
          read_verified_reads sha256 identity s,
          readable,
          measured,
          (==_iff (length bytes) (length bytes)).1 refl,
        )
        refl

  import_steps :
      (new_id d : ℕ) (bytes : Bytes) (s : Rag) (r : RagSourceObject)
      → (import_matching_bytes principal sha256 new_id d bytes s).0 ≡ ok r
      → (is_staff_role principal.role ≡ true)
        × ((identity : SourceIdentity) × ((document_identity principal d s).0 ≡ ok identity)
            × (import_matching_bytes principal sha256 new_id d bytes s
                ≡ import_as principal sha256 new_id bytes identity s))
  unfolding import_matching_bytes
  import_steps new_id d bytes s r h = elim (Result-cases (document_identity principal d s).0) [
    | inl (identity, found) ↦ elim (Bool-cases (is_staff_role principal.role)) [
      | inl staff ↦
          (staff, (identity, found, rw (staff, document_identity_reads principal d s, found) refl))
      | inr other ↦ absurd (ground arith)
    ]
    | inr (e, raised) ↦ absurd (ground (arith, document_identity_reads principal d s))
  ]

  document_identity-document_id :
      (d : ℕ) (s : Rag) (identity : SourceIdentity)
      → (document_identity principal d s).0 ≡ ok identity
      → identity.document_id ≡ d
  unfolding document_identity source_identity
  document_identity-document_id d s identity h = ground arith

  -- When the store works, and no other bytes have the digest of these, then after an import that
  -- returned the document can be read for review, and what is read is the imported bytes.
  pub import_matching_bytes-read_for_review :
      (new_id d : ℕ) (bytes : Bytes) (s : Rag) (r : RagSourceObject)
      → s.fault ≡ Fault.healthy
      → ((other : Bytes) → sha256 other ≡ sha256 bytes → other ≡ bytes)
      → (import_matching_bytes principal sha256 new_id d bytes s).0 ≡ ok r
      → (read_for_review principal sha256 d
          (import_matching_bytes principal sha256 new_id d bytes s).1).0
        ≡ ok bytes
  import_matching_bytes-read_for_review new_id d bytes s r well unique h =
      let (staff, (identity, identified, same)) = import_steps new_id d bytes s r h in
      let t = (import_as principal sha256 new_id bytes identity s).1 in
      let done : Imported identity bytes s t =
        import_as-Imported new_id bytes identity s r well (rw same at h) in
      let hash = (verified_fits sha256 identity bytes done.verified).1 in
      let found_hash =
        (verified_fits sha256 identity done.found
          (read_verified-verified sha256 identity t done.found done.readable)).1 in
      let whole : done.found ≡ bytes = unique done.found (found_hash ∙ sym hash) in
      let same_id = document_identity-document_id d s identity identified in
      rw same (
        read_steps d identity done.row bytes t staff
          (document_identity_same principal d s t done.documents ∙ identified)
          (rw (sym same_id) done.recorded) done.agreeing (done.readable ∙ ap (λ b. ok b) whole)
          done.measured)

  document_identity_fields :
      (d : ℕ) (s : Rag) (identity : SourceIdentity)
      → (document_identity principal d s).0 ≡ ok identity
      → identity ≡ record {
        institution_id = principal.institution_id;
        document_id = d;
        source_hash = identity.source_hash;
      }
  unfolding document_identity source_identity
  document_identity_fields d s identity h = ground arith

  -- Whatever is read for review is what the caller's institution has on record: a document of that
  -- institution with this id has the digest of the bytes, and they are at most 10 MiB.
  pub read_for_review-IsRecorded :
      (d : ℕ) (s : Rag) (bytes : Bytes)
      → (read_for_review principal sha256 d s).0 ≡ ok bytes
      → (document_identity principal d s).0
          ≡ ok record {
            institution_id = principal.institution_id;
            document_id = d;
            source_hash = sha256 bytes;
          }
        × (length bytes ≤ max_source_bytes)
  read_for_review-IsRecorded d s bytes h =
      let (identity, identified, readable, _) = review_steps principal sha256 d s bytes h in
      let (fits, hash) =
        verified_fits sha256 identity bytes
          (read_verified-verified sha256 identity s bytes readable) in
      (
        identified
            ∙ ap (λ i. ok i) (document_identity_fields d s identity identified)
            ∙ ap
                (λ x. ok record {
                  institution_id = principal.institution_id;
                  document_id = d;
                  source_hash = x;
                })
                (sym hash),
        fits,
      )
