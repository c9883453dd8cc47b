-- ===== src/SourceService/Stored.antt =====
-- What a successful `preserve` and a successful `recording` leave behind.
use placement_assistant.Prelude.{
  false, find-snoc, ℕ, zero, suc, ◌+◌, ◌≤◌, String, true, none, some, [], ◌∷◌, ◌++◌, length, ◌≡◌,
  refl, ap, arith, ok, eq_iff, Option-cases, Result-cases, inl, inr,
}
use placement_assistant.Database.{Principal}
use placement_assistant.Evidence.{SourceIdentity, verify_source, max_source_bytes}
use placement_assistant.Evidence.Identity.{object_key}
use placement_assistant.Rag.{Rag, Bytes, StoredObject, RagSourceObject, Fault}
use placement_assistant.SourceService.Storage.{
  object_at, take, read_verified, link_or_verify, preserve,
}
use placement_assistant.SourceService.Immutable.{read_verified_reads}
use placement_assistant.SourceService.{
  document_identity, get, recording, insert_or_keep, add_unless, confirm, agrees,
}

take_all : (n : ℕ) (bytes : Bytes) → length bytes ≤ n → take n bytes ≡ bytes
unfolding take
take_all zero [] h = refl
take_all zero (b ∷ bytes) h = absurd (omega (arith, h))
take_all (suc n) [] h = refl
take_all (suc n) (b ∷ bytes) h = ap (λ rest. b ∷ rest) (take_all n bytes (omega (arith, h)))

module _ (sha256 : Bytes → String) (identity : SourceIdentity) where
  pub verified_fits :
      (bytes : Bytes)
      → verify_source length sha256 identity bytes ≡ ok tt
      → (length bytes ≤ max_source_bytes) × (sha256 bytes ≡ identity.source_hash)
  unfolding verify_source
  verified_fits bytes h = ground (arith, eq_iff (sha256 bytes) identity.source_hash)

  pub read_verified-verified :
      (s : Rag) (bytes : Bytes)
      → (read_verified sha256 identity s).0 ≡ ok bytes
      → verify_source length sha256 identity bytes ≡ ok tt
  unfolding read_verified
  read_verified-verified s bytes h = ground arith

  read-found :
      (s : Rag) (o : StoredObject)
      → s.fault ≡ Fault.healthy
      → object_at (object_key identity) s ≡ some o
      → o.link ≡ false
      → o.regular ≡ true
      → verify_source length sha256 identity o.contents ≡ ok tt
      → (read_verified sha256 identity s).0 ≡ ok o.contents
  unfolding read_verified
  read-found s o well there direct regular h =
      let whole : take (max_source_bytes + 1) o.contents ≡ o.contents =
        take_all (max_source_bytes + 1) o.contents
          (omega (arith, (verified_fits o.contents h).0)) in
      rw (well, there, direct, regular, whole, h) refl

  abbrev linked : Bytes → Rag → Rag
  linked bytes s = record s {
    objects =
        s.objects
        ++ record { key = object_key identity; link = false; regular = true; contents = bytes }
          ∷ [];
  }

  preserve_present :
      (bytes : Bytes) (s : Rag) (o : StoredObject)
      → object_at (object_key identity) s ≡ some o
      → (preserve sha256 identity bytes s).0 ≡ ok tt
      → ((found : Bytes) × ((read_verified sha256 identity s).0 ≡ ok found))
        × ((preserve sha256 identity bytes s).1 ≡ s)
  unfolding preserve link_or_verify
  preserve_present bytes s o there h = elim (Result-cases (read_verified sha256 identity s).0) [
    | inl found ↦ (found, ground arith)
    | inr (e, raised) ↦ absurd (ground arith)
  ]

  preserve_absent :
      (bytes : Bytes) (s : Rag)
      → object_at (object_key identity) s ≡ none
      → (preserve sha256 identity bytes s).0 ≡ ok tt
      → (verify_source length sha256 identity bytes ≡ ok tt)
        × ((preserve sha256 identity bytes s).1 ≡ linked bytes s)
  unfolding preserve link_or_verify
  preserve_absent bytes s absent h = ground arith

  linked-object_at :
      (bytes : Bytes) (s : Rag)
      → object_at (object_key identity) s ≡ none
      → object_at (object_key identity) (linked bytes s)
        ≡ some record { key = object_key identity; link = false; regular = true; contents = bytes }
  unfolding object_at
  linked-object_at bytes s absent =
      find-snoc _ s.objects _ absent ((eq_iff (object_key identity) (object_key identity)).1 refl)

  -- After `preserve` the object can be read.
  pub preserve-read :
      (bytes : Bytes) (s : Rag)
      → s.fault ≡ Fault.healthy
      → (preserve sha256 identity bytes s).0 ≡ ok tt
      → (found : Bytes) × ((read_verified sha256 identity (preserve sha256 identity bytes s).1).0
          ≡ ok found)
  preserve-read bytes s well h = elim (Option-cases (object_at (object_key identity) s)) [
    | inl absent ↦
        let (verified, at) = preserve_absent bytes s absent h in
        (
          bytes,
          rw at (
              read-found (linked bytes s) _ well (linked-object_at bytes s absent) refl refl
                verified),
        )
    | inr (o, there) ↦
        let (found, at) = preserve_present bytes s o there h in (found.0, rw at found.1)
  ]

  pub preserve_tables :
      (bytes : Bytes) (s : Rag)
      → let t = (preserve sha256 identity bytes s).1 in
        (t.documents ≡ s.documents) × (t.source_objects ≡ s.source_objects) × (t.fault ≡ s.fault)
  unfolding preserve link_or_verify
  preserve_tables bytes s = ground (arith, read_verified_reads sha256 identity s)

module _ (principal : Principal) where
  pub recording-found :
      (new_id : ℕ) (identity : SourceIdentity) (n : ℕ) (s : Rag) (r : RagSourceObject)
      → (recording principal new_id identity n s).0 ≡ ok r
      → let t = (recording principal new_id identity n s).1 in
        ((get principal identity.document_id t).0 ≡ ok (some r))
        × (agrees identity r ≡ true)
        × (r.byte_length ≡ n)
        × (t.documents ≡ s.documents)
        × (t.fault ≡ s.fault)
  unfolding recording insert_or_keep add_unless confirm agrees
  recording-found new_id identity n s r h = ground arith

  pub document_identity_same :
      (d : ℕ) (s t : Rag)
      → t.documents ≡ s.documents
      → (document_identity principal d t).0 ≡ (document_identity principal d s).0
  unfolding document_identity
  document_identity_same d s t h = ground arith
