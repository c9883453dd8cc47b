-- ===== src/SourceService/Immutable.antt =====
-- What the store's directory keeps.
use placement_assistant.Prelude.{
  find-append, ℕ, String, Option, none, some, ◌≡◌, arith, length, inl, inr, Bool-cases, Result, ok,
  err, continue,
}
use placement_assistant.Database.{Principal}
use placement_assistant.Evidence.{SourceIdentity}
use placement_assistant.Evidence.Identity.{object_key}
use placement_assistant.Rag.{Rag, Bytes, StoredObject}
use placement_assistant.SourceService.{
  import_matching_bytes, is_staff_role, import_as, read_for_review, document_identity, get,
  recording, insert_or_keep, add_unless, confirm,
}
use placement_assistant.SourceService.Storage.{object_at, read_verified, link_or_verify, preserve}

module _ (sha256 : Bytes → String) where
  pub read_verified_reads :
      (identity : SourceIdentity) (s : Rag) → (read_verified sha256 identity s).1 ≡ s
  unfolding read_verified
  read_verified_reads identity s = ground arith

  link_keeps :
      (identity : SourceIdentity) (bytes : Bytes) (entry : Option StoredObject) (s : Rag)
      (key : String) (o : StoredObject)
      → object_at key s ≡ some o
      → object_at key (link_or_verify sha256 identity bytes entry s).1 ≡ some o
  unfolding link_or_verify object_at
  link_keeps identity bytes (some _) s key o there = ground (arith, read_verified_reads identity s)
  link_keeps identity bytes none s key o there = find-append _ s.objects _ o there

  preserve_keeps :
      (identity : SourceIdentity) (bytes : Bytes) (s : Rag) (key : String) (o : StoredObject)
      → object_at key s ≡ some o
      → object_at key (preserve sha256 identity bytes s).1 ≡ some o
  unfolding preserve
  preserve_keeps identity bytes s key o there =
      ground (arith, link_keeps identity bytes (object_at (object_key identity) s) s key o there)

module _ (principal : Principal) where
  pub document_identity_reads : (d : ℕ) (s : Rag) → (document_identity principal d s).1 ≡ s
  unfolding document_identity
  document_identity_reads d s = ground arith

  pub recording_objects :
      (new_id : ℕ) (identity : SourceIdentity) (n : ℕ) (s : Rag)
      → (recording principal new_id identity n s).1.objects ≡ s.objects
  unfolding recording insert_or_keep add_unless get confirm
  recording_objects new_id identity n s = ground arith

  module _ (sha256 : Bytes → String) where
    import_as_keeps :
        (new_id : ℕ) (bytes : Bytes) (identity : SourceIdentity) (s : Rag) (key : String)
        (o : StoredObject)
        → object_at key s ≡ some o
        → object_at key (import_as principal sha256 new_id bytes identity s).1 ≡ some o
    unfolding import_as object_at
    import_as_keeps new_id bytes identity s key o there = ground (
      arith,
      preserve_keeps sha256 identity bytes s key o there,
      recording_objects new_id identity (length bytes) (preserve sha256 identity bytes s).1,
    )

    identified_keeps :
        (new_id : ℕ) (bytes : Bytes) (r : Result SourceIdentity) (s : Rag) (key : String)
        (o : StoredObject)
        → object_at key s ≡ some o
        → object_at key (continue r (import_as principal sha256 new_id bytes) s).1 ≡ some o
    identified_keeps new_id bytes (err e) s key o there = there
    identified_keeps new_id bytes (ok identity) s key o there =
        import_as_keeps new_id bytes identity s key o there

    -- An import, whether it returns or raises, leaves every object that is in the store with the
    -- contents that it had: nothing is overwritten and nothing is removed.
    pub import_matching_bytes-object_at :
        (new_id d : ℕ) (bytes : Bytes) (s : Rag) (key : String) (o : StoredObject)
        → object_at key s ≡ some o
        → object_at key (import_matching_bytes principal sha256 new_id d bytes s).1 ≡ some o
    unfolding import_matching_bytes
    import_matching_bytes-object_at new_id d bytes s key o there =
        elim (Bool-cases (is_staff_role principal.role)) [
          | inl staff ↦
              rw (staff, document_identity_reads d s)
                (identified_keeps new_id bytes (document_identity principal d s).0 s key o there)
          | inr other ↦ rw other there
        ]

    pub read_for_review_reads : (d : ℕ) (s : Rag) → (read_for_review principal sha256 d s).1 ≡ s
    unfolding read_for_review get document_identity read_verified
    read_for_review_reads d s = ground arith
