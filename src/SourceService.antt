-- ===== src/SourceService.antt =====
-- apps/api/app/rag/source_service.py and source_repository.py: staff import bytes that match a
-- document's hash, and read them back for review. sha256 is a parameter.
pub mod Storage
pub mod Immutable
pub mod Stored
pub mod Review
pub mod RoundTrip
mod Tests
use placement_assistant.Prelude.{
  ℕ, ◌+◌, String, Bool, true, false, not, ◌&&◌, ◌||◌, Option, none, some, List, [], ◌∷◌, ◌++◌, keep,
  any, length, Result, ok, err, Action, ◌>>=◌, ◌>>◌, pure, raise, raise_if, gets, lift, or_raise,
  modify, Error, evidence, database, integrity_error, ◌==◌, leb, str_eq, if◌then◌else◌, is_some,
}
use placement_assistant.Database.{Principal, Role, one_or_none}
use placement_assistant.Evidence.{SourceIdentity, verify_source, max_source_bytes}
use placement_assistant.Evidence.Identity.{source_identity, object_key}
use placement_assistant.Rag.{Rag, Bytes, Document, RagSourceObject}
use placement_assistant.SourceService.Storage.{preserve, read_verified}

unfoldable pub is_staff_role : Role → Bool
is_staff_role Role.admin = true
is_staff_role Role.coordinator = true
is_staff_role _ = false

unfoldable pub agrees : SourceIdentity → RagSourceObject → Bool
agrees identity r =
    str_eq r.source_hash identity.source_hash && str_eq r.object_key (object_key identity)

-- SourceRepository and SourceService, for one principal.
module _ (principal : Principal) where
  unfoldable pub is_document : ℕ → Document → Bool
  is_document document_id d = d.institution_id == principal.institution_id && d.id == document_id

  unfoldable pub document_identity : ℕ → Action Rag SourceIdentity
  unfolding is_document
  document_identity document_id = do
    rows ← gets (λ s. keep (is_document document_id) s.documents)
    row ← lift (one_or_none rows)
    document ← or_raise (evidence "SOURCE_NOT_FOUND") row
    lift (source_identity principal.institution_id document_id document.content_hash)

  unfoldable pub is_source_of : ℕ → RagSourceObject → Bool
  is_source_of document_id r =
      r.institution_id == principal.institution_id && r.document_id == document_id

  unfoldable pub get : ℕ → Action Rag (Option RagSourceObject)
  unfolding is_source_of
  get document_id s = (one_or_none (keep (is_source_of document_id) s.source_objects), s)

  -- rag_guard_source_object, before an insert
  matches_document : RagSourceObject → Rag → Bool
  matches_document r s =
      any
        (λ d.
          d.institution_id == r.institution_id
          && d.id == r.document_id
          && str_eq d.content_hash r.source_hash)
        s.documents

  key_taken : String → Rag → Bool
  key_taken key s = any (λ r. str_eq r.object_key key) s.source_objects

  -- `on_conflict_do_nothing` of the institution's document
  add_unless : Bool → RagSourceObject → Action Rag Unit
  unfolding key_taken
  add_unless true r = pure tt
  add_unless false r = do
    taken ← gets (key_taken r.object_key)
    raise_if taken integrity_error
    modify (λ s. record s { source_objects = s.source_objects ++ r ∷ [] })

  insert_or_keep : RagSourceObject → Action Rag Unit
  unfolding matches_document is_source_of add_unless
  insert_or_keep r = do
    matching ← gets (matches_document r)
    raise_if (not matching) (database "RAG source must match tenant document hash")
    raise_if (not (leb 1 r.byte_length && leb r.byte_length max_source_bytes)) integrity_error
    present ← gets (λ s. any (is_source_of r.document_id) s.source_objects)
    add_unless present r

  same_source : SourceIdentity → ℕ → RagSourceObject → Bool
  same_source identity byte_length r =
      str_eq r.source_hash identity.source_hash
      && str_eq r.object_key (object_key identity)
      && r.byte_length == byte_length

  confirm : SourceIdentity → ℕ → Option RagSourceObject → Action Rag RagSourceObject
  unfolding same_source
  confirm identity byte_length none = raise (evidence "SOURCE_METADATA_MISMATCH")
  confirm identity byte_length (some r) =
      if same_source identity byte_length r
      then pure r
      else raise (evidence "SOURCE_METADATA_MISMATCH")

  unfoldable pub recording : ℕ → SourceIdentity → ℕ → Action Rag RagSourceObject
  unfolding insert_or_keep get confirm
  recording new_id identity byte_length = do
    raise_if (not (identity.institution_id == principal.institution_id))
        (evidence "SOURCE_NOT_FOUND")
    insert_or_keep record {
      id = new_id;
      institution_id = principal.institution_id;
      document_id = identity.document_id;
      object_key = object_key identity;
      byte_length = byte_length;
      source_hash = identity.source_hash;
      actor_id = principal.sub;
    }
    recorded ← get identity.document_id
    confirm identity byte_length recorded

  module _ (sha256 : Bytes → String) where
    unfoldable pub import_as : ℕ → Bytes → SourceIdentity → Action Rag RagSourceObject
    import_as new_id bytes identity = do
      lift (verify_source length sha256 identity bytes)
      preserve sha256 identity bytes
      recording new_id identity (length bytes)

    unfoldable pub import_matching_bytes : ℕ → ℕ → Bytes → Action Rag RagSourceObject
    import_matching_bytes new_id document_id bytes = do
      raise_if (not (is_staff_role principal.role)) (evidence "FORBIDDEN")
      identity ← document_identity document_id
      import_as new_id bytes identity

    unfoldable pub read_for_review : ℕ → Action Rag Bytes
    read_for_review document_id = do
      raise_if (not (is_staff_role principal.role)) (evidence "FORBIDDEN")
      identity ← document_identity document_id
      row ← get document_id
      recorded ← or_raise (evidence "SOURCE_UNAVAILABLE") row
      raise_if (not (agrees identity recorded)) (evidence "SOURCE_METADATA_MISMATCH")
      bytes ← read_verified sha256 identity
      raise_if (not (length bytes == recorded.byte_length)) (evidence "SOURCE_METADATA_MISMATCH")
      pure bytes
