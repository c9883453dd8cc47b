-- ===== src/SourceService/Storage.antt =====
-- LocalDocumentStore of apps/api/app/rag/source_store.py. The staging file is gone when `preserve`
-- returns, so the directory's entries are the objects; the operating system's errors are a fault of
-- the state.
use placement_assistant.Prelude.{
  ℕ, zero, suc, ◌+◌, String, Bool, true, false, not, Option, none, some, [], ◌∷◌, ◌++◌, find,
  length, Action, ◌>>=◌, ◌>>◌, pure, raise_if, gets, lift, or_raise, modify, evidence, str_eq,
}
use placement_assistant.Evidence.{SourceIdentity, verify_source, max_source_bytes}
use placement_assistant.Evidence.Identity.{object_key}
use placement_assistant.Rag.{Rag, Bytes, StoredObject, Fault}

unfoldable pub take : ℕ → Bytes → Bytes
take zero bytes = []
take (suc n) [] = []
take (suc n) (b ∷ bytes) = b ∷ take n bytes

unfoldable pub object_at : String → Rag → Option StoredObject
object_at key s = find (λ o. str_eq o.key key) s.objects

unfoldable pub is_unreadable : Fault → Bool
is_unreadable Fault.unreadable = true
is_unreadable _ = false

unfoldable pub is_unwritable : Fault → Bool
is_unwritable Fault.unwritable = true
is_unwritable _ = false

unfoldable pub is_unsynced : Fault → Bool
is_unsynced Fault.unsynced = true
is_unsynced _ = false

module _ (sha256 : Bytes → String) where
  unfoldable pub read_verified : SourceIdentity → Action Rag Bytes
  unfolding take object_at is_unreadable
  read_verified identity = do
    unreadable ← gets (λ s. is_unreadable s.fault)
    raise_if unreadable (evidence "SOURCE_STORAGE_UNAVAILABLE")
    entry ← gets (object_at (object_key identity))
    object ← or_raise (evidence "SOURCE_UNAVAILABLE") entry
    raise_if object.link (evidence "SOURCE_STORAGE_UNAVAILABLE")
    raise_if (not object.regular) (evidence "INVALID_SOURCE_OBJECT")
    lift (verify_source length sha256 identity (take (max_source_bytes + 1) object.contents))
    pure (take (max_source_bytes + 1) object.contents)

  -- `os.link`, and the read that stands in for it when the name is taken
  unfoldable pub link_or_verify : SourceIdentity → Bytes → Option StoredObject → Action Rag Unit
  unfolding read_verified
  link_or_verify identity bytes (some object) = do read_verified identity; pure tt
  link_or_verify identity bytes none = modify (λ s. record s {
    objects =
        s.objects
        ++ record { key = object_key identity; link = false; regular = true; contents = bytes }
          ∷ [];
  })

  unfoldable pub preserve : SourceIdentity → Bytes → Action Rag Unit
  unfolding object_at is_unwritable is_unsynced link_or_verify
  preserve identity bytes = do
    lift (verify_source length sha256 identity bytes)
    unwritable ← gets (λ s. is_unwritable s.fault)
    raise_if unwritable (evidence "SOURCE_STORAGE_UNAVAILABLE")
    entry ← gets (object_at (object_key identity))
    link_or_verify identity bytes entry
    unsynced ← gets (λ s. is_unsynced s.fault)
    raise_if unsynced (evidence "SOURCE_STORAGE_UNAVAILABLE")
