-- ===== src/Evidence/Identity.antt =====
-- Hashes and object keys: `validate_hash` and `SourceIdentity` of apps/api/app/rag/contracts.py.
use placement_assistant.Prelude.{ℕ, String, ◌&&◌, Result, ok, err, evidence, ◌==◌, if◌then◌else◌}
use placement_assistant.Evidence.{Checked, SourceIdentity}
use placement_assistant.Evidence.Text.{text_length, all_hex, hex, ◌+++◌}

unfoldable pub validate_hash : String → Checked
validate_hash value =
    if text_length value == 64 && all_hex value then ok tt else err (evidence "INVALID_HASH")

abbrev checked : {A : Type 0} → Checked → A → Result A
checked (ok _) a = ok a
checked (err e) a = err e

-- `SourceIdentity(institution_id, document_id, source_hash)`; that the first two are UUIDs is their
-- type.
unfoldable pub source_identity : ℕ → ℕ → String → Result SourceIdentity
unfolding validate_hash
source_identity institution_id document_id source_hash =
    checked (validate_hash source_hash) record {
      institution_id = institution_id;
      document_id = document_id;
      source_hash = source_hash;
    }

unfoldable pub object_key : SourceIdentity → String
object_key identity =
    hex identity.institution_id
    +++ "-"
    +++ hex identity.document_id
    +++ "-"
    +++ identity.source_hash
