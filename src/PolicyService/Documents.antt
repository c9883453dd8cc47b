-- ===== src/PolicyService/Documents.antt =====
-- `create_document` of apps/api/app/core/services/policy_service.py, with the constraints of the table.
pub mod Created
mod Tests
use Prim.Native.Char.{code}
use placement_assistant.Prelude.{
  ℕ, String, Bool, true, false, not, ◌&&◌, ◌||◌, List, [], ◌∷◌, ◌++◌, any, Action, ◌>>=◌, ◌>>◌,
  pure, modify, gets, raise_if, integrity_error, ◌==◌, str_eq, if◌then◌else◌,
}
use placement_assistant.Database.{Principal}
use placement_assistant.Evidence.Text.{text_length, all_hex, ◌+++◌}
use placement_assistant.Rag.{Rag, Bytes, Document}

pub record DocumentCreate : Type 0 where
  pub filename : String
  pub media_type : String
  pub content : String

-- `'/' in text`
unfoldable pub has_slash : String → Bool
has_slash String.[] = false
has_slash (String.◌∷◌ c s) = code c == 47 || has_slash s

-- `text.split('/')[-1]`
unfoldable pub last_part : String → String
unfolding has_slash
last_part String.[] = String.[]
last_part (String.◌∷◌ c s) =
    let rest = last_part s in
    if has_slash s then rest else if code c == 47 then s else String.◌∷◌ c s

unfoldable pub extension : String → String
unfolding last_part
extension media_type = if has_slash media_type then last_part media_type else "bin"

-- The constraints that a new row violates: the key is taken, the hash is none, or the type is not one
-- of three.
unfoldable pub is_taken : ℕ → String → Document → Bool
is_taken institution_id storage_key d =
    d.institution_id == institution_id && str_eq d.storage_key storage_key

unfoldable pub is_media_type : String → Bool
is_media_type t = str_eq t "application/pdf" || str_eq t "text/markdown" || str_eq t "text/plain"

abbrev pub violates : Document → Rag → Bool
violates d s =
    any (is_taken d.institution_id d.storage_key) s.documents
    || not (text_length d.content_hash == 64 && all_hex d.content_hash)
    || not (is_media_type d.media_type)

-- `str_id` is str of a UUID, `encode` UTF-8; the ids of the row and of its key are new.
module _ (p : Principal) (str_id : ℕ → String) (encode : String → Bytes)
    (sha256 : Bytes → String) where
  unfoldable pub new_document : ℕ → ℕ → DocumentCreate → Document
  unfolding extension
  new_document new_id key_id posted = record {
    id = new_id;
    institution_id = p.institution_id;
    storage_key =
        "policies/"
        +++ str_id p.institution_id
        +++ "/"
        +++ str_id key_id
        +++ "."
        +++ extension posted.media_type;
    filename = posted.filename;
    media_type = posted.media_type;
    content_hash = sha256 (encode posted.content);
    source_version = "v1";
  }

  unfoldable pub create_document : ℕ → ℕ → DocumentCreate → Action Rag Document
  create_document new_id key_id posted = do
    refused ← gets (violates (new_document new_id key_id posted))
    raise_if refused integrity_error
    modify (λ s. record s { documents = s.documents ++ new_document new_id key_id posted ∷ [] })
    pure (new_document new_id key_id posted)
