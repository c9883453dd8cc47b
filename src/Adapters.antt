-- ===== src/Adapters.antt =====
-- The HTTP clients of the evidence pipeline, apps/api/app/rag/qdrant_adapter.py and
-- embedding_provider.py. The other side is a parameter: its reply to each request.
pub mod Qdrant
pub mod Embedding
pub mod Scroll
pub mod Vectors
mod Tests
use placement_assistant.Prelude.{
  ℕ, String, Bool, true, false, ◌&&◌, Option, none, some, Result, ok, err, Error, evidence,
  value_error, leb, ltb, if◌then◌else◌,
}

-- What httpx gives back: an HTTPError before any response; or a status, and the body that was looked
-- for, if the response has it.
pub data HttpReply (A : Type 0) : Type 0 where
  failure : HttpReply A
  response : ℕ → Option A → HttpReply A

-- Response.raise_for_status does not raise
unfoldable pub is_success : ℕ → Bool
is_success status = leb 200 status && ltb status 300

-- The body of a successful response; `code` for an HTTPError, `malformed` for a body that cannot be read.
unfoldable pub body_of : {A : Type 0} → String → Error → HttpReply A → Result A
unfolding is_success
body_of code malformed failure = err (evidence code)
body_of code malformed (response status none) =
    if is_success status then err malformed else err (evidence code)
body_of code malformed (response status (some a)) =
    if is_success status then ok a else err (evidence code)
