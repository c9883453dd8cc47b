-- ===== src/Rag.antt =====
-- The state of the evidence pipeline: the rows of apps/api/app/infrastructure/models/rag.py, the
-- rows of policy_documents and policy_versions that it reads, and the files below the root directory
-- of the document store. Ids and times are numbers; the audit columns with fixed texts are left out.
mod Rows
pub mod Sample
pub use Rows.*
use placement_assistant.Prelude.{ℕ, List}
use placement_assistant.Database.{PolicyVersion}

-- Where the operating system refuses to serve the root directory.
pub data Fault : Type 0 where
  healthy : Fault
  -- no object can be opened
  unreadable : Fault
  -- nothing can be staged
  unwritable : Fault
  -- the directory cannot be synchronised after the link
  unsynced : Fault

pub record Rag : Type 0 where
  pub documents : List Document
  pub policy_versions : List PolicyVersion
  pub source_objects : List RagSourceObject
  pub policy_sources : List RagPolicySource
  pub binding_events : List RagBindingEvent
  pub runs : List RagIngestionRun
  pub jobs : List RagJob
  pub chunks : List RagChunk
  pub generations : List RagIndexGeneration
  pub published : List RagPublishedGeneration
  pub objects : List StoredObject
  pub fault : Fault
