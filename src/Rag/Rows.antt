-- ===== src/Rag/Rows.antt =====
-- apps/api/app/infrastructure/models/rag.py, `Document` of models/policy.py, and the entries of the
-- document store's directory.
use placement_assistant.Prelude.{ℕ, String, Bool, Option, List}
use placement_assistant.Evidence.{BindingState}

-- bytes, of Python
abbrev pub Bytes : Type 0
Bytes = List ℕ

pub record Document : Type 0 where
  pub id : ℕ
  pub institution_id : ℕ
  pub storage_key : String
  pub filename : String
  pub media_type : String
  pub content_hash : String
  pub source_version : String

pub record RagSourceObject : Type 0 where
  pub id : ℕ
  pub institution_id : ℕ
  pub document_id : ℕ
  pub object_key : String
  pub byte_length : ℕ
  pub source_hash : String
  pub actor_id : ℕ

pub record RagPolicySource : Type 0 where
  pub id : ℕ
  pub institution_id : ℕ
  pub source_object_id : ℕ
  pub policy_version_id : ℕ
  pub revision : ℕ
  pub previous_revision_id : Option ℕ
  pub source_hash : String
  pub proposal_reason : String
  pub actor_id : ℕ
  pub request_id : ℕ

pub record RagBindingEvent : Type 0 where
  pub institution_id : ℕ
  pub binding_id : ℕ
  pub sequence : ℕ
  pub status : BindingState
  pub source_hash : String
  pub reason : String
  pub actor_id : ℕ
  pub request_id : ℕ

pub data RunStatus : Type 0 where
  running failed completed : RunStatus

pub record RagIngestionRun : Type 0 where
  pub id : ℕ
  pub institution_id : ℕ
  pub binding_id : ℕ
  pub schema_version : ℕ
  pub parser_version : String
  pub chunker_version : String
  pub embedding_configuration : String
  pub normalized_artifact_hash : Option String
  pub status : RunStatus

pub data JobStatus : Type 0 where
  queued running ready review_required failed cancelled : JobStatus

pub record RagJob : Type 0 where
  pub id : ℕ
  pub institution_id : ℕ
  pub run_id : ℕ
  pub status : JobStatus
  pub attempt : ℕ
  pub leased_until : Option ℕ
  pub stage : String
  pub error_code : Option String
  pub recorded_at : ℕ

pub record RagChunk : Type 0 where
  pub id : ℕ
  pub institution_id : ℕ
  pub run_id : ℕ
  pub ordinal : ℕ
  pub content : String
  pub page : Option ℕ
  pub section : Option String
  pub start_offset : Option ℕ
  pub end_offset : Option ℕ
  pub source_hash : String
  pub artifact_hash : String
  pub chunk_hash : String

pub data GenerationStatus : Type 0 where
  pending verified published failed : GenerationStatus

pub record RagIndexGeneration : Type 0 where
  pub id : ℕ
  pub institution_id : ℕ
  pub run_id : ℕ
  pub space_id : String
  pub collection_name : String
  pub expected_chunk_count : ℕ
  pub status : GenerationStatus

pub record RagPublishedGeneration : Type 0 where
  pub institution_id : ℕ
  pub binding_id : ℕ
  pub generation_id : ℕ
  pub published_at : ℕ

-- An entry of the root directory: its name, whether it is a symbolic link, which the store does not open,
-- whether it is a regular file, and what it holds.
pub record StoredObject : Type 0 where
  pub key : String
  pub link : Bool
  pub regular : Bool
  pub contents : Bytes
