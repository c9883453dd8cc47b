-- ===== src/Ingestion/Terms.antt =====
-- What the columns of runs and jobs say, and the queries over them.
use placement_assistant.Prelude.{
  ℕ, String, Bool, true, false, ◌||◌, Option, none, some, List, [], ◌∷◌, ltb, leb, str_eq,
  if◌then◌else◌,
}
use placement_assistant.Rag.{JobStatus}

-- What a run is identified by, besides its binding.
pub record Configuration : Type 0 where
  pub schema_version : ℕ
  pub parser_version : String
  pub chunker_version : String
  pub embedding_configuration : String

-- The dicts that `save_chunks` takes.
pub record ChunkData : Type 0 where
  pub ordinal : ℕ
  pub content : String
  pub page : Option ℕ
  pub section : Option String
  pub start_offset : Option ℕ
  pub end_offset : Option ℕ
  pub source_hash : String
  pub artifact_hash : String
  pub chunk_hash : String

unfoldable pub is_queued : JobStatus → Bool
is_queued JobStatus.queued = true
is_queued _ = false

unfoldable pub is_running : JobStatus → Bool
is_running JobStatus.running = true
is_running _ = false

-- leased_until <= now; NULL is not
unfoldable pub is_expired : ℕ → Option ℕ → Bool
is_expired now none = false
is_expired now (some until) = leb until now

-- `order_by(column.asc()).limit(1)`
unfoldable pub least : {A : Type 0} → (A → ℕ) → List A → Option A
least column [] = none
least column (x ∷ xs) =
    let rest = least column xs in
    elim rest [ none ↦ some x | some y ↦ if ltb (column y) (column x) then some y else some x ]

-- The statuses that the column's constraint lets in.
unfoldable pub job_status : String → Option JobStatus
job_status text =
    if str_eq text "QUEUED"
    then some JobStatus.queued
    else if str_eq text "RUNNING"
    then some JobStatus.running
    else if str_eq text "READY"
    then some JobStatus.ready
    else if str_eq text "REVIEW_REQUIRED"
    then some JobStatus.review_required
    else if str_eq text "FAILED"
    then some JobStatus.failed
    else if str_eq text "CANCELLED"
    then some JobStatus.cancelled
    else none

unfoldable pub ends_lease : String → Bool
ends_lease text =
    str_eq text "FAILED"
    || str_eq text "COMPLETED"
    || str_eq text "READY"
    || str_eq text "REVIEW_REQUIRED"
    || str_eq text "CANCELLED"

unfoldable pub ends_run : String → Bool
ends_run text = str_eq text "FAILED" || str_eq text "CANCELLED"
