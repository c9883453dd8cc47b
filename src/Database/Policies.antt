-- ===== src/Database/Policies.antt =====
-- apps/api/app/infrastructure/models/policy.py and eligibility.py.
use placement_assistant.Prelude.{ℕ, String, Option, List}
use placement_assistant.Value.{Value, Fields}
use placement_assistant.Engine.{Eligibility, Reason}

pub record Policy : Type 0 where
  pub id : ℕ
  pub institution_id : ℕ
  pub code : String
  pub name : String

pub data PolicyStatus : Type 0 where
  draft processing review approved active archived : PolicyStatus

pub record PolicyVersion : Type 0 where
  pub id : ℕ
  pub institution_id : ℕ
  pub policy_id : ℕ
  pub version : ℕ
  pub academic_year_id : ℕ
  pub scope : String
  pub status : PolicyStatus
  pub schema_version : ℕ
  pub definition : Fields
  pub effective_at : ℕ

-- What an event's reason is written from: the status it left ("CREATED" at first), the status it
-- entered and the caller's text.
pub record PolicyEvent : Type 0 where
  pub institution_id : ℕ
  pub policy_version_id : ℕ
  pub version : ℕ
  pub effective_at : ℕ
  pub from_status : Option PolicyStatus
  pub status : PolicyStatus
  pub reason : String

pub record PolicyRule : Type 0 where
  pub id : ℕ
  pub institution_id : ℕ
  pub policy_version_id : ℕ
  pub code : String
  pub definition : Fields

pub record PolicyActivation : Type 0 where
  pub id : ℕ
  pub institution_id : ℕ
  pub policy_version_id : ℕ
  pub academic_year_id : ℕ
  pub scope : String
  pub starts_at : ℕ
  pub ends_at : Option ℕ

pub record Requirement : Type 0 where
  pub id : ℕ
  pub institution_id : ℕ
  pub opportunity_id : ℕ

pub record RequirementVersion : Type 0 where
  pub id : ℕ
  pub institution_id : ℕ
  pub requirement_id : ℕ
  pub compensation_id : ℕ
  pub version : ℕ
  pub effective_at : ℕ
  pub published_at : Option ℕ

pub record RequirementActivation : Type 0 where
  pub institution_id : ℕ
  pub requirement_id : ℕ
  pub requirement_version_id : ℕ
  pub starts_at : ℕ
  pub ends_at : Option ℕ

-- `operator` and `operand` are nullable: `null` stands for NULL.
pub record Criterion : Type 0 where
  pub id : ℕ
  pub institution_id : ℕ
  pub requirement_version_id : ℕ
  pub code : String
  pub applicability : String
  pub operator : Value
  pub operand : Value

pub record RequirementMember : Type 0 where
  pub id : ℕ
  pub institution_id : ℕ
  pub criterion_id : ℕ
  pub value : String
  pub department_id : Option ℕ
  pub degree_id : Option ℕ

pub record EligibilityDecision : Type 0 where
  pub id : ℕ
  pub institution_id : ℕ
  pub student_id : ℕ
  pub opportunity_id : ℕ
  pub policy_version_id : ℕ
  pub requirement_version_id : ℕ
  pub result : Eligibility
  pub evaluation_key : String
  pub snapshot : Fields
  pub reasons : List Reason
  pub created_at : ℕ
