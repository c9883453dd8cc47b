-- ===== src/Agent/Authority.antt =====
-- The authoritative decision and what the agent says of it:
-- apps/api/app/agent/m8_authority.py, core.py and apps/api/app/api/schemas/eligibility.py.
use placement_assistant.Prelude.{
  ℕ, String, Bool, ◌||◌, Option, none, some, List, str_eq, if◌then◌else◌,
}

-- EligibilityDecisionResponse, without the snapshot and the reasons, which the agent passes on.
pub record EligibilityDecisionResponse : Type 0 where
  pub id : ℕ
  pub student_id : ℕ
  pub opportunity_id : ℕ
  pub policy_version_id : ℕ
  pub requirement_version_id : ℕ
  pub engine_version : String
  pub result : String
  pub evaluation_key : String

pub record EvidenceReference : Type 0 where
  pub document_id : String
  pub policy_version : String
  pub content : String
  pub source_hash : Option String

-- `decision_source` is "M5_ENGINE" or None.
pub record M8AgentResponse : Type 0 where
  pub message : String
  pub decision : String
  pub decision_source : Option String
  pub evidence : List EvidenceReference
  pub authoritative_decision : Option EligibilityDecisionResponse

unfoldable pub is_result : String → Bool
is_result r = str_eq r "ELIGIBLE" || str_eq r "NOT_ELIGIBLE" || str_eq r "UNKNOWN"

result_message : String → String
result_message r =
    if str_eq r "ELIGIBLE"
    then "You are eligible for the evaluated opportunity."
    else if str_eq r "NOT_ELIGIBLE"
    then "You are not eligible for the evaluated opportunity."
    else "Eligibility could not be determined from the authoritative information."

unfoldable pub authority_message : Option EligibilityDecisionResponse → String
unfolding result_message
authority_message none =
    "Eligibility has not been verified. No authoritative decision is available."
authority_message (some d) = result_message d.result
