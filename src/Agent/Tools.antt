-- ===== src/Agent/Tools.antt =====
-- The evaluation tool of the agent: active_requirement and evaluate_m5 of
-- apps/api/app/agent/m8_authority.py.
pub mod Applicable
pub mod Grounded
use placement_assistant.Prelude.{
  ℕ, String, Bool, true, false, ◌&&◌, Option, none, some, List, [], ◌∷◌, ◌++◌, keep, Result, ok,
  err, validation_error, value_error, Action, ◌>>=◌, ◌>>◌, pure, raise, or_raise, ◌==◌, leb, ltb,
  if◌then◌else◌,
}
use placement_assistant.Prelude.Reading.{Reading, reads}
use placement_assistant.Value.{Value}
use placement_assistant.Engine.{Eligibility, eligible, not_eligible, undetermined}
use placement_assistant.Database.{
  Db, Principal, Opportunity, Requirement, RequirementVersion, RequirementActivation,
  EligibilityDecision,
}
use placement_assistant.EligibilityService.Snapshot.{Context}
use placement_assistant.EligibilityService.{evaluate}
use placement_assistant.Agent.Memory.{owned_student}
use placement_assistant.Agent.Authority.{EligibilityDecisionResponse}
use placement_assistant.Agent.Turn.{Tool}

-- A join: the results for each row, one after the other.
for_each : {A : Type 0} → List A → (A → List ℕ) → List ℕ
for_each [] f = []
for_each (x ∷ xs) f = f x ++ for_each xs f

published_by : ℕ → Option ℕ → Bool
published_by now none = false
published_by now (some published_at) = leb published_at now

ends_after : ℕ → Option ℕ → Bool
ends_after now none = true
ends_after now (some ends_at) = ltb now ends_at

only_version : List ℕ → Result ℕ
only_version (id ∷ []) = ok id
only_version _ = err value_error

module _ (p : Principal) (now opportunity_id : ℕ) where
  published_versions : Db → Requirement → List RequirementVersion
  unfolding published_by
  published_versions db r =
      keep
        (λ v.
          v.requirement_id == r.id
          && v.institution_id == p.institution_id
          && published_by now v.published_at)
        db.requirement_versions

  current_activations : Db → Requirement → RequirementVersion → List RequirementActivation
  unfolding ends_after
  current_activations db r v =
      keep
        (λ a.
          a.requirement_version_id == v.id
          && a.institution_id == p.institution_id
          && a.requirement_id == r.id
          && leb a.starts_at now
          && ends_after now a.ends_at)
        db.requirement_activations

  requirements_of : Db → Opportunity → List Requirement
  requirements_of db o =
      keep (λ r. r.opportunity_id == o.id && r.institution_id == p.institution_id) db.requirements

  matching_versions : Db → List ℕ
  unfolding for_each requirements_of published_versions current_activations
  matching_versions db =
      for_each
        (keep (λ o. o.id == opportunity_id && o.institution_id == p.institution_id)
          db.opportunities)
        λ o. for_each (requirements_of db o) λ r.
          for_each (published_versions db r)
            λ v. for_each (current_activations db r v) λ a. v.id ∷ []

  unfoldable pub active_requirement : Reading Db ℕ
  unfolding matching_versions only_version
  active_requirement db = only_version (matching_versions db)

-- `meanwhile` is what other requests commit during the evaluation.
unfoldable pub evaluate_m5 : Context → (Db → Db) → Principal → ℕ → Action Db EligibilityDecision
evaluate_m5 context meanwhile p opportunity_id = do
  student_id ← owned_student p
  requirement_id ← reads (active_requirement p context.now opportunity_id)
  evaluate context p student_id opportunity_id requirement_id meanwhile

pub result_text : Eligibility → String
result_text eligible = "ELIGIBLE"
result_text not_eligible = "NOT_ELIGIBLE"
result_text undetermined = "UNKNOWN"

-- EligibilityDecisionResponse.model_validate of a row
unfoldable pub response_of : EligibilityDecision → EligibilityDecisionResponse
unfolding result_text
response_of d = record {
  id = d.id;
  student_id = d.student_id;
  opportunity_id = d.opportunity_id;
  policy_version_id = d.policy_version_id;
  requirement_version_id = d.requirement_version_id;
  engine_version = "v1.0";
  result = result_text d.result;
  evaluation_key = d.evaluation_key;
}

-- The registered tool. `parse` is M8EligibilityInput's, `dump` is `model_dump(mode="json")`; the clock,
-- the next id and what other requests do may depend on the state in which it is called.
unfoldable pub evaluation_tool :
    (Value → Option ℕ)
    → (EligibilityDecisionResponse → Value)
    → (Db → Context)
    → (Db → Db → Db)
    → Principal
    → Tool
evaluation_tool parse dump context meanwhile p args db =
    (do
      opportunity_id ← or_raise validation_error (parse args)
      d ← evaluate_m5 (context db) (meanwhile db) p opportunity_id
      pure (dump (response_of d)))
      db
