-- ===== src/RequirementService.antt =====
-- The requirement service: apps/api/app/core/services/requirement_service.py. Of the constraints that a
-- flush checks, those of compensation_terms and of requirement_criteria and the unique ones of these
-- tables are modelled; departments and degrees are no tables here.
mod Constraints
pub mod Frozen
pub mod Terms
mod Tests
unfoldable pub use Constraints.*
use placement_assistant.Prelude.{
  ℕ, ◌+◌, ℤ, String, Bool, true, false, not, ◌&&◌, ◌||◌, Option, none, some, List, [], ◌∷◌, ◌++◌,
  keep, any, replace, is_some, Result, ok, err, http, http_detail, integrity_error, Action, ◌>>=◌,
  ◌>>◌, pure, gets, or_raise, raise_if, modify, ◌==◌, str_eq, neg_part, pos_part, if◌then◌else◌,
}
use placement_assistant.Value.{Value, null, str, dict, number_order}
use placement_assistant.Value.Text.{Rank, less, same, more}
use placement_assistant.Database.{
  Db, Principal, Opportunity, Requirement, RequirementVersion, Criterion, RequirementMember,
  CompensationTerms, Compensation, greatest, column_or_zero,
}
use placement_assistant.Repositories.{Table, get_by_id, insert, update}
use placement_assistant.Repositories.Tables.{
  opportunities, requirements, requirement_versions, compensations, criteria, members,
}

abbrev pub is_published : RequirementVersion → Bool
is_published v = is_some v.published_at

abbrev pub publish_at : ℕ → RequirementVersion → RequirementVersion
publish_at now v = record v { published_at = some now }

-- An optional row: the published version, if there is one.
published_row : Option RequirementVersion → Bool
published_row none = false
published_row (some v) = is_published v

module _ (p : Principal) where
  abbrev for_opportunity : ℕ → Requirement → Bool
  for_opportunity opportunity_id r =
      r.institution_id == p.institution_id && r.opportunity_id == opportunity_id

  abbrev of_requirement : ℕ → RequirementVersion → Bool
  of_requirement requirement_id v =
      v.institution_id == p.institution_id && v.requirement_id == requirement_id

  abbrev version_number : RequirementVersion → ℕ
  version_number v = v.version

  -- The requirement and the number of its next version. The unique constraint allows one
  -- requirement for each opportunity.
  next_version : ℕ → Opportunity → Option Requirement → Action Db (ℕ × ℕ)
  next_version new_id opp (some r) = do
    latest ← gets (λ db.
        column_or_zero version_number
          (greatest version_number (keep (of_requirement r.id) db.requirement_versions)))
    pure (r.id, latest + 1)
  next_version new_id opp none = do
    insert requirements p.institution_id
        (record { id = new_id; institution_id = p.institution_id; opportunity_id = opp.id })
    pure (new_id, 1)

  first_row : List Requirement → Option Requirement
  first_row [] = none
  first_row (r ∷ rs) = some r

  -- `new_id` counts up over the rows that are made: the requirement, the compensation, the version.
  pub initialize_requirement_graph :
      (String → Bool) → ℕ → ℕ → ℕ → CompensationTerms → Action Db RequirementVersion
  unfolding next_version first_row
  initialize_requirement_graph currency_code new_id now opportunity_id terms = do
    found ← get_by_id opportunities p.institution_id opportunity_id
    opp ← or_raise (http_detail 404 "Opportunity not found") found
    row ← gets (λ db. first_row (keep (for_opportunity opportunity_id) db.requirements))
    next ← next_version new_id opp row
    raise_if (not (valid_terms currency_code terms)) integrity_error
    comp ←
        insert compensations p.institution_id
          (record { id = new_id + 1; institution_id = p.institution_id; terms = terms })
    insert requirement_versions p.institution_id (record {
      id = new_id + 2;
      institution_id = p.institution_id;
      requirement_id = next.0;
      compensation_id = comp.id;
      version = next.1;
      effective_at = now;
      published_at = none;
    })

  found_version : ℕ → Action Db RequirementVersion
  found_version version_id = do
    found ← get_by_id requirement_versions p.institution_id version_id
    or_raise (http_detail 404 "Requirement version not found") found

  criterion_of : ℕ → ℕ → CriterionDraft → Criterion
  criterion_of new_id version_id c = record {
    id = new_id;
    institution_id = p.institution_id;
    requirement_version_id = version_id;
    code = c.code;
    applicability = c.applicability;
    operator = c.operator;
    operand = c.operand;
  }

  abbrev same_code : ℕ → String → Criterion → Bool
  same_code version_id code c =
      c.institution_id == p.institution_id
      && c.requirement_version_id == version_id
      && str_eq c.code code

  pub add_criterion : ℕ → ℕ → CriterionDraft → Action Db Criterion
  unfolding found_version criterion_of valid_criterion
  add_criterion new_id version_id given = do
    req_v ← found_version version_id
    raise_if (is_published req_v) (http_detail 400 "Cannot modify a published requirement version")
    taken ← gets (λ db. any (same_code req_v.id given.code) db.criteria)
    raise_if (taken || not (valid_criterion given)) integrity_error
    insert criteria p.institution_id (criterion_of new_id req_v.id given)

  abbrev same_value : ℕ → String → RequirementMember → Bool
  same_value criterion_id value m =
      m.institution_id == p.institution_id && m.criterion_id == criterion_id && str_eq m.value value

  pub add_requirement_member : ℕ → ℕ → MemberDraft → Action Db RequirementMember
  unfolding published_row
  add_requirement_member new_id criterion_id given = do
    found ← get_by_id criteria p.institution_id criterion_id
    crit ← or_raise (http_detail 404 "Criterion not found") found
    req_v ← get_by_id requirement_versions p.institution_id crit.requirement_version_id
    raise_if (published_row req_v) (http_detail 400 "Cannot modify a published requirement version")
    taken ← gets (λ db. any (same_value crit.id given.value) db.requirement_members)
    raise_if (taken || (is_some given.department_id && is_some given.degree_id)) integrity_error
    insert members p.institution_id (record {
      id = new_id;
      institution_id = p.institution_id;
      criterion_id = crit.id;
      value = given.value;
      department_id = given.department_id;
      degree_id = given.degree_id;
    })

  -- The ORM writes the row back by its primary key.
  publish : ℕ → RequirementVersion → Action Db RequirementVersion
  publish now v = if is_published v then pure v else do
    modify (λ db. record db {
      requirement_versions = replace (λ x. x.id == v.id) (publish_at now) db.requirement_versions;
    })
    pure (publish_at now v)

  pub publish_requirement_version : ℕ → ℕ → Action Db RequirementVersion
  unfolding found_version publish
  publish_requirement_version now version_id = do v ← found_version version_id; publish now v
