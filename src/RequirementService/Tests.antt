-- ===== src/RequirementService/Tests.antt =====
-- A version that is published and then published again.
use placement_assistant.Prelude.{
  All, Error, arith, pos, true, ◌≡◌, refl, ap, none, some, [], ◌∷◌, Result, ok, err, http_detail,
  keep, any,
}
use placement_assistant.Value.{null}
use placement_assistant.Database.{
  Db, RequirementVersion, Criterion, CompensationTerms, one_or_none, greatest,
}
use placement_assistant.Database.Sample.{campus, season, carla}
use placement_assistant.Repositories.{get_by_id, in_tenant, insert}
use placement_assistant.Repositories.Tables.{criteria}
use placement_assistant.RequirementService.Frozen.{BelongsTo, publication_final}
use placement_assistant.RequirementService.{
  CriterionDraft, MemberDraft, add_criterion, add_requirement_member, publish_requirement_version,
  publish_at, publish, initialize_requirement_graph, next_version, first_row, valid_terms,
  unresolved,
}

abbrev version : RequirementVersion
version = record {
  id = 7;
  institution_id = 1;
  requirement_id = 1;
  compensation_id = 1;
  version = 1;
  effective_at = 0;
  published_at = none;
}

abbrev criterion : Criterion
criterion = record {
  id = 9;
  institution_id = 1;
  requirement_version_id = 7;
  code = "academic.cgpa";
  applicability = "UNKNOWN";
  operator = null;
  operand = null;
}

abbrev open_office : Db
open_office = record campus { requirement_versions = version ∷ []; criteria = criterion ∷ [] }

abbrev left : Db
left = (publish_requirement_version carla 40 7 open_office).1

run_publishes : (publish_requirement_version carla 40 7 open_office).0 ≡ ok (publish_at 40 version)
unfolding publish_requirement_version publish get_by_id in_tenant keep one_or_none
run_publishes = refl

abbrev new_criterion : CriterionDraft
new_criterion = record {
  code = "academic.backlogs";
  applicability = "UNKNOWN";
  operator = null;
  operand = null;
}

abbrev new_member : MemberDraft
new_member = record { value = "CSE"; department_id = none; degree_id = none }

run_finds : keep (in_tenant criteria carla.institution_id 9) left.criteria ≡ criterion ∷ []
unfolding publish_requirement_version publish get_by_id in_tenant keep one_or_none
run_finds = refl

-- Another coordinator, after a criterion of another version was added.
abbrev later_on : Db
later_on = record left {
  criteria = criterion ∷ record criterion { id = 11; requirement_version_id = 8 } ∷ [];
}

left-Belongs : All (BelongsTo carla 7 9) later_on.criteria
left-Belongs = ((λ _. refl), ((λ same. absurd (omega (arith, same))), tt))

publication_final_example :
    (add_criterion (record carla { sub = 77 }) 10 7 new_criterion later_on
      ≡ (err (http_detail 400 "Cannot modify a published requirement version"), later_on))
    × ((e : Error) × (add_requirement_member (record carla { sub = 77 }) 10 9 new_member later_on
          ≡ (err e, later_on)))
    × (publish_requirement_version (record carla { sub = 77 }) 50 7 later_on
        ≡ (ok (publish_at 40 version), later_on))
publication_final_example =
    publication_final carla (record carla { sub = 77 }) 7 40 50 10 9 new_criterion new_member
      (publish_at 40 version) open_office left later_on
      (ap (λ (r : Result RequirementVersion). (r, left)) run_publishes) refl refl left-Belongs

abbrev terms : CompensationTerms
terms = record {
  original_text = "6 LPA";
  currency = "INR";
  period = "ANNUAL";
  basis = "TOTAL_CTC";
  shape = "EXACT";
  amount = some (pos 600000, 0);
  minimum = none;
  maximum = none;
  comparison_state = "UNRESOLVED";
  annual_inr = none;
  review_reason = some "to be reviewed";
}

abbrev first_version : RequirementVersion
first_version = record {
  id = 22;
  institution_id = 1;
  requirement_id = 1;
  compensation_id = 21;
  version = 1;
  effective_at = 30;
  published_at = none;
}

run_initializes :
    (initialize_requirement_graph carla (λ s. true) 20 30 3 terms season).0
    ≡ ok (record first_version { version = 2 })
unfolding initialize_requirement_graph next_version first_row valid_terms unresolved get_by_id
    in_tenant insert keep any one_or_none greatest
run_initializes = refl
