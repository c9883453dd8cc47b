-- ===== src/EligibilityService/Tests.antt =====
-- Evaluations of a student with a CGPA of 7.5, for an opportunity whose policy wants more than 7.
use placement_assistant.Prelude.{
  none, All, arith, arith, ◌≡◌, refl, ap, [], ◌∷◌, pos, Result, ok, err, Error, keep, any, find,
}
use placement_assistant.Value.{
  eq, lt, le, contained, truthy, number, number_order, int, float, str, dict, end, field, get,
}
use placement_assistant.Value.Text.{split_dots}
use placement_assistant.Engine.{
  unknown, requirement, Reason, evaluate_snapshot, evaluate_criteria, evaluate_policy,
  evaluate_rule, evaluate_operator, compare_by, resolve_field_path, aggregate_results, combine,
  applies, field_path_of, eligible, pass, policy,
}
use placement_assistant.Database.{Criterion, Db, EligibilityDecision, one_or_none, greatest}
use placement_assistant.Database.Sample.{season, anna}
use placement_assistant.EligibilityService.Snapshot.{
  Context, prepare, with_drive, with_policy, build_snapshot, get_active_policy, drive_of,
  with_snapshot,
}
use placement_assistant.EligibilityService.Keys.{IsKeyed, evaluate-IsKeyed}
use placement_assistant.EligibilityService.Repeat.{alone, later, evaluate_idempotent}
use placement_assistant.EligibilityService.Tenancy.{IsForeign, evaluate_foreign}
use placement_assistant.EligibilityService.{
  criterion_dict, evaluate, after_reading, or_decide, decide_anew, persist, recover, add_decision,
  violates, policy_rules_of, criteria_of, key_of, decision_of,
}

abbrev context : Context
context = record { str_id = λ n. "id"; dumps = λ fs. "{}"; sha256 = λ s. s; now = 20; new_id = 8 }

-- An evaluation with everything that it calls open.
run : Db → Result EligibilityDecision × Db
unfolding evaluate after_reading or_decide decide_anew persist recover add_decision violates prepare
    with_drive with_policy with_snapshot drive_of get_active_policy build_snapshot policy_rules_of
    criteria_of key_of decision_of keep any find one_or_none greatest evaluate_snapshot
    evaluate_criteria evaluate_policy evaluate_rule evaluate_operator compare_by eq lt le contained
    truthy number number_order get resolve_field_path split_dots aggregate_results combine applies
    field_path_of
run = evaluate context anna 101 3 7 alone

abbrev decision : EligibilityDecision
decision = record {
  id = 8;
  institution_id = 1;
  student_id = 101;
  opportunity_id = 3;
  policy_version_id = 4;
  requirement_version_id = 7;
  result = eligible;
  evaluation_key = "{}|id|id|v1.0";
  snapshot = field "student_id" (str "id") (
      field "opportunity_id" (str "id") (
        field "academic"
          (dict (field "cgpa" (float (pos 15) 1) (field "backlogs" (int (pos 0)) end)))
          (field "placement_history" (dict (field "active_offer_count" (int (pos 0)) end)) end)));
  reasons =
      record {
        domain = policy;
        rule_description = str "academic.cgpa";
        actual_value = float (pos 15) 1;
        result = pass;
      }
      ∷ [];
  created_at = 20;
}

run_decides : (evaluate context anna 101 3 7 alone season).0 ≡ ok decision
unfolding run
run_decides = refl

paired :
    (r : Result EligibilityDecision × Db) (d : EligibilityDecision) → r.0 ≡ ok d → r ≡ (ok d, r.1)
paired r d h = ap (λ x. (x, r.1)) h

abbrev left : Db
left = (evaluate context anna 101 3 7 alone season).1

season-IsKeyed : IsKeyed season
unfolding keep
season-IsKeyed institution_id key = omega arith

evaluate-IsKeyed_example : IsKeyed (evaluate context anna 101 3 7 alone season).1
evaluate-IsKeyed_example =
    evaluate-IsKeyed context anna 101 3 7 alone season season-IsKeyed season-IsKeyed

run_prepares : prepare (later context 30 9) anna 101 3 left ≡ prepare context anna 101 3 season
unfolding run
run_prepares = refl

evaluate_idempotent_example :
    evaluate (later context 30 9) anna 101 3 7 alone left ≡ (ok decision, left)
evaluate_idempotent_example =
    evaluate_idempotent context 30 9 anna 101 3 7 season decision left
      (paired (evaluate context anna 101 3 7 alone season) decision run_decides) run_prepares

-- A student of another institution.
abbrev two_campuses : Db
two_campuses = record season {
  students = record { id = 201; institution_id = 2; user_id = none } ∷ season.students;
}

other_campus : All (IsForeign anna 201) two_campuses.students
other_campus = (
  (λ _ place. absurd (omega (arith, place))),
  ((λ same. absurd (omega (arith, same))), ((λ same. absurd (omega (arith, same))), tt)),
)

evaluate_foreign_example :
    (e : Error) × (evaluate context anna 201 3 7 alone two_campuses ≡ (err e, two_campuses))
evaluate_foreign_example = evaluate_foreign context anna 201 3 7 alone two_campuses other_campus

abbrev exact_criterion : Criterion
exact_criterion = record {
  id = 9;
  institution_id = 1;
  requirement_version_id = 7;
  code = "academic.backlogs";
  applicability = "REQUIRED";
  operator = str "=";
  operand = dict (field "value" (int (pos 0)) end);
}

abbrev exact_reason : Reason
exact_reason = record {
  domain = requirement;
  rule_description = str "academic.backlogs";
  actual_value = int (pos 0);
  result = unknown;
}

-- A student without backlogs, as the criterion wants.
run_exact :
    evaluate_rule requirement (criterion_dict exact_criterion) decision.snapshot ≡ ok exact_reason
unfolding run criterion_dict
run_exact = refl
