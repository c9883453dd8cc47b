-- ===== src/Engine/Tests.antt =====
-- Witnesses and runs of the engine.
use placement_assistant.Prelude.{◌≡◌, ◌≢◌, refl, List, [], ◌∷◌, Result, ok, false, pos, inl, inr}
use placement_assistant.Value.{
  eq, lt, le, contained, truthy, get, Value, null, bool, int, float, str, dict, Fields, end, field,
}
use placement_assistant.Engine.{
  Verdict, pass, fail, unknown, Eligibility, eligible, not_eligible, undetermined, Reason, Domain,
  requirement, policy, evaluate_operator, evaluate_rule, evaluate_criteria, evaluate_policy,
  evaluate_snapshot, applies, resolve_field_path, aggregate_results, combine, compare_by,
  field_path_of,
}
use placement_assistant.Value.Text.{split_dots}
use placement_assistant.Engine.Coverage.{Unanswered, Unanswered-not-eligible}
use placement_assistant.Engine.Decision.{Explains, evaluate_snapshot-Explains}
use placement_assistant.Engine.Monotone.{evaluate_snapshot_mono}
use placement_assistant.Engine.Order.{final, final-perm}
use mathlib.Core.List.Perm

-- A student with a CGPA of 8.5, no backlog and one active offer.
abbrev student : Fields
student =
    field "academic" (dict (field "cgpa" (float (pos 17) 1) (field "backlogs" (int (pos 0)) end)))
      (field "placement_history" (dict (field "active_offer_count" (int (pos 1)) end)) end)

abbrev rule : Value → Value → Value → Fields
rule path operator value = field "field" path (field "operator" operator (field "value" value end))

abbrev cgpa_rule : Fields
cgpa_rule = rule (str "academic.cgpa") (str ">=") (int (pos 7))

abbrev offer_rule : Fields
offer_rule = rule (str "placement_history.active_offer_count") (str "==") (bool false)

abbrev rank_rule : Fields
rank_rule = rule (str "academic.rank") (str "<") (int (pos 10))

-- An optional criterion, with the operand as a dict, that the student does not meet.
abbrev backlog_criterion : Fields
backlog_criterion = field "field" (str "academic.backlogs") (
    field "operator" (str ">") (
      field "operand" (dict (field "value" (int (pos 2)) end))
        (field "applicability" (str "OPTIONAL") end)))

abbrev reason : Domain → Value → Value → Verdict → Reason
reason d path v r = record { domain = d; rule_description = path; actual_value = v; result = r }

abbrev cgpa_reason : Reason
cgpa_reason = reason policy (str "academic.cgpa") (float (pos 17) 1) pass

-- The engine with everything that it calls open.
run : Fields → List Fields → List Fields → Result (Eligibility × List Reason)
unfolding evaluate_snapshot evaluate_criteria evaluate_policy evaluate_rule evaluate_operator
    compare_by eq lt le contained truthy get resolve_field_path split_dots aggregate_results combine
    applies
run = evaluate_snapshot

abbrev backlog_reason : Reason
backlog_reason = reason requirement (str "academic.backlogs") (int (pos 0)) fail

abbrev rank_reason : Reason
rank_reason = reason policy (str "academic.rank") null unknown

-- An optional criterion that fails makes the student NOT_ELIGIBLE.
run_optional :
    evaluate_snapshot student (cgpa_rule ∷ rank_rule ∷ []) (backlog_criterion ∷ [])
    ≡ ok (not_eligible, backlog_reason ∷ cgpa_reason ∷ rank_reason ∷ [])
unfolding run
run_optional = refl

run_cgpa : evaluate_snapshot student (cgpa_rule ∷ []) [] ≡ ok (eligible, cgpa_reason ∷ [])
unfolding run
run_cgpa = refl

run_rank :
    evaluate_snapshot student (cgpa_rule ∷ rank_rule ∷ []) []
    ≡ ok (undetermined, cgpa_reason ∷ rank_reason ∷ [])
unfolding run
run_rank = refl

-- True is a number: one active offer is not `False`.
run_offer : final (evaluate_snapshot student (offer_rule ∷ []) []) ≡ ok not_eligible
unfolding run
run_offer = refl

evaluate_snapshot-Explains_example :
    Explains not_eligible (backlog_reason ∷ cgpa_reason ∷ rank_reason ∷ [])
evaluate_snapshot-Explains_example =
    evaluate_snapshot-Explains student (cgpa_rule ∷ rank_rule ∷ []) (backlog_criterion ∷ [])
      not_eligible (backlog_reason ∷ cgpa_reason ∷ rank_reason ∷ []) run_optional

rank-Unanswered : Unanswered student rank_rule
unfolding run field_path_of
rank-Unanswered = ("academic.rank", refl, refl)

Unanswered-not-eligible_example : undetermined ≢ eligible
Unanswered-not-eligible_example =
    Unanswered-not-eligible student (cgpa_rule ∷ rank_rule ∷ []) [] undetermined
      (cgpa_reason ∷ rank_reason ∷ []) (inr (inl rank-Unanswered)) run_rank

evaluate_snapshot_mono_example :
    (d' : Eligibility) × (rs' : List Reason) × (evaluate_snapshot student (cgpa_rule ∷ []) []
      ≡ ok (d', rs'))
    × (undetermined ≡ eligible → d' ≡ eligible)
    × (d' ≡ not_eligible → undetermined ≡ not_eligible)
evaluate_snapshot_mono_example =
    evaluate_snapshot_mono student (cgpa_rule ∷ []) (rank_rule ∷ []) [] undetermined
      (cgpa_reason ∷ rank_reason ∷ []) run_rank

final-perm_example :
    final (evaluate_snapshot student (cgpa_rule ∷ rank_rule ∷ []) (backlog_criterion ∷ []))
    ≡ final (evaluate_snapshot student (rank_rule ∷ cgpa_rule ∷ []) (backlog_criterion ∷ []))
final-perm_example =
    final-perm student (cgpa_rule ∷ rank_rule ∷ []) (rank_rule ∷ cgpa_rule ∷ [])
      (backlog_criterion ∷ []) (backlog_criterion ∷ []) (Perm.swap _ _ _) (Perm.refl _)
