-- ===== src/Engine.antt =====
-- The deterministic eligibility engine: apps/api/app/core/engine/evaluator.py.
pub mod Aggregate
pub mod Decision
pub mod Coverage
pub mod Operators
pub mod Errors
pub mod Monotone
pub mod Order
pub mod Foreign
mod Tests
use placement_assistant.Prelude.{
  String, Bool, true, false, ◌||◌, not, Option, none, some, List, [], ◌∷◌, ◌++◌, Result, ok, err,
  attribute_error, if◌then◌else◌,
}
use placement_assistant.Value.{
  Value, null, str, list, dict, Fields, get, eq, lt, le, contained, truthy,
}
use placement_assistant.Value.Text.{split_dots}

-- "PASS", "FAIL" and "UNKNOWN", of a rule and of a domain
pub data Verdict : Type 0 where
  pass fail unknown : Verdict

-- the final result, `unknown` under the name of no verdict
pub data Eligibility : Type 0 where
  eligible not_eligible undetermined : Eligibility

pub data Domain : Type 0 where
  requirement policy : Domain

abbrev pub verdict : Bool → Verdict
verdict true = pass
verdict false = fail

-- The `try` block: a TypeError of the comparison becomes "UNKNOWN".
abbrev pub caught : Option Bool → Verdict
caught none = unknown
caught (some b) = verdict b

abbrev negated : Option Bool → Option Bool
negated none = none
negated (some b) = some (not b)

unfoldable pub compare_by : Value → Value → Value → Verdict
compare_by operator expected actual =
    if eq operator (str "==")
    then verdict (eq actual expected)
    else if eq operator (str "!=")
    then verdict (not (eq actual expected))
    else if eq operator (str ">")
    then caught (lt expected actual)
    else if eq operator (str ">=")
    then caught (le expected actual)
    else if eq operator (str "<")
    then caught (lt actual expected)
    else if eq operator (str "<=")
    then caught (le actual expected)
    else if eq operator (str "IN")
    then caught (contained actual expected)
    else if eq operator (str "NOT_IN")
    then caught (negated (contained actual expected))
    else unknown

unfoldable pub evaluate_operator : Value → Value → Value → Verdict
evaluate_operator operator expected null = unknown
evaluate_operator operator expected actual = compare_by operator expected actual

-- The loop over the keys of a path; a missing key, or a value that is no dict, gives None.
follow : Value → List String → Value
follow current [] = current
follow (dict fs) (key ∷ keys) = elim (get fs key) [ none ↦ null | some v ↦ follow v keys ]
follow _ (key ∷ keys) = null

unfoldable pub resolve_field_path : Fields → String → Value
unfolding follow
resolve_field_path snapshot path = follow (dict snapshot) (split_dots path)

-- d.get(key)
abbrev pub get_or_none : Fields → String → Value
get_or_none d key = elim (get d key) [ none ↦ null | some v ↦ v ]

-- rule.get("field") or rule.get("code")
unfoldable pub field_path_of : Fields → Value
field_path_of rule =
    let named = get_or_none rule "field" in if truthy named then named else get_or_none rule "code"

-- rule["operand"].get("value", rule["operand"]): only a dict has `get`.
operand_value : Value → Result Value
operand_value (dict fs) = elim (get fs "value") [ none ↦ ok (dict fs) | some v ↦ ok v ]
operand_value _ = err attribute_error

expected_of_operand : Option Value → Result Value
expected_of_operand none = ok null
expected_of_operand (some operand) = if truthy operand then operand_value operand else ok null

expected_value : Fields → Result Value
unfolding expected_of_operand operand_value
expected_value rule = elim (get rule "value") [
  | none ↦ expected_of_operand (get rule "operand")
  | some v ↦ ok v
]

-- What `evaluate_rule` returns; `evaluate_snapshot` adds the domain.
pub record Reason : Type 0 where
  pub domain : Domain
  pub rule_description : Value
  pub actual_value : Value
  pub result : Verdict

-- Only a text has `split`.
judge : Domain → Value → Value → Value → Fields → Result Reason
judge domain (str path) operator expected snapshot =
    let actual = resolve_field_path snapshot path in
    ok (record {
      domain = domain;
      rule_description = str path;
      actual_value = actual;
      result = evaluate_operator operator expected actual;
    })
judge domain _ operator expected snapshot = err attribute_error

abbrev judge_expected : Domain → Fields → Fields → Result Value → Result Reason
judge_expected domain rule snapshot (err e) = err e
judge_expected domain rule snapshot (ok expected) =
    judge domain (field_path_of rule) (get_or_none rule "operator") expected snapshot

unfoldable pub evaluate_rule : Domain → Fields → Fields → Result Reason
unfolding expected_value field_path_of judge
evaluate_rule domain rule snapshot = judge_expected domain rule snapshot (expected_value rule)

-- The first "FAIL" returns; an "UNKNOWN" is remembered.
aggregate_from : Bool → List Reason → Verdict
aggregate_from has_unknown [] = if has_unknown then unknown else pass
aggregate_from has_unknown (r ∷ rs) = elim r.result [
  | fail ↦ fail
  | unknown ↦ aggregate_from true rs
  | pass ↦ aggregate_from has_unknown rs
]

unfoldable pub aggregate_results : List Reason → Verdict
unfolding aggregate_from
aggregate_results = aggregate_from false

-- crit.get("applicability") in ("REQUIRED", "OPTIONAL")
unfoldable pub applies : Fields → Bool
applies crit =
    let applicability = get_or_none crit "applicability" in
    eq applicability (str "REQUIRED") || eq applicability (str "OPTIONAL")

abbrev pub prepend : Result Reason → Result (List Reason) → Result (List Reason)
prepend (err e) rest = err e
prepend (ok r) (err e) = err e
prepend (ok r) (ok rs) = ok (r ∷ rs)

-- The loop over the requirement's criteria, which skips those that do not apply.
unfoldable pub evaluate_criteria : List Fields → Fields → Result (List Reason)
evaluate_criteria [] snapshot = ok []
evaluate_criteria (crit ∷ crits) snapshot =
    let rest = evaluate_criteria crits snapshot in
    if applies crit then prepend (evaluate_rule requirement crit snapshot) rest else rest

-- The loop over the policy's rules.
unfoldable pub evaluate_policy : List Fields → Fields → Result (List Reason)
evaluate_policy [] snapshot = ok []
evaluate_policy (rule ∷ rules) snapshot =
    prepend (evaluate_rule policy rule snapshot) (evaluate_policy rules snapshot)

-- The final aggregation of the two domains.
unfoldable pub combine : Verdict → Verdict → Eligibility
combine fail p = not_eligible
combine unknown fail = not_eligible
combine unknown unknown = undetermined
combine unknown pass = undetermined
combine pass fail = not_eligible
combine pass unknown = undetermined
combine pass pass = eligible

abbrev pub decide : List Reason → List Reason → Eligibility × List Reason
decide reqs pols = (combine (aggregate_results reqs) (aggregate_results pols), reqs ++ pols)

abbrev pub finish : Result (List Reason) → Result (List Reason) → Result (Eligibility × List Reason)
finish (err e) pols = err e
finish (ok reqs) (err e) = err e
finish (ok reqs) (ok pols) = ok (decide reqs pols)

unfoldable pub evaluate_snapshot :
    Fields → List Fields → List Fields → Result (Eligibility × List Reason)
evaluate_snapshot snapshot policy_rules requirement_criteria =
    finish (evaluate_criteria requirement_criteria snapshot) (evaluate_policy policy_rules snapshot)
