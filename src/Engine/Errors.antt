-- ===== src/Engine/Errors.antt =====
-- The engine raises one exception only.
use placement_assistant.Prelude.{
  ◌≡◌, refl, arith, Error, Result, ok, err, Option, none, some, attribute_error,
}
use placement_assistant.Value.{Value, Fields, str, get}
use placement_assistant.Engine.{
  Domain, evaluate_rule, judge, judge_expected, expected_value, expected_of_operand, operand_value,
}

-- The one exception that the engine raises is an AttributeError.
abbrev pub Raises : {A : Type 0} → Result A → Type 0
Raises r = (e : Error) → r ≡ err e → e ≡ attribute_error

operand_value-Raises : (v : Value) → Raises (operand_value v)
unfolding operand_value
operand_value-Raises (Value.dict fs) e h = ground arith
operand_value-Raises _ e h = cc

expected_of_operand-Raises : (o : Option Value) → Raises (expected_of_operand o)
unfolding expected_of_operand
expected_of_operand-Raises none e h = cc
expected_of_operand-Raises (some v) e h = ground (arith, operand_value-Raises v e)

expected_value-Raises : (rule : Fields) → Raises (expected_value rule)
unfolding expected_value
expected_value-Raises rule e h = ground (arith, expected_of_operand-Raises (get rule "operand") e)

judge-Raises :
    (domain : Domain) (v operator expected : Value) (snapshot : Fields)
    → Raises (judge domain v operator expected snapshot)
unfolding judge
judge-Raises domain (str path) operator expected snapshot e h = cc
judge-Raises domain _ operator expected snapshot e h = cc

judge_expected-Raises :
    (domain : Domain) (rule snapshot : Fields) (expected : Result Value)
    → Raises expected
    → Raises (judge_expected domain rule snapshot expected)
judge_expected-Raises domain rule snapshot (err f) raises e h = ground (arith, raises f refl)
judge_expected-Raises domain rule snapshot (ok expected) raises e h =
    judge-Raises domain _ _ expected snapshot e h

pub evaluate_rule-Raises :
    (domain : Domain) (rule snapshot : Fields) → Raises (evaluate_rule domain rule snapshot)
evaluate_rule-Raises domain rule snapshot =
    unfold evaluate_rule in
    judge_expected-Raises domain rule snapshot (expected_value rule) (expected_value-Raises rule)
