-- ===== src/Engine/Foreign.antt =====
-- Operators that the engine does not know.
use placement_assistant.Prelude.{◌≡◌, refl, ◌⊎◌, inl, inr, Result, ok, err}
use placement_assistant.Value.{Value, null, str, Fields, eq}
use placement_assistant.Engine.{
  Domain, unknown, Reason, evaluate_rule, evaluate_operator, compare_by, get_or_none, judge,
  judge_expected, resolve_field_path, expected_value, field_path_of,
}

-- The two that the database allows besides the engine's.
abbrev pub IsForeign : Value → Type 0
IsForeign operator = (operator ≡ str "=") ⊎ (operator ≡ str "BETWEEN")

compare_by-unknown :
    (operator expected actual : Value)
    → IsForeign operator
    → compare_by operator expected actual ≡ unknown
unfolding compare_by eq
compare_by-unknown operator expected actual (inl e) = rw e refl
compare_by-unknown operator expected actual (inr e) = rw e refl

evaluate_operator-unknown :
    (operator expected actual : Value)
    → IsForeign operator
    → evaluate_operator operator expected actual ≡ unknown
unfolding evaluate_operator
evaluate_operator-unknown operator expected null h = refl
evaluate_operator-unknown operator expected actual h = compare_by-unknown operator expected actual h

judge-unknown :
    (domain : Domain) (v operator expected : Value) (snapshot : Fields) (r : Reason)
    → IsForeign operator
    → judge domain v operator expected snapshot ≡ ok r
    → r.result ≡ unknown
unfolding judge
judge-unknown domain (str path) operator expected snapshot r foreign h =
    cc (h, evaluate_operator-unknown operator expected (resolve_field_path snapshot path) foreign)
judge-unknown domain _ operator expected snapshot r foreign h = cc

judge_expected-unknown :
    (domain : Domain) (rule snapshot : Fields) (expected : Result Value) (r : Reason)
    → IsForeign (get_or_none rule "operator")
    → judge_expected domain rule snapshot expected ≡ ok r
    → r.result ≡ unknown
judge_expected-unknown domain rule snapshot (err e) r foreign h = cc
judge_expected-unknown domain rule snapshot (ok expected) r foreign h =
    judge-unknown domain (field_path_of rule) (get_or_none rule "operator") expected snapshot r
      foreign h

pub evaluate_rule-unknown :
    (domain : Domain) (rule snapshot : Fields) (r : Reason)
    → IsForeign (get_or_none rule "operator")
    → evaluate_rule domain rule snapshot ≡ ok r
    → r.result ≡ unknown
unfolding evaluate_rule
evaluate_rule-unknown domain rule snapshot r foreign h =
    judge_expected-unknown domain rule snapshot (expected_value rule) r foreign h
