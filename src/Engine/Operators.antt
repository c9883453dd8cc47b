-- ===== src/Engine/Operators.antt =====
-- The operators of a rule against one another.
use placement_assistant.Prelude.{ℕ, ℤ, ◌≡◌, ◌≢◌, refl, ◌↔◌, not, some, arith}
use placement_assistant.Value.{Value, null, str, lt, le, eq, contained, number}
use placement_assistant.Value.Numbers.{number_laws, number_order-flip}
use placement_assistant.Engine.{
  Verdict, pass, fail, unknown, evaluate_operator, compare_by, caught, negated, verdict,
}

-- What the opposite operator finds.
abbrev pub opposite : Verdict → Verdict
opposite pass = fail
opposite fail = pass
opposite unknown = unknown

-- Which branch each name takes.
module _ (expected actual : Value) where
  branch_eq : compare_by (str "==") expected actual ≡ verdict (eq actual expected)
  unfolding compare_by eq
  branch_eq = refl

  branch_ne : compare_by (str "!=") expected actual ≡ verdict (not (eq actual expected))
  unfolding compare_by eq
  branch_ne = refl

  branch_gt : compare_by (str ">") expected actual ≡ caught (lt expected actual)
  unfolding compare_by eq
  branch_gt = refl

  branch_ge : compare_by (str ">=") expected actual ≡ caught (le expected actual)
  unfolding compare_by eq
  branch_ge = refl

  branch_lt : compare_by (str "<") expected actual ≡ caught (lt actual expected)
  unfolding compare_by eq
  branch_lt = refl

  branch_le : compare_by (str "<=") expected actual ≡ caught (le actual expected)
  unfolding compare_by eq
  branch_le = refl

  branch_in : compare_by (str "IN") expected actual ≡ caught (contained actual expected)
  unfolding compare_by eq
  branch_in = refl

  branch_not_in :
      compare_by (str "NOT_IN") expected actual ≡ caught (negated (contained actual expected))
  unfolding compare_by eq
  branch_not_in = refl

  negations :
      (compare_by (str "!=") expected actual ≡ opposite (compare_by (str "==") expected actual))
      × (compare_by (str "NOT_IN") expected actual
          ≡ opposite (compare_by (str "IN") expected actual))
  negations = ground (arith, branch_eq, branch_ne, branch_in, branch_not_in)

-- A value is given: the operator is compared.
evaluate_operator-compare_by :
    (operator expected actual : Value)
    → actual ≢ null
    → evaluate_operator operator expected actual ≡ compare_by operator expected actual
unfolding evaluate_operator
evaluate_operator-compare_by operator expected null h = absurd (h refl)
evaluate_operator-compare_by operator expected _ h = refl

-- `!=` and `NOT_IN` find the opposite of `==` and `IN`, and are UNKNOWN exactly where these are:
-- for a missing value, and where `in` raises.
pub operator_negation :
    (expected actual : Value)
    → (evaluate_operator (str "!=") expected actual
        ≡ opposite (evaluate_operator (str "==") expected actual))
      × (evaluate_operator (str "NOT_IN") expected actual
          ≡ opposite (evaluate_operator (str "IN") expected actual))
unfolding evaluate_operator
operator_negation expected null = (refl, refl)
operator_negation expected actual = negations expected actual

number-ne-null : (v : Value) {p : ℤ × ℕ} → number v ≡ some p → v ≢ null
unfolding number
number-ne-null null h e = cc
number-ne-null _ h e = cc

-- Between two numbers, int, float or bool, no operator is UNKNOWN: `<` is the opposite of `>=`,
-- `>` of `<=`, and `==` passes exactly when `<=` and `>=` both do.
pub number_operators :
    (expected actual : Value) {p q : ℤ × ℕ}
    → number expected ≡ some p
    → number actual ≡ some q
    → (evaluate_operator (str ">=") expected actual
        ≡ opposite (evaluate_operator (str "<") expected actual))
      × (evaluate_operator (str "<=") expected actual
          ≡ opposite (evaluate_operator (str ">") expected actual))
      × ((evaluate_operator (str "==") expected actual ≡ pass) ↔ (
          (evaluate_operator (str "<=") expected actual ≡ pass)
          × (evaluate_operator (str ">=") expected actual ≡ pass)))
      × (evaluate_operator (str "==") expected actual ≢ unknown)
unfolding lt le
number_operators expected actual {p} {q} h k =
    let present = number-ne-null actual k in
    rw
      (
        evaluate_operator-compare_by (str ">=") expected actual present,
        evaluate_operator-compare_by (str "<") expected actual present,
        evaluate_operator-compare_by (str "<=") expected actual present,
        evaluate_operator-compare_by (str ">") expected actual present,
        evaluate_operator-compare_by (str "==") expected actual present,
      )
      (ground (
        arith,
        branch_eq expected actual,
        branch_gt expected actual,
        branch_ge expected actual,
        branch_lt expected actual,
        branch_le expected actual,
        number_laws expected actual h k,
        number_laws actual expected k h,
        number_order-flip p q,
      ))
