-- ===== src/Engine/Coverage.antt =====
-- Every rule that applies is judged, and a rule that the snapshot cannot answer rules out
-- ELIGIBLE.
use placement_assistant.Prelude.{
  ◌+◌, String, ◌≡◌, ◌≢◌, refl, ap, inl, inr, List, [], ◌∷◌, ◌++◌, keep, Has, length, length-append,
  arith, Result, ok, err, All, Bool-cases, suc,
}
use placement_assistant.Value.{Value, null, str, Fields}
use placement_assistant.Engine.{
  pass, unknown, Eligibility, eligible, Reason, Domain, requirement, policy, field_path_of,
  evaluate_rule, evaluate_criteria, evaluate_policy, evaluate_snapshot, applies, resolve_field_path,
  evaluate_operator, prepend, judge, judge_expected, expected_value,
}
use placement_assistant.Engine.Decision.{ResultIs, evaluate_snapshot-Explains, finish-eq-ok}

pub prepend-eq-ok :
    (a : Result Reason) (b : Result (List Reason)) (rs : List Reason)
    → prepend a b ≡ ok rs
    → (r : Reason) × (tail : List Reason) × (a ≡ ok r) × (b ≡ ok tail) × (rs ≡ r ∷ tail)
prepend-eq-ok (err e) b rs h = cc
prepend-eq-ok (ok r) (err e) rs h = cc
prepend-eq-ok (ok r) (ok tail) rs h = (r, tail, refl, refl, cc)

length-evaluate_policy :
    (rules : List Fields) (snapshot : Fields) (rs : List Reason)
    → evaluate_policy rules snapshot ≡ ok rs
    → length rs ≡ length rules
unfolding evaluate_policy
length-evaluate_policy [] snapshot rs h = ground arith
length-evaluate_policy (rule ∷ rules) snapshot rs h =
    let (r, tail, _, rest, listed) = prepend-eq-ok _ _ rs h in
    rw listed (ap suc (length-evaluate_policy rules snapshot tail rest))

length-evaluate_criteria :
    (crits : List Fields) (snapshot : Fields) (rs : List Reason)
    → evaluate_criteria crits snapshot ≡ ok rs
    → length rs ≡ length (keep applies crits)
unfolding evaluate_criteria keep
length-evaluate_criteria [] snapshot rs h = ground arith
length-evaluate_criteria (crit ∷ crits) snapshot rs h = elim (Bool-cases (applies crit)) [
  | inl used ↦
      let (r, tail, _, rest, listed) =
        prepend-eq-ok (evaluate_rule requirement crit snapshot) (evaluate_criteria crits snapshot)
          rs (rw used at h) in
      rw (used, listed) (ap suc (length-evaluate_criteria crits snapshot tail rest))
  | inr skipped ↦ rw skipped (length-evaluate_criteria crits snapshot rs (rw skipped at h))
]

-- An evaluation that returns gives one reason for each criterion that applies and one for each
-- rule of the policy; none is left out.
pub length-evaluate_snapshot :
    (snapshot : Fields) (rules criteria : List Fields) (d : Eligibility) (rs : List Reason)
    → evaluate_snapshot snapshot rules criteria ≡ ok (d, rs)
    → length rs ≡ length (keep applies criteria) + length rules
unfolding evaluate_snapshot
length-evaluate_snapshot snapshot rules criteria d rs h =
    let (reqs, pols, judged, ruled, _, listed) =
      finish-eq-ok (evaluate_criteria criteria snapshot) (evaluate_policy rules snapshot) d rs h in
    rw listed (
      omega (
        arith,
        length-append reqs pols,
        length-evaluate_criteria criteria snapshot reqs judged,
        length-evaluate_policy rules snapshot pols ruled,
      ))

-- The snapshot has no value at the path that the rule names.
abbrev pub Unanswered : Fields → Fields → Type 0
Unanswered snapshot rule =
    (path : String) × (field_path_of rule ≡ str path) × (resolve_field_path snapshot path ≡ null)

evaluate_operator-null :
    (operator expected : Value) → evaluate_operator operator expected null ≡ unknown
unfolding evaluate_operator
evaluate_operator-null operator expected = refl

judge-unknown :
    (domain : Domain) (v operator expected : Value) (snapshot : Fields) (path : String) (r : Reason)
    → v ≡ str path
    → resolve_field_path snapshot path ≡ null
    → judge domain v operator expected snapshot ≡ ok r
    → r.result ≡ unknown
unfolding judge
judge-unknown domain v operator expected snapshot path r named absent h = ground (
  arith,
  ap (λ w. judge domain w operator expected snapshot) named,
  ap (evaluate_operator operator expected) absent,
  evaluate_operator-null operator expected,
)

judge_expected-unknown :
    (domain : Domain) (rule snapshot : Fields) (expected : Result Value) (r : Reason)
    → Unanswered snapshot rule
    → judge_expected domain rule snapshot expected ≡ ok r
    → r.result ≡ unknown
judge_expected-unknown domain rule snapshot (err e) r u h = cc
judge_expected-unknown domain rule snapshot (ok expected) r (path, named, absent) h =
    judge-unknown domain (field_path_of rule) _ expected snapshot path r named absent h

Unanswered-unknown :
    (domain : Domain) (rule snapshot : Fields) (r : Reason)
    → Unanswered snapshot rule
    → evaluate_rule domain rule snapshot ≡ ok r
    → r.result ≡ unknown
Unanswered-unknown domain rule snapshot r u h =
    judge_expected-unknown domain rule snapshot (expected_value rule) r u
      (unfold evaluate_rule in h)

policy-Unanswered :
    (rules : List Fields) (snapshot : Fields) (rs : List Reason)
    → Has (Unanswered snapshot) rules
    → evaluate_policy rules snapshot ≡ ok rs
    → ¬ All (ResultIs pass) rs
unfolding evaluate_policy
policy-Unanswered [] snapshot rs u h = absurd u
policy-Unanswered (rule ∷ rules) snapshot rs (inl u) h =
    let (r, tail, judged, _, listed) = prepend-eq-ok _ _ rs h in
    rw listed (λ all. cc (Unanswered-unknown policy rule snapshot r u judged, all.0))
policy-Unanswered (rule ∷ rules) snapshot rs (inr u) h =
    let (r, tail, _, rest, listed) = prepend-eq-ok _ _ rs h in
    rw listed (λ all. policy-Unanswered rules snapshot tail u rest all.1)

All-append_right : (xs ys : List Reason) → All (ResultIs pass) (xs ++ ys) → All (ResultIs pass) ys
All-append_right [] ys h = h
All-append_right (x ∷ xs) ys h = All-append_right xs ys h.1

-- A policy rule whose path the snapshot has no value for: the student is not found eligible,
-- whatever the other rules say.
pub Unanswered-not-eligible :
    (snapshot : Fields) (rules criteria : List Fields) (d : Eligibility) (rs : List Reason)
    → Has (Unanswered snapshot) rules
    → evaluate_snapshot snapshot rules criteria ≡ ok (d, rs)
    → d ≢ eligible
Unanswered-not-eligible snapshot rules criteria d rs u h is_eligible =
    let explained = evaluate_snapshot-Explains snapshot rules criteria d rs h in
    let (reqs, pols, _, ruled, _, listed) =
      finish-eq-ok (evaluate_criteria criteria snapshot) (evaluate_policy rules snapshot) d rs
        (unfold evaluate_snapshot in h) in
    policy-Unanswered rules snapshot pols u ruled
      (All-append_right reqs pols (rw listed at explained.accepted.0 is_eligible))
