-- ===== src/Engine/Order.antt =====
-- The order of the rules does not matter to the final result.
use mathlib.Core.List.{Perm, Permᴰ, foldr}
use mathlib.Core.Logic.{∥∥₁_elim}
use placement_assistant.Prelude.{
  ◌≡◌, refl, ap, ◌∙◌, List, [], ◌∷◌, arith, Result, ok, err, if◌then◌else◌, Bool-cases, inl, inr,
  String-set,
}
use placement_assistant.Value.{Fields}
use placement_assistant.Engine.{
  Verdict, pass, Eligibility, Reason, applies, evaluate_rule, evaluate_criteria, evaluate_policy,
  evaluate_snapshot, combine, requirement, policy, prepend, finish,
}
use placement_assistant.Engine.Aggregate.{worse, worst, aggregate_results-eq-worst}
use placement_assistant.Engine.Errors.{Raises, evaluate_rule-Raises}
use native.Mathlib.Decide.{ℕ_discrete}

-- A domain's verdict, or the exception.
abbrev worst_of : Result (List Reason) → Result Verdict
worst_of (err e) = err e
worst_of (ok rs) = ok (worst rs)

-- The final result alone.
abbrev pub final : Result (Eligibility × List Reason) → Result Eligibility
final (err e) = err e
final (ok (d, rs)) = ok d

abbrev combine_of : Result Verdict → Result Verdict → Result Eligibility
combine_of (err e) q = err e
combine_of (ok v) (err e) = err e
combine_of (ok v) (ok w) = ok (combine v w)

final-finish :
    (a b : Result (List Reason)) → final (finish a b) ≡ combine_of (worst_of a) (worst_of b)
final-finish (err e) b = refl
final-finish (ok r) (err e) = refl
final-finish (ok r) (ok s) = cc (aggregate_results-eq-worst r, aggregate_results-eq-worst s)

abbrev worse_of : Result Reason → Result Verdict → Result Verdict
worse_of (err e) q = err e
worse_of (ok r) (err e) = err e
worse_of (ok r) (ok v) = ok (worse r.result v)

worst_of-prepend :
    (a : Result Reason) (b : Result (List Reason))
    → worst_of (prepend a b) ≡ worse_of a (worst_of b)
worst_of-prepend (err e) b = refl
worst_of-prepend (ok r) (err e) = refl
worst_of-prepend (ok r) (ok rs) = refl

worse_of_comm :
    (a b : Result Reason) (q : Result Verdict)
    → Raises a
    → Raises b
    → worse_of a (worse_of b q) ≡ worse_of b (worse_of a q)
worse_of_comm (err e) (err f) q ra rb = cc (ra e refl, rb f refl)
worse_of_comm (err e) (ok r) q ra rb = refl
worse_of_comm (ok r) (err e) q ra rb = refl
worse_of_comm (ok r) (ok s) (err e) ra rb = refl
worse_of_comm (ok r) (ok s) (ok v) ra rb = ground arith

-- The verdict of a domain as a fold of one step for each rule.
abbrev policy_step : Fields → Fields → Result Verdict → Result Verdict
policy_step snapshot rule q = worse_of (evaluate_rule policy rule snapshot) q

abbrev criteria_step : Fields → Fields → Result Verdict → Result Verdict
criteria_step snapshot crit q =
    if applies crit then worse_of (evaluate_rule requirement crit snapshot) q else q

worst_of-evaluate_policy :
    (rules : List Fields) (snapshot : Fields)
    → worst_of (evaluate_policy rules snapshot) ≡ foldr (policy_step snapshot) (ok pass) rules
unfolding evaluate_policy
worst_of-evaluate_policy [] snapshot = refl
worst_of-evaluate_policy (rule ∷ rules) snapshot =
    worst_of-prepend _ _ ∙ ap (policy_step snapshot rule) (worst_of-evaluate_policy rules snapshot)

worst_of-evaluate_criteria :
    (crits : List Fields) (snapshot : Fields)
    → worst_of (evaluate_criteria crits snapshot) ≡ foldr (criteria_step snapshot) (ok pass) crits
unfolding evaluate_criteria
worst_of-evaluate_criteria [] snapshot = refl
worst_of-evaluate_criteria (crit ∷ crits) snapshot = elim (Bool-cases (applies crit)) [
  | inl used ↦
      rw used (worst_of-prepend _ _ ∙ ap (worse_of _) (worst_of-evaluate_criteria crits snapshot))
  | inr skipped ↦ rw skipped (worst_of-evaluate_criteria crits snapshot)
]

foldr-perm :
    {A B : Type 0} (f : A → B → B) (q : B)
    → ((a b : A) (r : B) → f a (f b r) ≡ f b (f a r))
    → {xs ys : List A} → Permᴰ xs ys
    → foldr f q xs ≡ foldr f q ys
foldr-perm f q comm Permᴰ.nil = refl
foldr-perm f q comm (Permᴰ.cons {b = b} e p) = rw e (ap (f b) (foldr-perm f q comm p))
foldr-perm f q comm (Permᴰ.swap e e') = rw (e, e') (comm _ _ _)
foldr-perm f q comm (Permᴰ.trans p p') = foldr-perm f q comm p ∙ foldr-perm f q comm p'

policy_step_comm :
    (snapshot a b : Fields) (q : Result Verdict)
    → policy_step snapshot a (policy_step snapshot b q)
      ≡ policy_step snapshot b (policy_step snapshot a q)
policy_step_comm snapshot a b q =
    worse_of_comm _ _ q (evaluate_rule-Raises policy a snapshot)
      (evaluate_rule-Raises policy b snapshot)

criteria_step_comm :
    (snapshot a b : Fields) (q : Result Verdict)
    → criteria_step snapshot a (criteria_step snapshot b q)
      ≡ criteria_step snapshot b (criteria_step snapshot a q)
criteria_step_comm snapshot a b q = ground (
  arith,
  worse_of_comm (evaluate_rule requirement a snapshot) (evaluate_rule requirement b snapshot) q
      (evaluate_rule-Raises requirement a snapshot) (evaluate_rule-Raises requirement b snapshot),
)

Eligibility-set : IsSet (Result Eligibility)
Eligibility-set = hlevel (ℕ_discrete, String-set)

-- The final result, or the exception, does not depend on the order in which the policy's rules
-- and the criteria are given.
pub final-perm :
    (snapshot : Fields) (rules rules' criteria criteria' : List Fields)
    → Perm rules rules'
    → Perm criteria criteria'
    → final (evaluate_snapshot snapshot rules criteria)
      ≡ final (evaluate_snapshot snapshot rules' criteria')
unfolding evaluate_snapshot
final-perm snapshot rules rules' criteria criteria' p c = ∥∥₁_elim p (Eligibility-set _ _) λ pd.
    ∥∥₁_elim c (Eligibility-set _ _) λ cd.
      simp (final-finish, worst_of-evaluate_policy, worst_of-evaluate_criteria)
        (rw (
          foldr-perm (policy_step snapshot) (ok pass) (policy_step_comm snapshot) pd,
          foldr-perm (criteria_step snapshot) (ok pass) (criteria_step_comm snapshot) cd,
        ))
