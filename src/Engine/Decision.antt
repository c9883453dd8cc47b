-- ===== src/Engine/Decision.antt =====
-- What the final result says of the reasons that are returned with it.
use placement_assistant.Prelude.{
  ◌≡◌, refl, ◌↔◌, List, [], ◌∷◌, ◌++◌, All, Has, arith, Result, ok, err,
}
use placement_assistant.Value.{Fields}
use placement_assistant.Engine.{
  Verdict, pass, fail, unknown, Eligibility, eligible, not_eligible, undetermined, Reason,
  aggregate_results, combine, finish, evaluate_criteria, evaluate_policy, evaluate_snapshot,
}
use placement_assistant.Engine.Aggregate.{worse, worst, worst-append, aggregate_results-eq-worst}

abbrev pub ResultIs : Verdict → Reason → Type 0
ResultIs v r = r.result ≡ v

abbrev pub of_verdict : Verdict → Eligibility
of_verdict fail = not_eligible
of_verdict unknown = undetermined
of_verdict pass = eligible

combine-eq-worse : (v w : Verdict) → combine v w ≡ of_verdict (worse v w)
unfolding combine
combine-eq-worse v w = ground arith

-- What the reasons say, read without the order or the domains in which they were found.
pub record Explains (d : Eligibility) (rs : List Reason) : Type 0 where
  pub rejected : (d ≡ not_eligible) ↔ Has (ResultIs fail) rs
  pub accepted : (d ≡ eligible) ↔ All (ResultIs pass) rs
  pub open_question : (d ≡ undetermined) ↔ (¬ Has (ResultIs fail) rs × Has (ResultIs unknown) rs)

worst-fail : (rs : List Reason) → (worst rs ≡ fail) ↔ Has (ResultIs fail) rs
worst-fail [] = ((λ e. cc), λ h. absurd h)
worst-fail (r ∷ rs) = ground (arith, worst-fail rs)

worst-pass : (rs : List Reason) → (worst rs ≡ pass) ↔ All (ResultIs pass) rs
worst-pass [] = ((λ e. tt), λ h. refl)
worst-pass (r ∷ rs) = ground (arith, worst-pass rs)

worst-unknown :
    (rs : List Reason)
    → (worst rs ≡ unknown) ↔ (¬ Has (ResultIs fail) rs × Has (ResultIs unknown) rs)
worst-unknown [] = ((λ e. cc), λ h. absurd h.1)
worst-unknown (r ∷ rs) = ground (arith, worst-unknown rs, worst-fail rs)

of_verdict-Explains : (rs : List Reason) → Explains (of_verdict (worst rs)) rs
of_verdict-Explains rs = record {
  rejected = ground (arith, worst-fail rs);
  accepted = ground (arith, worst-pass rs);
  open_question = ground (arith, worst-unknown rs);
}

-- Inversion of the last step.
pub finish-eq-ok :
    (a b : Result (List Reason)) (d : Eligibility) (rs : List Reason)
    → finish a b ≡ ok (d, rs)
    → (reqs : List Reason) × (pols : List Reason) × (a ≡ ok reqs)
      × (b ≡ ok pols)
      × (d ≡ of_verdict (worst (reqs ++ pols)))
      × (rs ≡ reqs ++ pols)
finish-eq-ok (err e) b d rs h = cc
finish-eq-ok (ok reqs) (err e) d rs h = cc
finish-eq-ok (ok reqs) (ok pols) d rs h = (
  reqs,
  pols,
  refl,
  refl,
  ground (
    arith,
    combine-eq-worse (aggregate_results reqs) (aggregate_results pols),
    aggregate_results-eq-worst reqs,
    aggregate_results-eq-worst pols,
    worst-append reqs pols,
  ),
  cc,
)

-- An evaluation that returns is explained by the reasons that it returns: it is NOT_ELIGIBLE
-- exactly when one of them failed, ELIGIBLE exactly when all of them passed, and UNKNOWN exactly
-- when none failed and one is unknown, whichever domain they come from.
pub evaluate_snapshot-Explains :
    (snapshot : Fields) (rules criteria : List Fields) (d : Eligibility) (rs : List Reason)
    → evaluate_snapshot snapshot rules criteria ≡ ok (d, rs)
    → Explains d rs
unfolding evaluate_snapshot
evaluate_snapshot-Explains snapshot rules criteria d rs h =
    let (reqs, pols, _, _, decided, listed) =
      finish-eq-ok (evaluate_criteria criteria snapshot) (evaluate_policy rules snapshot) d rs h in
    rw (decided, ← listed) (of_verdict-Explains rs)
