-- ===== src/Engine/Aggregate.antt =====
-- Aggregation of the results of a domain, and of the two domains.
use placement_assistant.Prelude.{◌≡◌, refl, Bool, true, false, List, [], ◌∷◌, ◌++◌, arith}
use placement_assistant.Engine.{
  Verdict, pass, fail, unknown, Reason, aggregate_results, aggregate_from,
}

-- FAIL over UNKNOWN over PASS.
abbrev pub worse : Verdict → Verdict → Verdict
worse fail v = fail
worse unknown fail = fail
worse unknown unknown = unknown
worse unknown pass = unknown
worse pass v = v

abbrev pub worst : List Reason → Verdict
worst [] = pass
worst (r ∷ rs) = worse r.result (worst rs)

abbrev remembered : Bool → Verdict
remembered true = unknown
remembered false = pass

aggregate_from-eq-worst :
    (b : Bool) (rs : List Reason) → aggregate_from b rs ≡ worse (remembered b) (worst rs)
unfolding aggregate_from
aggregate_from-eq-worst true [] = refl
aggregate_from-eq-worst false [] = refl
aggregate_from-eq-worst b (r ∷ rs) =
    ground (arith, aggregate_from-eq-worst b rs, aggregate_from-eq-worst true rs)

pub aggregate_results-eq-worst : (rs : List Reason) → aggregate_results rs ≡ worst rs
unfolding aggregate_results
aggregate_results-eq-worst = aggregate_from-eq-worst false

pub worst-append : (rs ss : List Reason) → worst (rs ++ ss) ≡ worse (worst rs) (worst ss)
worst-append [] ss = refl
worst-append (r ∷ rs) ss = ground (arith, worst-append rs ss)
