-- ===== src/Engine/Monotone.antt =====
-- Further policy rules can only lower the final result.
use placement_assistant.Prelude.{◌≡◌, refl, List, [], ◌∷◌, ◌++◌, All, Has, inl, inr, ok}
use placement_assistant.Value.{Fields}
use placement_assistant.Engine.{
  Eligibility, eligible, not_eligible, Reason, fail, pass, policy, evaluate_rule, evaluate_criteria,
  evaluate_policy, evaluate_snapshot, decide,
}
use placement_assistant.Engine.Coverage.{prepend-eq-ok}
use placement_assistant.Engine.Decision.{ResultIs, evaluate_snapshot-Explains, finish-eq-ok}

evaluate_policy-append :
    (ps qs : List Fields) (snapshot : Fields) (rs : List Reason)
    → evaluate_policy (ps ++ qs) snapshot ≡ ok rs
    → (firsts : List Reason) × (bs : List Reason) × (evaluate_policy ps snapshot ≡ ok firsts)
      × (rs ≡ firsts ++ bs)
unfolding evaluate_policy
evaluate_policy-append [] qs snapshot rs h = ([], rs, refl, refl)
evaluate_policy-append (p ∷ ps) qs snapshot rs h =
    let (r, tail, judged, rest, listed) =
      prepend-eq-ok (evaluate_rule policy p snapshot) (evaluate_policy (ps ++ qs) snapshot) rs h in
    let (firsts, bs, first, both) = evaluate_policy-append ps qs snapshot tail rest in
    (r ∷ firsts, bs, rw (judged, first), rw (listed, both))

All-drop :
    (xs ys zs : List Reason)
    → All (ResultIs pass) (xs ++ (ys ++ zs))
    → All (ResultIs pass) (xs ++ ys)
All-drop [] [] zs h = tt
All-drop [] (y ∷ ys) zs h = (h.0, All-drop [] ys zs h.1)
All-drop (x ∷ xs) ys zs h = (h.0, All-drop xs ys zs h.1)

Has-extend :
    (xs ys zs : List Reason)
    → Has (ResultIs fail) (xs ++ ys)
    → Has (ResultIs fail) (xs ++ (ys ++ zs))
Has-extend [] [] zs h = absurd h
Has-extend [] (y ∷ ys) zs (inl h) = inl h
Has-extend [] (y ∷ ys) zs (inr h) = inr (Has-extend [] ys zs h)
Has-extend (x ∷ xs) ys zs (inl h) = inl h
Has-extend (x ∷ xs) ys zs (inr h) = inr (Has-extend xs ys zs h)

-- If a policy with the further rules `qs` can be evaluated, then so can the policy without them;
-- a student who is eligible under both is eligible under the shorter, and one who is not eligible
-- under the shorter is not eligible under both.
pub evaluate_snapshot_mono :
    (snapshot : Fields) (ps qs criteria : List Fields) (d : Eligibility) (rs : List Reason)
    → evaluate_snapshot snapshot (ps ++ qs) criteria ≡ ok (d, rs)
    → (d' : Eligibility) × (rs' : List Reason) × (evaluate_snapshot snapshot ps criteria
        ≡ ok (d', rs'))
      × (d ≡ eligible → d' ≡ eligible)
      × (d' ≡ not_eligible → d ≡ not_eligible)
evaluate_snapshot_mono snapshot ps qs criteria d rs h =
    let (reqs, pols, judged, ruled, _, listed) =
      finish-eq-ok (evaluate_criteria criteria snapshot) (evaluate_policy (ps ++ qs) snapshot) d rs
        (unfold evaluate_snapshot in h) in
    let (firsts, bs, first, both) = evaluate_policy-append ps qs snapshot pols ruled in
    let shorter = decide reqs firsts in
    let returned : evaluate_snapshot snapshot ps criteria ≡ ok shorter =
      unfold evaluate_snapshot in rw (judged, first) in
    let long = evaluate_snapshot-Explains snapshot (ps ++ qs) criteria d rs h in
    let short = evaluate_snapshot-Explains snapshot ps criteria shorter.0 shorter.1 returned in
    (
      shorter.0,
      shorter.1,
      returned,
      λ e. short.accepted.1 (All-drop reqs firsts bs (rw (listed, both) at long.accepted.0 e)),
      λ e. long.rejected.1 (rw (listed, both) (Has-extend reqs firsts bs (short.rejected.0 e))),
    )
