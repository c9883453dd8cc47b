-- ===== src/EligibilityService/Keys.antt =====
-- An institution has one decision for a key.
use placement_assistant.Prelude.{
  ℕ, ◌≤◌, String, false, ◌≡◌, refl, inl, inr, List, [], Option, none, some, keep, keep-append,
  keep-none, length, length-append, Result, ok, err, http, continue, or_raise, Bool-cases, arith,
}
use placement_assistant.Engine.{Eligibility, Reason}
use placement_assistant.Database.{Db, Principal, EligibilityDecision}
use placement_assistant.EligibilityService.Snapshot.{Context, Prepared}
use placement_assistant.EligibilityService.Outcome.{has_key-fields}
use placement_assistant.EligibilityService.{
  has_key, violates, recover, persist, add_decision, decision_of, decide_anew, or_decide,
  after_reading, evaluate,
}

abbrev pub IsKeyed : Db → Type 0
IsKeyed db =
    (institution_id : ℕ) (key : String)
    → length (keep (has_key institution_id key) db.decisions) ≤ 1

-- Nothing has the key of a decision that fits.
pub fits-unused :
    (db : Db) (d : EligibilityDecision)
    → violates db d ≡ false
    → keep (has_key d.institution_id d.evaluation_key) db.decisions ≡ []
unfolding violates
fits-unused db d h =
    keep-none (has_key d.institution_id d.evaluation_key) db.decisions (ground arith)

add_decision-IsKeyed :
    (d : EligibilityDecision) (db : Db)
    → violates db d ≡ false
    → IsKeyed db
    → IsKeyed (add_decision d db)
unfolding add_decision keep
add_decision-IsKeyed d db fits h institution_id key =
    elim (Bool-cases (has_key institution_id key d)) [
      | inl mine ↦
          let (place, text) = has_key-fields institution_id key d mine in
          rw (keep-append, mine, rw (place, text) at (fits-unused db d fits)) (omega arith)
      | inr other ↦ rw (keep-append, other, length-append) (omega (arith, h institution_id key))
    ]

recover-db :
    (d : EligibilityDecision) (db : Db) (found : Result (Option EligibilityDecision))
    → (continue found (or_raise (http 500 "INTERNAL_ERROR")) db).1 ≡ db
recover-db d db (err e) = refl
recover-db d db (ok none) = refl
recover-db d db (ok (some x)) = refl

persist-IsKeyed : (d : EligibilityDecision) (db : Db) → IsKeyed db → IsKeyed (persist d db).1
unfolding persist recover
persist-IsKeyed d db h = elim (Bool-cases (violates db d)) [
  | inl refused ↦ rw (refused, recover-db) h
  | inr fits ↦ rw fits (add_decision-IsKeyed d db fits h)
]

module _ (context : Context) (p : Principal) (student_id opportunity_id req_version_id : ℕ)
    (meanwhile : Db → Db) where
  judged-IsKeyed :
      (q : Prepared) (judged : Result (Eligibility × List Reason)) (db : Db)
      → IsKeyed db
      → IsKeyed (meanwhile db)
      → IsKeyed
          (continue judged
            (λ j s.
              persist
                (decision_of context p student_id opportunity_id req_version_id q j)
                (meanwhile s))
            db).1
  judged-IsKeyed q (err e) db h later = h
  judged-IsKeyed q (ok j) db h later = persist-IsKeyed _ (meanwhile db) later

  or_decide-IsKeyed :
      (q : Prepared) (found : Result (Option EligibilityDecision)) (db : Db)
      → IsKeyed db
      → IsKeyed (meanwhile db)
      → IsKeyed
          (continue found
            (or_decide context p student_id opportunity_id req_version_id meanwhile q)
            db).1
  unfolding or_decide decide_anew
  or_decide-IsKeyed q (err e) db h later = h
  or_decide-IsKeyed q (ok (some x)) db h later = h
  or_decide-IsKeyed q (ok none) db h later = judged-IsKeyed q _ db h later

  read-IsKeyed :
      (read : Result Prepared) (db : Db)
      → IsKeyed db
      → IsKeyed (meanwhile db)
      → IsKeyed
          (continue read
            (after_reading context p student_id opportunity_id req_version_id meanwhile)
            db).1
  unfolding after_reading
  read-IsKeyed (err e) db h later = h
  read-IsKeyed (ok q) db h later = or_decide-IsKeyed q _ db h later

  -- If no institution has two decisions with one key, neither before an evaluation nor after what
  -- other requests commit meanwhile, then none has after it, whether it returns or raises.
  pub evaluate-IsKeyed :
      (db : Db)
      → IsKeyed db
      → IsKeyed (meanwhile db)
      → IsKeyed (evaluate context p student_id opportunity_id req_version_id meanwhile db).1
  unfolding evaluate
  evaluate-IsKeyed db h later = read-IsKeyed _ db h later
