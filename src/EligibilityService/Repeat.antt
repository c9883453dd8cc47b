-- ===== src/EligibilityService/Repeat.antt =====
-- An evaluation that is repeated.
use placement_assistant.Prelude.{
  ℕ, true, false, ◌≡◌, refl, sym, ap, ◌∙◌, inl, inr, List, Option, none, some, keep, keep-append,
  Result, ok, err, continue, continue-eq-ok, arith, eq_iff, ==_iff,
}
use placement_assistant.Engine.{Eligibility, Reason, evaluate_snapshot}
use placement_assistant.Database.{Db, Principal, EligibilityDecision, one_or_none}
use placement_assistant.EligibilityService.Snapshot.{Context, Prepared, prepare}
use placement_assistant.EligibilityService.Outcome.{persist-eq-ok}
use placement_assistant.EligibilityService.Keys.{fits-unused}
use placement_assistant.EligibilityService.{
  policy_rules_of, criteria_of, key_of, has_key, dangling, violates, recover, persist, add_decision,
  decision_of, decide_anew, or_decide, after_reading, evaluate,
}

-- The same libraries at another time, with another id for a new row.
abbrev pub later : Context → ℕ → ℕ → Context
later context now new_id = record context { now = now; new_id = new_id }

abbrev pub alone : Db → Db
alone db = db

has_key_self : (d : EligibilityDecision) → has_key d.institution_id d.evaluation_key d ≡ true
has_key_self d = ground (
  arith,
  (eq_iff d.evaluation_key d.evaluation_key).1 refl,
  (==_iff d.institution_id d.institution_id).1 refl,
)

-- The decision that was added is the only one with its key.
added-found :
    (d : EligibilityDecision) (db : Db)
    → violates db d ≡ false
    → one_or_none (keep (has_key d.institution_id d.evaluation_key) (add_decision d db).decisions)
      ≡ ok (some d)
unfolding add_decision keep one_or_none
added-found d db fits = rw (keep-append, fits-unused db d fits, has_key_self d) refl

persist-refused :
    (d : EligibilityDecision) (db : Db) → violates db d ≡ true → persist d db ≡ recover d db
unfolding persist
persist-refused d db refused = rw refused refl

module _ (context : Context) (now new_id : ℕ) (p : Principal)
    (student_id opportunity_id req_version_id : ℕ) where
  -- The row of a later evaluation is refused, and answered by other rows, just as the earlier was.
  same_refusal :
      (q : Prepared) (judged : Eligibility × List Reason) (db : Db) (d : EligibilityDecision)
      → violates db (decision_of context p student_id opportunity_id req_version_id q judged) ≡ true
      → persist (decision_of context p student_id opportunity_id req_version_id q judged) db
        ≡ (ok d, db)
      → persist
          (decision_of
            (later context now new_id)
            p
            student_id
            opportunity_id
            req_version_id
            q
            judged)
          db
        ≡ (ok d, db)
  unfolding persist violates dangling recover decision_of key_of
  same_refusal q judged db d refused h =
      persist-refused _ db refused ∙ sym (persist-refused _ db refused) ∙ h

  again_new :
      (q : Prepared) (judged : Eligibility × List Reason) (db : Db) (d : EligibilityDecision)
      (db' : Db)
      → one_or_none (keep (has_key p.institution_id (key_of context q req_version_id)) db.decisions)
        ≡ ok none
      → evaluate_snapshot q.snapshot
          (policy_rules_of db q.policy_version_id)
          (criteria_of db req_version_id)
        ≡ ok judged
      → persist (decision_of context p student_id opportunity_id req_version_id q judged) db
        ≡ (ok d, db')
      → after_reading
          (later context now new_id)
          p
          student_id
          opportunity_id
          req_version_id
          alone
          q
          db'
        ≡ (ok d, db')
  unfolding after_reading or_decide decide_anew key_of decision_of
  again_new q judged db d db' unused by_engine h =
      elim (persist-eq-ok (decision_of context p student_id opportunity_id req_version_id q judged)
        d db db' h) [
          | inl (refused, unchanged, _, _) ↦
              rw (unchanged, unused, by_engine)
                (same_refusal q judged db d refused (rw unchanged at h))
          | inr (fits, row, added) ↦ rw (row, added, added-found _ db fits) refl
        ]

  again :
      (q : Prepared) (found : Result (Option EligibilityDecision)) (db : Db)
      (d : EligibilityDecision) (db' : Db)
      → one_or_none (keep (has_key p.institution_id (key_of context q req_version_id)) db.decisions)
        ≡ found
      → continue found (or_decide context p student_id opportunity_id req_version_id alone q) db
        ≡ (ok d, db')
      → after_reading
          (later context now new_id)
          p
          student_id
          opportunity_id
          req_version_id
          alone
          q
          db'
        ≡ (ok d, db')
  unfolding after_reading or_decide decide_anew key_of
  again q (err e) db d db' found h = cc
  again q (ok (some x)) db d db' found h =
      let same : x ≡ d = cc h in
      let unchanged : db ≡ db' = cc h in rw (sym unchanged, found, same) refl
  again q (ok none) db d db' found h =
      let (judged, by_engine, _) =
        continue-eq-ok
          (evaluate_snapshot q.snapshot (policy_rules_of db q.policy_version_id)
            (criteria_of db req_version_id))
          _ db d (ap (λ (r : Result EligibilityDecision × Db). r.0) h) in
      again_new q judged db d db' found by_engine (rw by_engine at h)

  -- An evaluation that no other request disturbs and that returned a decision returns the same
  -- decision when it is called again, at any later time, and then changes nothing, provided that the
  -- policy and the snapshot are read as before.
  pub evaluate_idempotent :
      (db : Db) (d : EligibilityDecision) (db' : Db)
      → evaluate context p student_id opportunity_id req_version_id alone db ≡ (ok d, db')
      → prepare (later context now new_id) p student_id opportunity_id db'
        ≡ prepare context p student_id opportunity_id db
      → evaluate (later context now new_id) p student_id opportunity_id req_version_id alone db'
        ≡ (ok d, db')
  unfolding evaluate after_reading
  evaluate_idempotent db d db' h unmoved =
      let (q, read, _) =
        continue-eq-ok (prepare context p student_id opportunity_id db) _ db d
          (ap (λ (r : Result EligibilityDecision × Db). r.0) h) in
      rw (unmoved, read) (again q _ db d db' refl (rw read at h))
