-- ===== src/EligibilityService/Outcome.antt =====
-- What an evaluation returns and what it leaves in the database.
use placement_assistant.Prelude.{
  ℕ, String, Bool, ◌≡◌, refl, ◌⊎◌, inl, inr, true, false, Option, none, some, List, [], ◌∷◌, ◌++◌,
  keep, Has, Has-keep, Has-map, Has-snoc, keep-passes, Result, ok, err, http, continue, or_raise,
  Bool-cases, arith, eq_iff, sym, ap, continue-eq-ok,
}
use placement_assistant.Engine.{Eligibility, Reason, evaluate_snapshot}
use placement_assistant.Database.{Db, Principal, EligibilityDecision, one_or_none, one_or_none-some}
use placement_assistant.EligibilityService.Snapshot.{Context, Prepared, prepare}
use placement_assistant.Value.{Fields}
use placement_assistant.EligibilityService.Inputs.{
  AreRules, AreCriteria, policy_rules_of-AreRules, criteria_of-AreCriteria,
}
use placement_assistant.EligibilityService.{
  policy_rules_of, criteria_of, key_of, has_key, answers, violates, recover, persist, add_decision,
  decision_of, decide_anew, or_decide, after_reading, evaluate,
}

abbrev pub Contains : List EligibilityDecision → EligibilityDecision → Type 0
Contains ds d = Has (λ e. e ≡ d) ds

-- The one row that a query returns is in the table and passes the query's conditions.
pub one_or_none-Contains :
    (q : EligibilityDecision → Bool) (ds : List EligibilityDecision) (d : EligibilityDecision)
    → one_or_none (keep q ds) ≡ ok (some d)
    → Contains ds d × (q d ≡ true)
one_or_none-Contains q ds d h =
    let kept = one_or_none-some (keep q ds) d h in
    let there : Has (λ e. e ≡ d) (keep q ds) = rw kept (inl refl) in
    (
      Has-map (λ e. (e ≡ d) × (q e ≡ true)) (λ e. e ≡ d) (λ e both. both.0) ds
          (Has-keep (λ e. e ≡ d) q ds there),
      (rw kept at (keep-passes q ds)).0,
    )

-- The decision of another request that `recover` finds, if it returns.
recover-eq-ok :
    (d e : EligibilityDecision) (db db' : Db) (r : Result (Option EligibilityDecision))
    → one_or_none (keep (answers d) db.decisions) ≡ r
    → continue r (or_raise (http 500 "INTERNAL_ERROR")) db ≡ (ok e, db')
    → (db' ≡ db) × Contains db.decisions e × (answers d e ≡ true)
recover-eq-ok d e db db' (err x) found h = cc
recover-eq-ok d e db db' (ok none) found h = cc
recover-eq-ok d e db db' (ok (some x)) found h =
    let same : x ≡ e = cc h in
    let unchanged : db' ≡ db = cc h in
    let (there, passed) = one_or_none-Contains (answers d) db.decisions x found in
    (unchanged, rw same at there, rw same at passed)

pub has_key-fields :
    (institution_id : ℕ) (key : String) (d : EligibilityDecision)
    → has_key institution_id key d ≡ true
    → (d.institution_id ≡ institution_id) × (d.evaluation_key ≡ key)
has_key-fields institution_id key d h = ground (arith, eq_iff d.evaluation_key key)

answers-key : (d e : EligibilityDecision) → answers d e ≡ true → e.evaluation_key ≡ d.evaluation_key
answers-key d e h = ground (arith, eq_iff e.evaluation_key d.evaluation_key)

-- A commit that returned: the row of another request, or the new row.
pub persist-eq-ok :
    (d e : EligibilityDecision) (db db' : Db)
    → persist d db ≡ (ok e, db')
    → ((violates db d ≡ true) × (db' ≡ db) × Contains db.decisions e × (answers d e ≡ true))
      ⊎ ((violates db d ≡ false) × (e ≡ d) × (db' ≡ add_decision d db))
unfolding persist recover
persist-eq-ok d e db db' h = elim (Bool-cases (violates db d)) [
  | inl refused ↦
      let (unchanged, there, passed) =
        recover-eq-ok d e db db' (one_or_none (keep (answers d) db.decisions)) refl
          (rw refused at h) in
      inl (refused, unchanged, there, passed)
  | inr fits ↦ let kept = rw fits at h in inr (fits, cc kept, cc kept)
]

module _ (context : Context) (p : Principal) (student_id opportunity_id req_version_id : ℕ)
    (meanwhile : Db → Db) where
  -- A new decision: the engine's, on the rules of the policy and the criteria of the requirement, as the
  -- last row.
  pub record IsNew (q : Prepared) (db : Db) (d : EligibilityDecision) (db' : Db) : Type 0 where
    pub judged : Eligibility × List Reason
    pub policy_rules : List Fields
    pub criteria : List Fields
    pub are_rules : AreRules db q.policy_version_id policy_rules
    pub are_criteria : AreCriteria db req_version_id criteria
    pub by_engine : evaluate_snapshot q.snapshot policy_rules criteria ≡ ok judged
    pub id : d.id ≡ context.new_id
    pub institution : d.institution_id ≡ p.institution_id
    pub student : d.student_id ≡ student_id
    pub opportunity : d.opportunity_id ≡ opportunity_id
    pub policy_version : d.policy_version_id ≡ q.policy_version_id
    pub requirement_version : d.requirement_version_id ≡ req_version_id
    pub result : d.result ≡ judged.0
    pub reasons : d.reasons ≡ judged.1
    pub snapshot : d.snapshot ≡ q.snapshot
    pub created_at : d.created_at ≡ context.now
    pub added : db' ≡ record (meanwhile db) { decisions = (meanwhile db).decisions ++ d ∷ [] }

  decision_of-IsNew :
      (q : Prepared) (db : Db) (judged : Eligibility × List Reason) (d : EligibilityDecision)
      (db' : Db)
      → evaluate_snapshot q.snapshot
          (policy_rules_of db q.policy_version_id)
          (criteria_of db req_version_id)
        ≡ ok judged
      → d ≡ decision_of context p student_id opportunity_id req_version_id q judged
      → db' ≡ add_decision d (meanwhile db)
      → IsNew q db d db'
  unfolding decision_of add_decision
  decision_of-IsNew q db judged d db' by_engine row added = record {
    judged = judged;
    policy_rules = policy_rules_of db q.policy_version_id;
    criteria = criteria_of db req_version_id;
    are_rules = policy_rules_of-AreRules db q.policy_version_id;
    are_criteria = criteria_of-AreCriteria db req_version_id;
    by_engine = by_engine;
    id = ap (λ x. x.id) row;
    institution = ap (λ x. x.institution_id) row;
    student = ap (λ x. x.student_id) row;
    opportunity = ap (λ x. x.opportunity_id) row;
    policy_version = ap (λ x. x.policy_version_id) row;
    requirement_version = ap (λ x. x.requirement_version_id) row;
    result = ap (λ x. x.result) row;
    reasons = ap (λ x. x.reasons) row;
    snapshot = ap (λ x. x.snapshot) row;
    created_at = ap (λ x. x.created_at) row;
    added = added;
  }

  pub record IsOutcome (db : Db) (d : EligibilityDecision) (db' : Db) : Type 0 where
    pub prepared : Prepared
    pub read : prepare context p student_id opportunity_id db ≡ ok prepared
    pub keyed : d.evaluation_key ≡ key_of context prepared req_version_id
    pub stored : Contains db'.decisions d
    pub how : (db' ≡ db) ⊎ ((db' ≡ meanwhile db) ⊎ IsNew prepared db d db')

  persisted :
      (q : Prepared) (db : Db) (d : EligibilityDecision) (db' : Db)
      (judged : Eligibility × List Reason)
      → prepare context p student_id opportunity_id db ≡ ok q
      → evaluate_snapshot q.snapshot
          (policy_rules_of db q.policy_version_id)
          (criteria_of db req_version_id)
        ≡ ok judged
      → persist
          (decision_of context p student_id opportunity_id req_version_id q judged)
          (meanwhile db)
        ≡ (ok d, db')
      → IsOutcome db d db'
  unfolding decision_of
  persisted q db d db' judged read by_engine h =
      elim (persist-eq-ok (decision_of context p student_id opportunity_id req_version_id q judged)
        d (meanwhile db) db' h) [
          | inl (_, unchanged, there, matches) ↦ record {
            prepared = q;
            read = read;
            keyed =
                (answers-key
                  (decision_of context p student_id opportunity_id req_version_id q judged) d
                  matches);
            stored = rw unchanged there;
            how = inr (inl unchanged);
          }
          | inr (_, row, added) ↦ record {
            prepared = q;
            read = read;
            keyed = rw row refl;
            stored =
                rw added (unfold add_decision in Has-snoc _ (meanwhile db).decisions _ (sym row));
            how = inr (inr (decision_of-IsNew q db judged d db' by_engine row (rw row added)));
          }
        ]

  or_decide-IsOutcome :
      (q : Prepared) (found : Result (Option EligibilityDecision)) (db : Db)
      (d : EligibilityDecision) (db' : Db)
      → prepare context p student_id opportunity_id db ≡ ok q
      → one_or_none (keep (has_key p.institution_id (key_of context q req_version_id)) db.decisions)
        ≡ found
      → continue found (or_decide context p student_id opportunity_id req_version_id meanwhile q) db
        ≡ (ok d, db')
      → IsOutcome db d db'
  unfolding or_decide decide_anew
  or_decide-IsOutcome q (err e) db d db' read found h = cc
  or_decide-IsOutcome q (ok (some x)) db d db' read found h =
      let (there, matches) =
        one_or_none-Contains (has_key p.institution_id (key_of context q req_version_id))
          db.decisions x found in
      let same : x ≡ d = cc h in
      let unchanged : db ≡ db' = cc h in
      record {
        prepared = q;
        read = read;
        keyed =
            rw same at
              (has_key-fields p.institution_id (key_of context q req_version_id) x matches).1;
        stored = rw same at (rw unchanged at there);
        how = inl (sym unchanged);
      }
  or_decide-IsOutcome q (ok none) db d db' read found h =
      let (judged, by_engine, _) =
        continue-eq-ok
          (evaluate_snapshot q.snapshot (policy_rules_of db q.policy_version_id)
            (criteria_of db req_version_id))
          _ db d (ap (λ (r : Result EligibilityDecision × Db). r.0) h) in
      persisted q db d db' judged read by_engine (rw by_engine at h)

  pub evaluate-IsOutcome :
      (db : Db) (d : EligibilityDecision) (db' : Db)
      → evaluate context p student_id opportunity_id req_version_id meanwhile db ≡ (ok d, db')
      → IsOutcome db d db'
  unfolding evaluate after_reading
  evaluate-IsOutcome db d db' h =
      let (q, read, _) =
        continue-eq-ok (prepare context p student_id opportunity_id db) _ db d
          (ap (λ (r : Result EligibilityDecision × Db). r.0) h) in
      or_decide-IsOutcome q _ db d db' read refl (rw read at h)
