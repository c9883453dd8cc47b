-- ===== src/EligibilityService.antt =====
-- The eligibility service: apps/api/app/core/services/eligibility_service.py. Between the reads of
-- an evaluation and its commit, other requests may commit: `meanwhile` is what they do.
pub mod Snapshot
pub mod Inputs
pub mod Outcome
pub mod Keys
pub mod Repeat
pub mod Tenancy
pub mod Operators
mod Tests
use Prim.Native.String.{◌++◌ as str_append}
use placement_assistant.Prelude.{
  ℕ, String, Bool, true, false, ◌&&◌, ◌||◌, not, Option, none, some, List, [], ◌∷◌, ◌++◌, map, keep,
  any, is_some, Result, ok, err, http, integrity_error, Action, ◌>>=◌, ◌>>◌, pure, raise, or_raise,
  modify, ◌==◌, str_eq, if◌then◌else◌,
}
use placement_assistant.Prelude.Reading.{Reading, reads, found_or}
use placement_assistant.Value.{Value, str, Fields, end, field, get}
use placement_assistant.Engine.{Eligibility, Reason, evaluate_snapshot}
use placement_assistant.Database.{
  Db, Principal, Drive, Opportunity, PolicyRule, Criterion, EligibilityDecision, one_or_none,
}
use placement_assistant.EligibilityService.Snapshot.{Context, Prepared, prepare}

-- {"field": r.code, **r.definition}: a "field" of the definition wins. The order of the keys, which
-- no lookup sees, is the definition's.
rule_dict : PolicyRule → Fields
rule_dict r =
    if is_some (get r.definition "field")
    then r.definition
    else field "field" (str r.code) r.definition

unfoldable pub policy_rules_of : Db → ℕ → List Fields
unfolding rule_dict
policy_rules_of db policy_version_id =
    map rule_dict (keep (λ r. r.policy_version_id == policy_version_id) db.policy_rules)

unfoldable pub criterion_dict : Criterion → Fields
criterion_dict c = field "field" (str c.code) (
    field "operator" c.operator
      (field "operand" c.operand (field "applicability" (str c.applicability) end)))

unfoldable pub criteria_of : Db → ℕ → List Fields
unfolding criterion_dict
criteria_of db requirement_version_id =
    map criterion_dict (keep (λ c. c.requirement_version_id == requirement_version_id) db.criteria)

unfoldable pub key_of : Context → Prepared → ℕ → String
key_of context q req_version_id = context.sha256 (
    str_append (context.dumps q.snapshot) (
      str_append "|" (
        str_append (context.str_id q.policy_version_id)
          (str_append "|" (str_append (context.str_id req_version_id) "|v1.0")))))

abbrev pub has_key : ℕ → String → EligibilityDecision → Bool
has_key institution_id key d = d.institution_id == institution_id && str_eq d.evaluation_key key

-- The foreign keys of a decision, each within its institution.
dangling : Db → EligibilityDecision → Bool
dangling db d = not (
    any (λ s. s.id == d.student_id && s.institution_id == d.institution_id) db.students
    && any (λ o. o.id == d.opportunity_id && o.institution_id == d.institution_id) db.opportunities
    && any (λ v. v.id == d.policy_version_id && v.institution_id == d.institution_id)
        db.policy_versions
    && any (λ v. v.id == d.requirement_version_id && v.institution_id == d.institution_id)
        db.requirement_versions)

-- The commit raises IntegrityError: a foreign key dangles, or the institution has the key.
unfoldable pub violates : Db → EligibilityDecision → Bool
unfolding dangling
violates db d = dangling db d || any (has_key d.institution_id d.evaluation_key) db.decisions

abbrev pub answers : EligibilityDecision → EligibilityDecision → Bool
answers d e =
    str_eq e.evaluation_key d.evaluation_key
    && e.student_id == d.student_id
    && e.opportunity_id == d.opportunity_id

-- After the rollback, the decision that another request committed.
recover : EligibilityDecision → Action Db EligibilityDecision
recover d = do
  found ← reads (λ db. one_or_none (keep (answers d) db.decisions))
  or_raise (http 500 "INTERNAL_ERROR") found

pub add_decision : EligibilityDecision → Db → Db
add_decision d db = record db { decisions = db.decisions ++ d ∷ [] }

unfoldable pub persist : EligibilityDecision → Action Db EligibilityDecision
unfolding recover add_decision
persist d db = if violates db d then recover d db else (ok d, add_decision d db)

module _ (context : Context) (p : Principal) (student_id opportunity_id req_version_id : ℕ) where
  unfoldable pub decision_of : Prepared → Eligibility × List Reason → EligibilityDecision
  decision_of q (result, reasons) = record {
    id = context.new_id;
    institution_id = p.institution_id;
    student_id = student_id;
    opportunity_id = opportunity_id;
    policy_version_id = q.policy_version_id;
    requirement_version_id = req_version_id;
    result = result;
    evaluation_key = key_of context q req_version_id;
    snapshot = q.snapshot;
    reasons = reasons;
    created_at = context.now;
  }

  module _ (meanwhile : Db → Db) where
    unfoldable pub decide_anew : Prepared → Action Db EligibilityDecision
    decide_anew q = do
      judged ← reads (λ db.
          evaluate_snapshot q.snapshot (policy_rules_of db q.policy_version_id)
            (criteria_of db req_version_id))
      modify meanwhile
      persist (decision_of q judged)

    or_decide : Prepared → Option EligibilityDecision → Action Db EligibilityDecision
    or_decide q (some d) = pure d
    or_decide q none = decide_anew q

    after_reading : Prepared → Action Db EligibilityDecision
    unfolding or_decide
    after_reading q = do
      existing ← reads (λ db.
          one_or_none
            (keep (has_key p.institution_id (key_of context q req_version_id)) db.decisions))
      or_decide q existing

    unfoldable pub evaluate : Action Db EligibilityDecision
    unfolding after_reading
    evaluate = do q ← reads (prepare context p student_id opportunity_id); after_reading q
