-- ===== src/PolicyService/Rules.antt =====
-- The rules of a policy version that has left PROCESSING.
use placement_assistant.Prelude.{ℕ, String, true, ◌≡◌, ◌≢◌, refl, [], ◌∷◌, keep, err, http}
use placement_assistant.Value.{Fields}
use placement_assistant.Database.{
  Db, Principal, PolicyStatus, draft, processing, PolicyVersion, one_or_none,
}
use placement_assistant.Repositories.{in_tenant, get_by_id}
use placement_assistant.Repositories.Tables.{versions}
use placement_assistant.PolicyService.{is_frozen, add_policy_rule}

frozen : (s : PolicyStatus) → s ≢ draft → s ≢ processing → is_frozen s ≡ true
unfolding is_frozen
frozen draft d q = absurd (d refl)
frozen processing d q = absurd (q refl)
frozen _ d q = refl

-- A rule can be added in DRAFT and in PROCESSING only: in any other status the call raises, whoever
-- makes it, and changes nothing.
pub add_policy_rule_frozen :
    (p : Principal) (new_id version_id : ℕ) (code : String) (definition : Fields) (db : Db)
    (v : PolicyVersion)
    → keep (in_tenant versions p.institution_id version_id) db.policy_versions ≡ v ∷ []
    → v.status ≢ draft
    → v.status ≢ processing
    → add_policy_rule p new_id version_id code definition db
      ≡ (err (http 400 "INVALID_OPERATION"), db)
unfolding add_policy_rule get_by_id one_or_none
add_policy_rule_frozen p new_id version_id code definition db v h left_draft left_processing =
    rw (h, frozen v.status left_draft left_processing) refl
