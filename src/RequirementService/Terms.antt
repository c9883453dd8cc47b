-- ===== src/RequirementService/Terms.antt =====
-- Which compensation a requirement can have.
use placement_assistant.Prelude.{
  ℕ, String, Bool, false, not, ◌≡◌, Option, ok, continue-inversion, or_raise-inversion,
  raise_if-inversion, eq_iff, arith, keep,
}
use placement_assistant.Database.{Db, Principal, CompensationTerms, RequirementVersion}
use placement_assistant.Repositories.{get_by_id}
use placement_assistant.Repositories.Tables.{opportunities}
use placement_assistant.RequirementService.{
  valid_terms, unresolved, initialize_requirement_graph, next_version, first_row, for_opportunity,
}

valid_terms-unresolved :
    (currency_code : String → Bool) (t : CompensationTerms)
    → not (valid_terms currency_code t) ≡ false
    → (t.comparison_state ≡ "UNRESOLVED") × (t.annual_inr ≡ Option.none)
unfolding valid_terms unresolved
valid_terms-unresolved currency_code t h = ground (arith, eq_iff t.comparison_state "UNRESOLVED")

-- Every compensation that the service stores is UNRESOLVED and has no annual amount: terms that a
-- caller gives as COMPARABLE are refused, since the row's verification stays UNVERIFIED.
pub initialize_requirement_graph-unresolved :
    (p : Principal) (currency_code : String → Bool) (new_id now opportunity_id : ℕ)
    (terms : CompensationTerms) (db db' : Db) (v : RequirementVersion)
    → initialize_requirement_graph p currency_code new_id now opportunity_id terms db ≡ (ok v, db')
    → (terms.comparison_state ≡ "UNRESOLVED") × (terms.annual_inr ≡ Option.none)
unfolding initialize_requirement_graph get_by_id
initialize_requirement_graph-unresolved p currency_code new_id now opportunity_id terms db db' v h =
    let (found, _, h1) =
      continue-inversion (get_by_id opportunities p.institution_id opportunity_id db).0 _ db db' v
        h in
    let (opp, _, h2) = or_raise-inversion _ found _ db db' v h1 in
    let (next, _, h3) =
      continue-inversion
        (next_version p new_id opp
          (first_row p (keep (for_opportunity p opportunity_id) db.requirements)) db).0
        _
        (next_version p new_id opp
          (first_row p (keep (for_opportunity p opportunity_id) db.requirements)) db).1
        db' v h2 in
    let (valid, _) = raise_if-inversion (not (valid_terms currency_code terms)) _ _ _ db' v h3 in
    valid_terms-unresolved currency_code terms valid
