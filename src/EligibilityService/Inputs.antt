-- ===== src/EligibilityService/Inputs.antt =====
-- What the engine is given of the rules and the criteria in the tables.
use placement_assistant.Prelude.{
  ℕ, String, false, none, some, List, ◌≡◌, ◌≢◌, refl, sym, ◌∙◌, arith, Selects, map-keep-Selects,
  Option-cases, inl, inr, ==_iff, ◌==◌, str_eq,
}
use placement_assistant.Value.{str, Fields, get}
use placement_assistant.Database.{Db, PolicyRule, Criterion}
use placement_assistant.EligibilityService.{rule_dict, policy_rules_of, criterion_dict, criteria_of}

-- The dictionary of a rule: its definition, with the rule's code as "field" if the definition has none.
pub record IsRuleDict (r : PolicyRule) (f : Fields) : Type 0 where
  pub others : (k : String) → str_eq "field" k ≡ false → get f k ≡ get r.definition k
  pub by_code : get r.definition "field" ≡ none → get f "field" ≡ some (str r.code)
  pub by_definition : get r.definition "field" ≢ none → get f "field" ≡ get r.definition "field"

pub record IsCriterionDict (c : Criterion) (f : Fields) : Type 0 where
  pub code : get f "field" ≡ some (str c.code)
  pub operator : get f "operator" ≡ some c.operator
  pub operand : get f "operand" ≡ some c.operand
  pub applicability : get f "applicability" ≡ some (str c.applicability)

-- The rules of that version of the policy, and no others.
abbrev pub AreRules : Db → ℕ → List Fields → Type 0
AreRules db id = Selects (λ r. r.policy_version_id ≡ id) IsRuleDict db.policy_rules

-- The criteria of that version of the requirement, and no others.
abbrev pub AreCriteria : Db → ℕ → List Fields → Type 0
AreCriteria db id = Selects (λ c. c.requirement_version_id ≡ id) IsCriterionDict db.criteria

differs : (m n : ℕ) → (m == n) ≡ false → m ≢ n
differs m n h same = ground (arith, ==_iff m n)

rule_dict-IsRuleDict : (r : PolicyRule) → IsRuleDict r (rule_dict r)
unfolding rule_dict get
rule_dict-IsRuleDict r = elim (Option-cases (get r.definition "field")) [
  | inl absent ↦ rw absent (record {
    others = λ k other. rw other refl;
    by_code = λ _. refl;
    by_definition = λ present. absurd (present absent);
  })
  | inr (v, there) ↦ rw there (record {
    others = λ k _. refl;
    by_code = λ absent. absurd (cc (sym there ∙ absent));
    by_definition = λ _. refl;
  })
]

criterion_dict-IsCriterionDict : (c : Criterion) → IsCriterionDict c (criterion_dict c)
unfolding criterion_dict get
criterion_dict-IsCriterionDict c = record {
  code = refl;
  operator = refl;
  operand = refl;
  applicability = refl;
}

pub policy_rules_of-AreRules : (db : Db) (id : ℕ) → AreRules db id (policy_rules_of db id)
unfolding policy_rules_of
policy_rules_of-AreRules db id =
    map-keep-Selects (λ r. r.policy_version_id ≡ id) IsRuleDict (λ r. r.policy_version_id == id)
      rule_dict (λ r h. (==_iff r.policy_version_id id).0 h)
      (λ r h. differs r.policy_version_id id h) rule_dict-IsRuleDict db.policy_rules

pub criteria_of-AreCriteria : (db : Db) (id : ℕ) → AreCriteria db id (criteria_of db id)
unfolding criteria_of
criteria_of-AreCriteria db id =
    map-keep-Selects (λ c. c.requirement_version_id ≡ id) IsCriterionDict
      (λ c. c.requirement_version_id == id) criterion_dict
      (λ c h. (==_iff c.requirement_version_id id).0 h)
      (λ c h. differs c.requirement_version_id id h) criterion_dict-IsCriterionDict db.criteria
