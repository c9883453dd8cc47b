-- ===== src/EligibilityService/Operators.antt =====
-- Criteria whose operator the database accepts and the engine does not know.
use placement_assistant.Prelude.{◌≡◌, ◌⊎◌, ok}
use placement_assistant.Value.{str, Fields, get}
use placement_assistant.Engine.{requirement, unknown, Reason, evaluate_rule}
use placement_assistant.Engine.Foreign.{evaluate_rule-unknown}
use placement_assistant.Database.{Criterion}
use placement_assistant.EligibilityService.{criterion_dict}

-- A criterion with the operator `=` or BETWEEN, which the table of criteria allows, is UNKNOWN for every
-- student whenever it can be evaluated.
pub criterion_unknown :
    (c : Criterion) (snapshot : Fields) (r : Reason)
    → (c.operator ≡ str "=") ⊎ (c.operator ≡ str "BETWEEN")
    → evaluate_rule requirement (criterion_dict c) snapshot ≡ ok r
    → r.result ≡ unknown
unfolding criterion_dict get
criterion_unknown c snapshot r operator h =
    evaluate_rule-unknown requirement (criterion_dict c) snapshot r operator h
