-- ===== src/RequirementService/Constraints.antt =====
-- The constraints of the database on compensations and criteria: `Compensation` of
-- apps/api/app/infrastructure/models/recruitment.py and `Criterion` of policy.py beside it.
use placement_assistant.Prelude.{
  ℕ, ℤ, String, Bool, true, false, not, ◌&&◌, ◌||◌, Option, none, some, List, [], ◌∷◌, any, is_some,
  ◌==◌, str_eq, neg_part,
}
use placement_assistant.Value.{Value, null, str, dict, number_order}
use placement_assistant.Value.Text.{Rank, more}
use placement_assistant.Database.{CompensationTerms}

one_of : List String → String → Bool
one_of texts s = any (str_eq s) texts

nonnegative : Option (ℤ × ℕ) → Bool
nonnegative none = true
nonnegative (some (n, d)) = neg_part n == 0

not_more : Rank → Bool
not_more more = false
not_more _ = true

in_order : Option (ℤ × ℕ) → Option (ℤ × ℕ) → Bool
unfolding not_more
in_order (some a) (some b) = not_more (number_order a b)
in_order _ _ = false

nonempty : Option String → Bool
nonempty none = false
nonempty (some s) = not (str_eq s "")

-- shape_amounts
shape_amounts : CompensationTerms → Bool
unfolding in_order
shape_amounts t =
    (str_eq t.shape "EXACT"
      && is_some t.amount
      && not (is_some t.minimum)
      && not (is_some t.maximum))
    || (str_eq t.shape "RANGE" && not (is_some t.amount) && in_order t.minimum t.maximum)
    || (str_eq t.shape "UNKNOWN"
        && not (is_some t.amount)
        && not (is_some t.minimum)
        && not (is_some t.maximum))

-- comparable_terms, of a row whose verification is the default, UNVERIFIED: of its two cases the one of
-- COMPARABLE wants VERIFIED.
unfoldable pub unresolved : CompensationTerms → Bool
unfolding nonempty
unresolved t =
    str_eq t.comparison_state "UNRESOLVED" && not (is_some t.annual_inr) && nonempty t.review_reason

module _ (currency_code : String → Bool) where
  -- The check constraints on a compensation; `currency_code` is the regular expression's.
  unfoldable pub valid_terms : CompensationTerms → Bool
  unfolding one_of nonnegative shape_amounts
  valid_terms t =
      one_of ("ANNUAL" ∷ "MONTHLY" ∷ "HOURLY" ∷ "UNKNOWN" ∷ []) t.period
      && one_of ("TOTAL_CTC" ∷ "FIXED_PAY" ∷ "EQUITY_HEAVY" ∷ "OTHER" ∷ "UNKNOWN" ∷ []) t.basis
      && currency_code t.currency
      && shape_amounts t
      && nonnegative t.amount
      && nonnegative t.minimum
      && nonnegative t.maximum
      && unresolved t

is_null : Value → Bool
is_null null = true
is_null _ = false

is_dict : Value → Bool
is_dict (dict fs) = true
is_dict _ = false

allowed_operator : Value → Bool
unfolding one_of
allowed_operator null = true
allowed_operator (str s) =
    one_of (">" ∷ ">=" ∷ "<" ∷ "<=" ∷ "=" ∷ "!=" ∷ "IN" ∷ "NOT_IN" ∷ "BETWEEN" ∷ []) s
allowed_operator _ = false

-- What a caller gives for a criterion, and for a member.
pub record CriterionDraft : Type 0 where
  pub code : String
  pub applicability : String
  pub operator : Value
  pub operand : Value

pub record MemberDraft : Type 0 where
  pub value : String
  pub department_id : Option ℕ
  pub degree_id : Option ℕ

-- The choices of operators and operand_presence.
unfoldable pub valid_criterion : CriterionDraft → Bool
unfolding one_of is_null is_dict allowed_operator
valid_criterion c =
    allowed_operator c.operator
    && ((one_of ("REQUIRED" ∷ "OPTIONAL" ∷ []) c.applicability
          && not (is_null c.operator)
          && is_dict c.operand)
        || (one_of ("UNKNOWN" ∷ "NOT_APPLICABLE" ∷ []) c.applicability
            && is_null c.operator
            && is_null c.operand))
