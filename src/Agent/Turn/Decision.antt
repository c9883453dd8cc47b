-- ===== src/Agent/Turn/Decision.antt =====
-- What the interception of a tool's result may change.
use placement_assistant.Prelude.{
  String, ◌≡◌, refl, ◌∙◌, Bool, true, false, Option, none, some, Result, ok, err, Action, Respects,
  IsPreorder, Respects-pure, Respects-raise, Respects-if, Respects-bind, str_eq, runtime_error,
  arith, Bool-cases, inl, inr, continue, ap,
}
use placement_assistant.Value.{Value, str, list, dict, Fields, Items, nil, cons, get}
use placement_assistant.Agent.Authority.{EligibilityDecisionResponse, is_result}
use placement_assistant.Agent.Turn.{
  World, Turn, is_evaluation, evidence_of, collect_one, collect, collect_evidence, is_abstained,
  take_over, accept_decision, intercept_dict, intercept,
}

-- The budget, the database and the conversation are as they were.
pub record SameBudget (t u : Turn) : Type 0 where
  pub budget : u.budget ≡ t.budget
  pub db : u.db ≡ t.db

pub SameBudget-preorder : IsPreorder SameBudget
SameBudget-preorder = record {
  reflexive = λ s. record { budget = refl; db = refl };
  transitive = λ s t u a b. record { budget = b.budget ∙ a.budget; db = b.db ∙ a.db };
}

-- The same, and the decision too.
pub record SameDecision (t u : Turn) : Type 0 where
  pub budget : u.budget ≡ t.budget
  pub db : u.db ≡ t.db
  pub decision : u.decision ≡ t.decision

pub SameDecision-preorder : IsPreorder SameDecision
SameDecision-preorder = record {
  reflexive = λ s. record { budget = refl; db = refl; decision = refl };
  transitive = λ s t u a b. record {
    budget = b.budget ∙ a.budget;
    db = b.db ∙ a.db;
    decision = b.decision ∙ a.decision;
  };
}

evidence_of-SameDecision :
    (version default text : String) (d : Fields)
    → Respects SameDecision (evidence_of version default text d)
unfolding evidence_of
evidence_of-SameDecision version default text d = record {
  at = λ t. record { budget = ground arith; db = ground arith; decision = ground arith };
}

collect_one-SameDecision :
    (abstained : Bool) (v : Value) → Respects SameDecision (collect_one abstained v)
unfolding collect_one
collect_one-SameDecision abstained (dict ev) =
    Respects-if SameDecision-preorder abstained _ _ (Respects-pure SameDecision-preorder tt)
      (evidence_of-SameDecision "policy_version_id" "" "text" ev)
collect_one-SameDecision abstained _ = Respects-pure SameDecision-preorder tt

collect-SameDecision :
    (abstained : Bool) (vs : Items) → Respects SameDecision (collect abstained vs)
unfolding collect
collect-SameDecision abstained nil = Respects-pure SameDecision-preorder tt
collect-SameDecision abstained (cons v vs) =
    Respects-bind SameDecision-preorder (collect_one abstained v) (λ _. collect abstained vs)
      (collect_one-SameDecision abstained v) (λ _. collect-SameDecision abstained vs)

collect_evidence-SameDecision :
    (abstained : Bool) (o : Option Value) → Respects SameDecision (collect_evidence abstained o)
unfolding collect_evidence
collect_evidence-SameDecision abstained none = Respects-pure SameDecision-preorder tt
collect_evidence-SameDecision abstained (some (list vs)) = collect-SameDecision abstained vs
collect_evidence-SameDecision abstained (some (str s)) = Respects-pure SameDecision-preorder tt
collect_evidence-SameDecision abstained (some (dict d)) = Respects-pure SameDecision-preorder tt
collect_evidence-SameDecision abstained (some _) =
    Respects-raise SameDecision-preorder runtime_error

weaken : {A : Type 0} {m : Action Turn A} → Respects SameDecision m → Respects SameBudget m
weaken h = record { at = λ t. let s = h.at t in record { budget = s.budget; db = s.db } }

take_over-source :
    (r : Result EligibilityDecisionResponse) (t : Turn) (d : EligibilityDecisionResponse)
    → t.decision ≡ none
    → (continue r take_over t).1.decision ≡ some d
    → (r ≡ ok d) × (is_result d.result ≡ true)
unfolding take_over
take_over-source (err e) t d empty h = cc
take_over-source (ok c) t d empty h = elim (Bool-cases (is_result c.result)) [
  | inl known ↦ let e : c ≡ d = cc (rw known at h) in (ap ok e, rw (← e) known)
  | inr bad ↦ cc (rw bad at h)
]

module _ (w : World) where
  accept_decision-SameBudget : (v : Value) → Respects SameBudget (accept_decision w v)
  unfolding accept_decision
  accept_decision-SameBudget v = record {
    at = λ t. record { budget = ground arith; db = ground arith };
  }

  other_tools-SameDecision :
      (name : String) (d : Fields)
      → is_evaluation name ≡ false
      → Respects SameDecision (intercept_dict w name d)
  unfolding intercept_dict
  other_tools-SameDecision name d h = rw h (
      Respects-if SameDecision-preorder (str_eq name "get_policy_evidence") _ _
        (evidence_of-SameDecision "policy_version" "1.0" "content" d)
        (Respects-if SameDecision-preorder (str_eq name "search_policy") _ _
          (collect_evidence-SameDecision (is_abstained (get d "abstained")) (get d "evidence"))
          (Respects-pure SameDecision-preorder tt)))

  -- Of any other tool's result nothing reaches the decision.
  pub intercept-SameDecision :
      (name : String) (v : Value)
      → is_evaluation name ≡ false
      → Respects SameDecision (intercept w name v)
  unfolding intercept
  intercept-SameDecision name (dict d) h = other_tools-SameDecision name d h
  intercept-SameDecision name _ h = Respects-pure SameDecision-preorder tt

  evaluation-SameBudget :
      (name : String) (v : Value)
      → is_evaluation name ≡ true
      → Respects SameBudget (intercept w name v)
  unfolding intercept intercept_dict
  evaluation-SameBudget name (dict d) h = rw h (accept_decision-SameBudget (dict d))
  evaluation-SameBudget name _ h = Respects-pure SameBudget-preorder tt

  pub intercept-SameBudget : (name : String) (v : Value) → Respects SameBudget (intercept w name v)
  intercept-SameBudget name v = elim (Bool-cases (is_evaluation name)) [
    | inl evaluation ↦ evaluation-SameBudget name v evaluation
    | inr other ↦ weaken (intercept-SameDecision name v other)
  ]

  -- What an evaluation's result brings in is a validated decision with one of the three results.
  pub intercept-source :
      (name : String) (v : Value) (t : Turn) (d : EligibilityDecisionResponse)
      → is_evaluation name ≡ true
      → t.decision ≡ none
      → (intercept w name v t).1.decision ≡ some d
      → (w.model_validate v ≡ ok d) × (is_result d.result ≡ true)
  unfolding intercept intercept_dict accept_decision
  intercept-source name (dict f) t d evaluation empty h =
      take_over-source (w.model_validate (dict f)) t d empty (rw evaluation at h)
  intercept-source name _ t d evaluation empty h = cc
