-- ===== src/Agent/Orchestrator/Sources.antt =====
-- Where the decision in a response comes from.
use placement_assistant.Prelude.{
  String, ◌≡◌, refl, ◌∙◌, sym, true, false, Option, none, some, Result, ok, err, Action, ◌>>=◌,
  pure, continue, Respects, IsPreorder, Respects-pure, Respects-bind, arith, eq_iff, Bool-cases,
  inl, inr,
}
use placement_assistant.Value.{Value}
use placement_assistant.Database.{Db, ToolCall}
use placement_assistant.Agent.Authority.{EligibilityDecisionResponse, is_result}
use placement_assistant.Agent.Budget.{record_tool_call}
use placement_assistant.Agent.Turn.{World, Turn, Tool, on_db, is_evaluation, intercept}
use placement_assistant.Agent.Turn.Decision.{
  intercept-SameBudget, intercept-SameDecision, intercept-source,
}
use placement_assistant.Agent.Orchestrator.{forget, run_tool, budgeted, parsed, registered, outcome}
use placement_assistant.Agent.Orchestrator.Limits.{state-caught}

-- The registered evaluation tool returned this decision on the database at some time, it was
-- validated, and its result is one of the engine's three.
pub record IsSourced (w : World) (d : EligibilityDecisionResponse) : Type 0 where
  pub run : Tool
  pub args : Value
  pub before : Db
  pub value : Value
  pub registered : w.registry "evaluate_eligibility" ≡ some run
  pub returned : (run args before).0 ≡ ok value
  pub validated : w.model_validate value ≡ ok d
  pub known : is_result d.result ≡ true

-- `Good` holds of the database now, and of the database on which the decision's evaluation ran.
abbrev pub Sourced : World → (Db → Type 0) → Turn → Type 0
Sourced w Good t =
    Good t.db
    × ((d : EligibilityDecisionResponse)
        → t.decision ≡ some d
        → (s : IsSourced w d) × Good s.before)

pub record KeepsSource (w : World) (Good : Db → Type 0) (t u : Turn) : Type 0 where
  pub apply : Sourced w Good t → Sourced w Good u

pub record KeepsGood (Good : Db → Type 0) (t u : Turn) : Type 0 where
  pub apply : Good t.db → Good u.db

KeepsGood-preorder : (Good : Db → Type 0) → IsPreorder (KeepsGood Good)
KeepsGood-preorder Good = record {
  reflexive = λ s. record { apply = λ h. h };
  transitive = λ s t u a b. record { apply = λ h. b.apply (a.apply h) };
}

state-continue-pure :
    {A B : Type 0} (r : Result A) (b : B) (t : Turn) → (continue r (λ _. pure b) t).1 ≡ t
state-continue-pure (ok a) b t = refl
state-continue-pure (err e) b t = refl

-- The name of the evaluation tool.
evaluation_name : (name : String) → is_evaluation name ≡ true → name ≡ "evaluate_eligibility"
evaluation_name name h = (eq_iff name "evaluate_eligibility").0 h

-- `Good` holds after each call of a registered tool.
abbrev pub CallsKeep : World → (Db → Type 0) → Type 0
CallsKeep w Good =
    (name : String) (run : Tool) (args : Value) (s : Db)
    → w.registry name ≡ some run
    → Good s
    → Good (run args s).1

module _ (w : World) (Good : Db → Type 0) where
  pub KeepsSource-preorder : IsPreorder (KeepsSource w Good)
  KeepsSource-preorder = record {
    reflexive = λ s. record { apply = λ h. h };
    transitive = λ s t u a b. record { apply = λ h. b.apply (a.apply h) };
  }

  pub same_decision :
      (t u : Turn) → (Good t.db → Good u.db) → u.decision ≡ t.decision → KeepsSource w Good t u
  same_decision t u good e = record { apply = λ h. (good h.0, λ d k. h.1 d (sym e ∙ k)) }

  pub on_db-KeepsSource :
      {A : Type 0} (m : Action Db A)
      → ((s : Db) → Good s → Good (m s).1)
      → Respects (KeepsSource w Good) (on_db m)
  on_db-KeepsSource m good = record { at = λ t. same_decision t _ (good t.db) refl }

  db-forget : (name : String) (t : Turn) → (forget name t).1.db ≡ t.db
  unfolding forget
  db-forget name t = ground arith

  pub forget-KeepsSource : (name : String) → Respects (KeepsSource w Good) (forget name)
  unfolding forget
  forget-KeepsSource name = elim (Bool-cases (is_evaluation name)) [
    | inl evaluation ↦ record { at = λ t. record { apply = λ h. rw evaluation (h.0, λ d k. cc) } }
    | inr other ↦ record { at = λ t. record { apply = λ h. rw other h } }
  ]

  after_tool :
      (run : Tool) (name : String) (args : Value) (before : Db) (r : Result Value) (t : Turn)
      (d : EligibilityDecisionResponse)
      → is_evaluation name ≡ true
      → w.registry name ≡ some run
      → (run args before).0 ≡ r
      → t.decision ≡ none
      → (continue r (λ v. intercept w name v >>= λ _. pure (w.dumps v)) t).1.decision ≡ some d
      → Good before
      → (s : IsSourced w d) × Good s.before
  after_tool run name args before (err e) t d evaluation found returned empty h good = cc
  after_tool run name args before (ok v) t d evaluation found returned empty h good =
      let (valid, known) = intercept-source w name v t d evaluation empty (
        rw (state-continue-pure (intercept w name v t).0 (w.dumps v) (intercept w name v t).1) at
          h) in
      (
        record {
          run = run;
          args = args;
          before = before;
          value = v;
          registered = rw (evaluation_name name evaluation) at found;
          returned = returned;
          validated = valid;
          known = known;
        },
        good,
      )

  -- Where a tool's run leaves a decision, the evaluation tool of this very run returned it.
  run_tool-source :
      (run : Tool) (name : String) (args : Value) (t : Turn) (d : EligibilityDecisionResponse)
      → is_evaluation name ≡ true
      → w.registry name ≡ some run
      → (run_tool w run name args t).1.decision ≡ some d
      → Good t.db
      → (s : IsSourced w d) × Good s.before
  unfolding run_tool forget
  run_tool-source run name args t d evaluation found h good =
      after_tool run name args t.db (run args t.db).0 _ d evaluation found refl refl
        (rw evaluation at h) good

  module _ (calls : CallsKeep w Good) where
    run_tool-KeepsGood :
        (run : Tool) (name : String) (args : Value)
        → w.registry name ≡ some run
        → Respects (KeepsGood Good) (run_tool w run name args)
    unfolding run_tool
    run_tool-KeepsGood run name args found =
        Respects-bind (KeepsGood-preorder Good) (forget name) _
          (record { at = λ t. record { apply = λ h. rw (db-forget name t) h } })
          λ _.
            Respects-bind (KeepsGood-preorder Good) (on_db (run args)) _
              (record { at = λ t. record { apply = λ h. calls name run args t.db found h } })
              λ v.
                Respects-bind (KeepsGood-preorder Good) (intercept w name v) _
                  (record {
                    at =
                        λ t. record { apply = λ h. rw ((intercept-SameBudget w name v).at t).db h };
                  })
                  λ _. Respects-pure (KeepsGood-preorder Good) (w.dumps v)

    other_tool :
        (run : Tool) (name : String) (args : Value)
        → is_evaluation name ≡ false
        → w.registry name ≡ some run
        → Respects (KeepsSource w Good) (run_tool w run name args)
    unfolding run_tool
    other_tool run name args other found =
        Respects-bind KeepsSource-preorder (forget name) _ (forget-KeepsSource name) λ _.
          Respects-bind KeepsSource-preorder (on_db (run args)) _
            (on_db-KeepsSource (run args) (λ s. calls name run args s found))
            λ v.
              Respects-bind KeepsSource-preorder (intercept w name v) _
                (record {
                  at = λ t.
                      let same = (intercept-SameDecision w name v other).at t in
                      same_decision t _ (λ h. rw same.db h) same.decision;
                })
                λ _. Respects-pure KeepsSource-preorder (w.dumps v)

    run_tool-KeepsSource :
        (run : Tool) (name : String) (args : Value)
        → w.registry name ≡ some run
        → Respects (KeepsSource w Good) (run_tool w run name args)
    run_tool-KeepsSource run name args found = elim (Bool-cases (is_evaluation name)) [
      | inl evaluation ↦ record {
        at = λ t. record {
          apply = λ h. (
            ((run_tool-KeepsGood run name args found).at t).apply h.0,
            λ d k. run_tool-source run name args t d evaluation found k h.0,
          );
        };
      }
      | inr other ↦ other_tool run name args other found
    ]

    budgeted-KeepsSource :
        (run : Tool) (name : String) (args : Value) (r : Result (Unit {0})) (t : Turn)
        → w.registry name ≡ some run
        → KeepsSource w Good t (budgeted w run name args (r, t)).1
    unfolding budgeted
    budgeted-KeepsSource run name args (ok _) t found =
        rw (state-caught w (run_tool w run name args t).0 (run_tool w run name args t).1)
          ((run_tool-KeepsSource run name args found).at t)
    budgeted-KeepsSource run name args (err e) t found = KeepsSource-preorder.reflexive t

    parsed-KeepsSource :
        (run : Tool) (name : String) (o : Option Value)
        → w.registry name ≡ some run
        → Respects (KeepsSource w Good) (parsed w run name o)
    unfolding parsed
    parsed-KeepsSource run name none found = record { at = λ t. KeepsSource-preorder.reflexive t }
    parsed-KeepsSource run name (some args) found = record {
      at = λ t. KeepsSource-preorder.transitive t _ _ (same_decision t _ (λ h. h) refl) (
          budgeted-KeepsSource run name args (record_tool_call (name, w.normalize args) t.budget).0
            (record t { budget = (record_tool_call (name, w.normalize args) t.budget).1 }) found);
    }

    registered-KeepsSource :
        (o : Option Tool) (tc : ToolCall)
        → w.registry tc.name ≡ o
        → Respects (KeepsSource w Good) (registered w o tc)
    unfolding registered
    registered-KeepsSource none tc found = Respects-pure KeepsSource-preorder _
    registered-KeepsSource (some run) tc found =
        parsed-KeepsSource run tc.name (w.loads tc.arguments) found

    pub outcome-KeepsSource : (tc : ToolCall) → Respects (KeepsSource w Good) (outcome w tc)
    outcome-KeepsSource tc = unfold outcome in registered-KeepsSource (w.registry tc.name) tc refl
