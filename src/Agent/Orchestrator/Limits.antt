-- ===== src/Agent/Orchestrator/Limits.antt =====
-- The loop ends, and within the budget.
use placement_assistant.Prelude.{
  ℕ, zero, suc, ◌+◌, ◌≤◌, ◌≡◌, refl, ℤ, pos, negsuc, String, false, Option, none, some, List,
  length, arith, Result, ok, err, Action, pure, continue-eq-ok, exceeds, Respects, IsPreorder,
  Respects-pure, Respects-bind, ◌∙◌, Bool-cases, inl, inr, ap, sym, subst, budget_exhausted, ◌⊎◌,
}
use placement_assistant.Value.{Value}
use placement_assistant.Database.{Db, Principal, ToolCall}
use placement_assistant.Agent.Memory.{ChatMessage}
use placement_assistant.Agent.Budget.{
  ExecutionBudget, Signature, record_tool_call, increment_step, new_budget,
}
use placement_assistant.Agent.Budget.Bounds.{
  IsBounded, Within, NoRepeat, record_tool_call-IsBounded, record_tool_call-steps,
  record_tool_call-limit, increment-IsBounded, new_budget-IsBounded,
}
use placement_assistant.Agent.Authority.{M8AgentResponse}
use placement_assistant.Agent.Turn.{World, Turn, Tool, Reply, on_db, intercept}
use placement_assistant.Agent.Turn.Decision.{intercept-SameBudget}
use placement_assistant.Agent.Orchestrator.Frame.{react-Respects}
use placement_assistant.Agent.Orchestrator.{
  forget, run_tool, caught, budgeted, parsed, registered, outcome, react, round, loop, after, ended,
  Ended, begin, opening, start, run_from, execute,
}

-- What a round may do to its budget between two steps.
pub record Spends (t u : Turn) : Type 0 where
  pub steps : u.budget.current_steps ≡ t.budget.current_steps
  pub limit : u.budget.max_steps ≡ t.budget.max_steps
  pub bounded : IsBounded t.budget → IsBounded u.budget

Spends-preorder : IsPreorder Spends
Spends-preorder = record {
  reflexive = λ s. record { steps = refl; limit = refl; bounded = λ h. h };
  transitive = λ s t u a b. record {
    steps = b.steps ∙ a.steps;
    limit = b.limit ∙ a.limit;
    bounded = λ h. b.bounded (a.bounded h);
  };
}

-- A step that leaves the budget alone.
keeps_budget : (t u : Turn) → u.budget ≡ t.budget → Spends t u
keeps_budget t u e = record {
  steps = ap (λ (b : ExecutionBudget). b.current_steps) e;
  limit = ap (λ (b : ExecutionBudget). b.max_steps) e;
  bounded = subst IsBounded (sym e);
}

record_tool_call-Spends :
    (s : Signature) (t : Turn) → Spends t (record t { budget = (record_tool_call s t.budget).1 })
record_tool_call-Spends s t = record {
  steps = record_tool_call-steps s t.budget;
  limit = record_tool_call-limit s t.budget;
  bounded = record_tool_call-IsBounded s t.budget;
}

forget-Spends : (name : String) → Respects Spends (forget name)
unfolding forget
forget-Spends name = record { at = λ t. keeps_budget t _ (ground arith) }

on_db-Spends : {A : Type 0} (m : Action Db A) → Respects Spends (on_db m)
on_db-Spends m = record { at = λ t. keeps_budget t _ refl }

module _ (w : World) where
  intercept-Spends : (name : String) (v : Value) → Respects Spends (intercept w name v)
  intercept-Spends name v = record {
    at = λ t. keeps_budget t _ ((intercept-SameBudget w name v).at t).budget;
  }

  run_tool-Spends :
      (run : Tool) (name : String) (args : Value) → Respects Spends (run_tool w run name args)
  unfolding run_tool
  run_tool-Spends run name args =
      Respects-bind Spends-preorder (forget name) _ (forget-Spends name) λ _.
        Respects-bind Spends-preorder (on_db (run args)) _ (on_db-Spends (run args)) λ v.
          Respects-bind Spends-preorder (intercept w name v) _ (intercept-Spends name v)
            λ _. Respects-pure Spends-preorder (w.dumps v)

  pub state-caught : (r : Result String) (t : Turn) → (caught w (r, t)).1 ≡ t
  unfolding caught
  state-caught (ok text) t = refl
  state-caught (err e) t = refl

  budgeted-Spends :
      (run : Tool) (name : String) (args : Value) (r : Result (Unit {0})) (t : Turn)
      → Spends t (budgeted w run name args (r, t)).1
  unfolding budgeted
  budgeted-Spends run name args (ok _) t =
      rw (state-caught (run_tool w run name args t).0 (run_tool w run name args t).1)
        ((run_tool-Spends run name args).at t)
  budgeted-Spends run name args (err e) t = Spends-preorder.reflexive t

  parsed-Spends :
      (run : Tool) (name : String) (o : Option Value) → Respects Spends (parsed w run name o)
  unfolding parsed
  parsed-Spends run name none = record { at = λ t. Spends-preorder.reflexive t }
  parsed-Spends run name (some args) = record {
    at = λ t.
        Spends-preorder.transitive t _ _ (record_tool_call-Spends (name, w.normalize args) t)
          (budgeted-Spends run name args (record_tool_call (name, w.normalize args) t.budget).0 _);
  }

  registered-Spends : (o : Option Tool) (tc : ToolCall) → Respects Spends (registered w o tc)
  unfolding registered
  registered-Spends none tc = Respects-pure Spends-preorder _
  registered-Spends (some run) tc = parsed-Spends run tc.name (w.loads tc.arguments)

  outcome-Spends : (tc : ToolCall) → Respects Spends (outcome w tc)
  outcome-Spends tc = unfold outcome in registered-Spends (w.registry tc.name) tc

  react-Spends :
      (p : Principal) (conversation_id : ℕ) (reply : Reply)
      → Respects Spends (react w p conversation_id reply)
  react-Spends p conversation_id =
      react-Respects w p conversation_id Spends-preorder (λ draft. on_db-Spends _)
        (λ m. record { at = λ t. keeps_budget t _ refl }) forget-Spends outcome-Spends

Within-limit : (n : ℕ) (m : ℤ) → exceeds n m ≡ false → Within 20 m → n ≤ 20
Within-limit n (pos m) e h = ground arith
Within-limit n (negsuc m) e h = cc

-- A run that ended, having recorded at most ten calls and none twice in a row.
abbrev pub EndsWithin : Option Ended → Type 0
EndsWithin o = (e : Ended) × (o ≡ some e) × (length e.recorded ≤ 10) × NoRepeat e.recorded

-- One more step, taken within the limit.
abbrev Advances : Turn → Turn → Type 0
Advances t u =
    (u.budget.current_steps ≡ t.budget.current_steps + 1) × (t.budget.current_steps + 1 ≤ 20)

module _ (w : World) (p : Principal) (conversation_id : ℕ) where
  round-step :
      (t : Turn)
      → IsBounded t.budget
      → IsBounded (round w p conversation_id t).1.budget
        × (((round w p conversation_id t).0 ≡ err budget_exhausted)
            ⊎ Advances t (round w p conversation_id t).1)
  unfolding round increment_step
  round-step t h = elim (Bool-cases (exceeds (t.budget.current_steps + 1) t.budget.max_steps)) [
    | inl over ↦ rw over (increment-IsBounded t.budget h, inl refl)
    | inr room ↦ rw room (
        let t1 : Turn = record t {
          budget = record t.budget { current_steps = t.budget.current_steps + 1 };
        } in
        let reply = w.client t1.budget.current_steps t1.messages in
        let s = (react-Spends w p conversation_id reply).at t1 in
        (
          s.bounded (increment-IsBounded t.budget h),
          inr (s.steps, Within-limit _ t.budget.max_steps room h.steps_within),
        ))
  ]

  after-EndsWithin :
      (r : Result (Option M8AgentResponse)) (t : Turn) (rest : Option Ended)
      → IsBounded t.budget
      → (r ≡ ok none → EndsWithin rest)
      → EndsWithin (after w p conversation_id r t rest)
  unfolding after ended
  after-EndsWithin (err e) t rest h more = (_, refl, h.recorded, h.no_repeat)
  after-EndsWithin (ok (some r)) t rest h more = (_, refl, h.recorded, h.no_repeat)
  after-EndsWithin (ok none) t rest h more = more refl

  loop-EndsWithin :
      (fuel : ℕ) (t : Turn)
      → IsBounded t.budget
      → t.budget.current_steps ≤ 20
      → 21 ≤ fuel + t.budget.current_steps
      → EndsWithin (loop w p conversation_id fuel t)
  unfolding loop
  loop-EndsWithin zero t h low enough = absurd (omega arith)
  loop-EndsWithin (suc fuel) t h low enough =
      let (bounded, progress) = round-step t h in
      after-EndsWithin (round w p conversation_id t).0 (round w p conversation_id t).1 _ bounded
        λ again. elim progress [
          | inl over ↦ cc (again, over)
          | inr advanced ↦
              loop-EndsWithin fuel (round w p conversation_id t).1 bounded (omega arith)
                (omega arith)
        ]

  begin-budget :
      (query : String) (db : Db) (b : ExecutionBudget × List ChatMessage)
      → (begin w p conversation_id query db).0 ≡ ok b
      → IsBounded b.0 × (b.0.current_steps ≡ 0)
  unfolding begin
  begin-budget query db b h =
      let (budget, made, rest) = continue-eq-ok (new_budget w.environment none none) _ db b h in
      let (messages, _, last) =
        continue-eq-ok (opening w p conversation_id query db).0 (λ m. pure (budget, m))
          (opening w p conversation_id query db).1 b rest in
      let same : budget ≡ b.0 = ground (arith, last) in
      rw (← same) (new_budget-IsBounded w.environment none none budget made)

  run_from-EndsWithin :
      (r : Result (ExecutionBudget × List ChatMessage)) (db : Db)
      → ((b : ExecutionBudget × List ChatMessage)
          → r ≡ ok b
          → IsBounded b.0 × (b.0.current_steps ≡ 0))
      → EndsWithin (run_from w p conversation_id 21 r db)
  unfolding run_from start
  run_from-EndsWithin (err e) db h = (_, refl, omega arith, tt)
  run_from-EndsWithin (ok b) db h =
      let (bounded, zero_steps) = h b refl in
      loop-EndsWithin 21 (start w p conversation_id b db) bounded (omega arith) (omega arith)

  -- Whatever the model answers, the tools do, the database holds and the environment says, a run
  -- with fuel for 21 rounds ends; its budget recorded at most ten tool calls, none twice in a row.
  pub execute-EndsWithin :
      (query : String) (db : Db) → EndsWithin (execute w p conversation_id 21 query db)
  unfolding execute
  execute-EndsWithin query db =
      run_from-EndsWithin (begin w p conversation_id query db).0
        (begin w p conversation_id query db).1 (begin-budget query db)
