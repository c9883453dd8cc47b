-- ===== src/Agent/Orchestrator/Response.antt =====
-- What a run of the agent returns.
use placement_assistant.Prelude.{
  ℕ, zero, suc, String, ◌≡◌, ◌≢◌, refl, Option, none, some, List, [], ◌∷◌, Result, ok, err, pure,
  gets, continue, continue-eq-ok, Respects, Respects-gets, Respects-bind, arith,
}
use placement_assistant.Database.{Db, Principal}
use placement_assistant.Agent.Memory.{ChatMessage, Draft, add_message}
use placement_assistant.Agent.Authority.{
  EligibilityDecisionResponse, M8AgentResponse, authority_message,
}
use placement_assistant.Agent.Budget.{ExecutionBudget, increment_step}
use placement_assistant.Agent.Turn.{World, Turn, Reply, unavailable, answered, on_budget}
use placement_assistant.Agent.Orchestrator.Frame.{react-Respects}
use placement_assistant.Agent.Orchestrator.{
  remember, handle_calls, conclude, call_tools, react, round, loop, after, ended, Ended, start,
  run_from, execute, response, begin,
}
use placement_assistant.Agent.Orchestrator.Sources.{
  IsSourced, Sourced, CallsKeep, KeepsSource, KeepsSource-preorder, same_decision,
  on_db-KeepsSource, forget-KeepsSource, outcome-KeepsSource,
}

abbrev pub result_of : Option Ended → Option (Result M8AgentResponse)
result_of none = none
result_of (some e) = some e.result

-- What a response says, and where its decision comes from: there is no evidence in it; its message
-- is the fixed text for its decision; and a decision that it carries is a validated result of the
-- evaluation tool, under the name of the engine, while without one it says UNKNOWN.
pub record IsAuthoritative (w : World) (r : M8AgentResponse) : Type 0 where
  pub no_evidence : r.evidence ≡ []
  pub message : r.message ≡ authority_message r.authoritative_decision
  pub decided :
      (d : EligibilityDecisionResponse)
      → r.authoritative_decision ≡ some d
      → IsSourced w d × (r.decision ≡ d.result) × (r.decision_source ≡ some "M5_ENGINE")
  pub undecided :
      r.authoritative_decision ≡ none → (r.decision ≡ "UNKNOWN") × (r.decision_source ≡ none)

-- Such a response, whose decision's evaluation ran on a database of which `Good` holds.
abbrev pub Told : World → (Db → Type 0) → M8AgentResponse → Type 0
Told w Good r =
    IsAuthoritative w r
    × ((d : EligibilityDecisionResponse)
        → r.authoritative_decision ≡ some d
        → (s : IsSourced w d) × Good s.before)

-- `Good` holds after each message that is stored.
abbrev pub WritesKeep : World → Principal → ℕ → (Db → Type 0) → Type 0
WritesKeep w p conversation_id Good =
    (draft : Draft) (s : Db) → Good s → Good (add_message p conversation_id w.now draft s).1

module _ (w : World) (p : Principal) (conversation_id : ℕ) where
  never_some :
      (r : Result (Unit {0})) (t : Turn) (a : M8AgentResponse)
      → (continue r (λ _. pure {A = Option M8AgentResponse} none) t).0 ≢ ok (some a)
  never_some (ok _) t a h = cc
  never_some (err e) t a h = cc

  react-response :
      (reply : Reply) (t : Turn) (r : M8AgentResponse)
      → (react w p conversation_id reply t).0 ≡ ok (some r)
      → r ≡ response w p conversation_id t.decision
  unfolding react conclude call_tools
  react-response unavailable t r h = cc
  react-response (answered []) t r h =
      let (_, _, last) = continue-eq-ok (remember w p conversation_id _ t).0 _ _ (some r) h in
      cc last
  react-response (answered (tc ∷ tcs)) t r h =
      let (_, _, rest) = continue-eq-ok (remember w p conversation_id _ t).0 _ _ (some r) h in
      absurd (never_some (handle_calls w p conversation_id (tc ∷ tcs) _).0 _ r rest)

  response-Told :
      (Good : Db → Type 0) (o : Option EligibilityDecisionResponse)
      → ((d : EligibilityDecisionResponse) → o ≡ some d → (s : IsSourced w d) × Good s.before)
      → Told w Good (response w p conversation_id o)
  unfolding response
  response-Told Good none h = (
    record {
      no_evidence = refl;
      message = refl;
      decided = λ d e. cc;
      undecided = λ e. (refl, refl);
    },
    λ d e. cc,
  )
  response-Told Good (some d) h = (
    record {
      no_evidence = refl;
      message = refl;
      decided = λ c e. ((h c e).0, ground (arith, e), refl);
      undecided = λ e. cc;
    },
    h,
  )

  module _ (Good : Db → Type 0) (calls : CallsKeep w Good)
      (writes : WritesKeep w p conversation_id Good) where
    react-KeepsSource :
        (reply : Reply) → Respects (KeepsSource w Good) (react w p conversation_id reply)
    react-KeepsSource =
        react-Respects w p conversation_id (KeepsSource-preorder w Good)
          (λ draft. on_db-KeepsSource w Good _ (writes draft))
          (λ m. record { at = λ t. same_decision w Good t _ (λ h. h) refl })
          (forget-KeepsSource w Good) (outcome-KeepsSource w Good calls)

    round-KeepsSource : Respects (KeepsSource w Good) (round w p conversation_id)
    unfolding round
    round-KeepsSource =
        Respects-bind (KeepsSource-preorder w Good) (on_budget increment_step) _
          (record { at = λ t. same_decision w Good t _ (λ h. h) refl })
          λ _.
            Respects-bind (KeepsSource-preorder w Good)
              (gets (λ t. w.client t.budget.current_steps t.messages)) _
              (Respects-gets (KeepsSource-preorder w Good) _) react-KeepsSource

    round-response :
        (t : Turn) (r : M8AgentResponse)
        → Sourced w Good t
        → (round w p conversation_id t).0 ≡ ok (some r)
        → Told w Good r
    unfolding round
    round-response t r h returned =
        let (_, _, rest) =
          continue-eq-ok (increment_step t.budget).0 _
            (record t { budget = (increment_step t.budget).1 }) (some r) returned in
        rw (react-response _ _ r rest) (response-Told Good t.decision h.1)

    -- How the last round ended the run.
    last_round :
        (o : Result (Option M8AgentResponse)) (t : Turn) (rest : Option Ended) (e : Ended)
        (r : M8AgentResponse)
        → (o ≡ ok (some r) → Told w Good r)
        → (rest ≡ some e → Told w Good r)
        → after w p conversation_id o t rest ≡ some e
        → e.result ≡ ok r
        → Told w Good r
    unfolding after ended
    last_round (err x) t rest e r now later ends returned = cc
    last_round (ok (some s)) t rest e r now later ends returned = now (ground arith)
    last_round (ok none) t rest e r now later ends returned = later ends

    loop-Told :
        (fuel : ℕ) (t : Turn) (e : Ended) (r : M8AgentResponse)
        → Sourced w Good t
        → loop w p conversation_id fuel t ≡ some e
        → e.result ≡ ok r
        → Told w Good r
    unfolding loop
    loop-Told zero t e r h ended returned = cc
    loop-Told (suc fuel) t e r h ended returned =
        last_round (round w p conversation_id t).0 (round w p conversation_id t).1 _ e r
          (round-response t r h)
          (λ more.
            loop-Told fuel (round w p conversation_id t).1 e r ((round-KeepsSource.at t).apply h)
              more returned)
          ended returned

    run_from-Told :
        (fuel : ℕ) (b : Result (ExecutionBudget × List ChatMessage)) (db : Db) (e : Ended)
        (r : M8AgentResponse)
        → Good db
        → run_from w p conversation_id fuel b db ≡ some e
        → e.result ≡ ok r
        → Told w Good r
    unfolding run_from start
    run_from-Told fuel (err x) db e r good ends returned = cc
    run_from-Told fuel (ok b) db e r good ends returned =
        loop-Told fuel (start w p conversation_id b db) e r (good, λ d h. cc) ends returned

    result_of-Told :
        (fuel : ℕ) (query : String) (db : Db) (o : Option Ended) (r : M8AgentResponse)
        → Good (begin w p conversation_id query db).1
        → execute w p conversation_id fuel query db ≡ o
        → result_of o ≡ some (ok r)
        → Told w Good r
    unfolding execute
    result_of-Told fuel query db none r good ends returned = cc
    result_of-Told fuel query db (some e) r good ends returned =
        run_from-Told fuel _ _ e r good ends (ground arith)

    pub execute-Told :
        (fuel : ℕ) (query : String) (db : Db) (r : M8AgentResponse)
        → Good (begin w p conversation_id query db).1
        → result_of (execute w p conversation_id fuel query db) ≡ some (ok r)
        → Told w Good r
    execute-Told fuel query db r good returned = result_of-Told fuel query db _ r good refl returned

  -- Whatever the model answers and the tools return, the response that a run ends with carries no
  -- evidence and the fixed message for its decision; a decision in it is a result of the evaluation
  -- tool that was validated and has one of the three values, reported under the engine's name, and
  -- without one the response says UNKNOWN and names no source.
  pub execute-IsAuthoritative :
      (fuel : ℕ) (query : String) (db : Db) (r : M8AgentResponse)
      → result_of (execute w p conversation_id fuel query db) ≡ some (ok r)
      → IsAuthoritative w r
  execute-IsAuthoritative fuel query db r returned =
      (execute-Told (λ _. Unit) (λ name run args s found h. tt) (λ draft s h. tt) fuel query db r tt
        returned).0
