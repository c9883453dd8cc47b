-- ===== src/Agent/Orchestrator.antt =====
-- The agent's loop: apps/api/app/agent/orchestrator.py.
mod Frame
pub mod Limits
pub mod Sources
pub mod Response
mod Tests
mod EndToEnd
use Prim.Native.String.{◌++◌ as str_append}
use placement_assistant.Prelude.{
  ℕ, zero, suc, String, Bool, true, false, not, ◌&&◌, Option, none, some, List, [], ◌∷◌, ◌++◌,
  Error, Result, ok, err, permission, validation_error, runtime_error, Action, ◌>>=◌, ◌>>◌, pure,
  raise, gets, lift, modify, str_eq, if◌then◌else◌,
}
use placement_assistant.Value.{Value}
use placement_assistant.Database.{
  Db, Principal, ToolCall, MessageRole, system, user, assistant, tool,
}
use placement_assistant.Agent.Memory.{ChatMessage, Draft, add_message, get_messages}
use placement_assistant.Agent.Budget.{
  Environment, Signature, ExecutionBudget, new_budget, increment_step, record_tool_call,
}
use placement_assistant.Agent.Authority.{
  EligibilityDecisionResponse, M8AgentResponse, authority_message,
}
use placement_assistant.Agent.Turn.{
  World, Turn, Tool, Reply, unavailable, answered, on_db, on_budget, set_decision, say,
  is_evaluation, intercept,
}

-- How a run ended, with the database that it left and the tool calls that its budget recorded.
pub record Ended : Type 0 where
  pub result : Result M8AgentResponse
  pub db : Db
  pub recorded : List Signature

-- A message that is a text.
abbrev text_draft : MessageRole → String → Draft
text_draft role text = record {
  role = role;
  content = some text;
  tool_name = none;
  tool_call_id = none;
  tool_calls = none;
}

abbrev text_message : MessageRole → String → ChatMessage
text_message role text = record {
  role = role;
  content = some text;
  name = none;
  tool_call_id = none;
  tool_calls = none;
}

-- An evaluation that begins discards the decision of an earlier one.
pub forget : String → Action Turn Unit
forget name = if is_evaluation name then set_decision none else pure tt

module _ (w : World) where
  run_tool : Tool → String → Value → Action Turn String
  run_tool run name args = do
    forget name
    result ← on_db (run args)
    intercept w name result
    pure (w.dumps result)

  error_text : Error → String
  error_text validation_error = str_append "Error: Validation failed. " (w.explain validation_error)
  error_text permission = str_append "Error: Authorization denied. " (w.explain permission)
  error_text e = "Error: Internal tool execution failed."

  -- The `except` clauses round a tool's execution.
  pub caught : Result String × Turn → Result String × Turn
  caught (ok text, t) = (ok text, t)
  caught (err e, t) = (ok (error_text e), t)

  -- The budget's two exceptions become the tool's answer.
  budgeted : Tool → String → Value → Result (Unit {0}) × Turn → Result String × Turn
  budgeted run name args (ok _, t) = caught (run_tool run name args t)
  budgeted run name args (err e, t) = (
    ok (
        str_append (str_append "System Error: " (w.explain e))
          " Please formulate a final response."),
    t,
  )

  parsed : Tool → String → Option Value → Action Turn String
  parsed run name none t = (ok "Error: Invalid JSON arguments.", t)
  parsed run name (some args) t =
      budgeted run name args (on_budget (record_tool_call (name, w.normalize args)) t)

  registered : Option Tool → ToolCall → Action Turn String
  registered none tc = pure (str_append (str_append "Error: Tool '" tc.name) "' not found.")
  registered (some run) tc = parsed run tc.name (w.loads tc.arguments)

  -- The text that answers a tool call.
  pub outcome : ToolCall → Action Turn String
  unfolding registered parsed budgeted
  outcome tc = registered (w.registry tc.name) tc

  module _ (p : Principal) (conversation_id : ℕ) where
    remember : Draft → Action Turn Unit
    remember draft = do on_db (add_message p conversation_id w.now draft); pure tt

    answer : ToolCall → String → Action Turn Unit
    answer tc text = do
      remember (record {
        role = tool;
        content = some text;
        tool_name = some tc.name;
        tool_call_id = some tc.id;
        tool_calls = none;
      })
      say (record {
        role = tool;
        content = some text;
        name = some tc.name;
        tool_call_id = some tc.id;
        tool_calls = none;
      })

    -- The body of the loop over a message's tool calls.
    pub handle_call : ToolCall → Action Turn Unit
    handle_call tc = do forget tc.name; text ← outcome tc; answer tc text

    handle_calls : List ToolCall → Action Turn Unit
    handle_calls [] = pure tt
    handle_calls (tc ∷ tcs) = do handle_call tc; handle_calls tcs

    response : Option EligibilityDecisionResponse → M8AgentResponse
    response none = record {
      message = authority_message none;
      decision = "UNKNOWN";
      decision_source = none;
      evidence = [];
      authoritative_decision = none;
    }
    response (some d) = record {
      message = authority_message (some d);
      decision = d.result;
      decision_source = some "M5_ENGINE";
      evidence = [];
      authoritative_decision = some d;
    }

    conclude : Action Turn (Option M8AgentResponse)
    unfolding response
    conclude = do
      decision ← gets (λ t. t.decision)
      remember (text_draft assistant (authority_message decision))
      pure (some (response decision))

    call_tools : List ToolCall → Action Turn (Option M8AgentResponse)
    call_tools tcs = do
      remember (record {
        role = assistant;
        content = none;
        tool_name = none;
        tool_call_id = none;
        tool_calls = some tcs;
      })
      say (record {
        role = assistant;
        content = none;
        name = none;
        tool_call_id = none;
        tool_calls = some tcs;
      })
      handle_calls tcs
      pure none

    pub react : Reply → Action Turn (Option M8AgentResponse)
    react unavailable = raise runtime_error
    react (answered []) = conclude
    react (answered (tc ∷ tcs)) = call_tools (tc ∷ tcs)

    -- One round of `while True`; `none` goes round again.
    round : Action Turn (Option M8AgentResponse)
    unfolding react
    round = do
      on_budget increment_step
      reply ← gets (λ t. w.client t.budget.current_steps t.messages)
      react reply

    ended : Result M8AgentResponse → Turn → Ended
    ended r t = record { result = r; db = t.db; recorded = t.budget.call_history }

    after : Result (Option M8AgentResponse) → Turn → Option Ended → Option Ended
    after (err e) t rest = some (ended (err e) t)
    after (ok (some r)) t rest = some (ended (ok r) t)
    after (ok none) t rest = rest

    -- `none` means that the fuel ran out.
    loop : ℕ → Turn → Option Ended
    loop zero t = none
    loop (suc fuel) t = let rest = loop fuel (round t).1 in after (round t).0 (round t).1 rest

    system_message : List ChatMessage → Action Db (List ChatMessage)
    system_message (m ∷ ms) = pure (m ∷ ms)
    system_message [] = do
      add_message p conversation_id w.now (text_draft system w.system_prompt)
      pure (text_message system w.system_prompt ∷ [])

    -- The messages that the loop begins with.
    opening : String → Action Db (List ChatMessage)
    unfolding system_message
    opening query = do
      history ← get_messages p conversation_id w.now
      messages ← system_message history
      add_message p conversation_id w.now (text_draft user query)
      pure (messages ++ text_message user query ∷ [])

    -- What `execute` does before its loop.
    pub begin : String → Action Db (ExecutionBudget × List ChatMessage)
    begin query = do
      budget ← lift (new_budget w.environment none none)
      messages ← opening query
      pure (budget, messages)

    start : ExecutionBudget × List ChatMessage → Db → Turn
    start (budget, messages) db = record {
      db = db;
      budget = budget;
      messages = messages;
      decision = none;
      evidence = [];
    }

    run_from : ℕ → Result (ExecutionBudget × List ChatMessage) → Db → Option Ended
    run_from fuel (err e) db = some (record { result = err e; db = db; recorded = [] })
    run_from fuel (ok b) db = loop fuel (start b db)

    pub execute : ℕ → String → Db → Option Ended
    execute fuel query db = run_from fuel (begin query db).0 (begin query db).1
