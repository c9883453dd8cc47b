-- ===== src/Agent/Orchestrator/Tests.antt =====
-- Witnesses and a run of the agent.
use placement_assistant.Prelude.{
  ℕ, String, ◌≡◌, refl, Option, none, some, List, [], ◌∷◌, keep, find, any, last, ok, str_eq,
  if◌then◌else◌, ◌==◌,
}
use placement_assistant.Value.{dict, end}
use placement_assistant.Database.{Db, ToolCall, one_or_none, greatest, ascending}
use placement_assistant.Database.Sample.{campus, anna}
use placement_assistant.Agent.Memory.{
  ChatMessage, add_message, get_messages, get_or_create_session, session_of, owned_session,
  owned_student, owns, append_message,
}
use placement_assistant.Agent.Budget.{unset, new_budget, increment_step, record_tool_call}
use placement_assistant.Agent.Authority.{
  EligibilityDecisionResponse, M8AgentResponse, is_result, authority_message,
}
use placement_assistant.Agent.Turn.{World, Tool, Reply, answered, intercept, accept_decision}
use placement_assistant.Agent.Orchestrator.{
  Ended, execute, loop, round, react, begin, opening, run_from, start, after, ended, conclude,
  call_tools, handle_calls, handle_call, forget, outcome, run_tool, caught, answer, remember,
}
use placement_assistant.Agent.Orchestrator.Limits.{EndsWithin, execute-EndsWithin}
use placement_assistant.Agent.Orchestrator.Response.{
  IsAuthoritative, result_of, execute-IsAuthoritative,
}

abbrev evaluate : ToolCall
evaluate = record { id = "c1"; name = "evaluate_eligibility"; arguments = "{}" }

-- The model asks for one evaluation and then ends.
abbrev client : ℕ → List ChatMessage → Reply
client n messages = if n == 1 then answered (evaluate ∷ []) else answered []

abbrev verdict : EligibilityDecisionResponse
verdict = record {
  id = 1;
  student_id = 101;
  opportunity_id = 2;
  policy_version_id = 3;
  requirement_version_id = 4;
  engine_version = "v1.0";
  result = "ELIGIBLE";
  evaluation_key = "k";
}

abbrev tools : String → Option Tool
tools name =
    if str_eq name "evaluate_eligibility" then some (λ args db. (ok (dict end), db)) else none

abbrev world : World
world = record {
  client = client;
  loads = λ s. some (dict end);
  dumps = λ v. "{}";
  normalize = λ v. "{}";
  model_validate = λ v. ok verdict;
  explain = λ e. "";
  registry = tools;
  system_prompt = "You explain.";
  environment = record { agent_max_tool_calls = unset; agent_max_steps = unset };
  now = 5;
}

execute-EndsWithin_example : EndsWithin (execute world anna 7 21 "Am I eligible?" campus)
execute-EndsWithin_example = execute-EndsWithin world anna 7 "Am I eligible?" campus

-- A run with everything that it calls open.
run : ℕ → String → Db → Option Ended
unfolding execute run_from begin opening start loop round react after ended conclude call_tools
    handle_calls handle_call forget outcome run_tool caught answer remember intercept
    accept_decision new_budget increment_step record_tool_call add_message get_messages
    get_or_create_session session_of owned_session owned_student owns append_message find any keep
    last one_or_none greatest ascending is_result authority_message
run = execute world anna 7

abbrev answer_given : M8AgentResponse
answer_given = record {
  message = "You are eligible for the evaluated opportunity.";
  decision = "ELIGIBLE";
  decision_source = some "M5_ENGINE";
  evidence = [];
  authoritative_decision = some verdict;
}

run_answers : result_of (execute world anna 7 2 "Am I eligible?" campus) ≡ some (ok answer_given)
unfolding run
run_answers = refl

execute-IsAuthoritative_example : IsAuthoritative world answer_given
execute-IsAuthoritative_example =
    execute-IsAuthoritative world anna 7 2 "Am I eligible?" campus answer_given run_answers
