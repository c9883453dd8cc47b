-- ===== src/Agent/Orchestrator/EndToEnd.antt =====
-- A run of the agent that evaluates a student with the engine.
use placement_assistant.Prelude.{
  ℕ, pos, String, Option, none, some, List, [], ◌∷◌, keep, find, any, last, Result, ok, err,
  validation_error, str_eq, if◌then◌else◌, ◌==◌,
}
use placement_assistant.Value.{
  eq, lt, le, contained, truthy, number, number_order, Value, int, str, dict, end, field, get, null,
  Fields,
}
use placement_assistant.Value.Text.{split_dots}
use placement_assistant.Engine.{
  evaluate_snapshot, evaluate_criteria, evaluate_policy, evaluate_rule, evaluate_operator,
  compare_by, resolve_field_path, aggregate_results, combine, applies, field_path_of,
}
use placement_assistant.Database.{Db, ToolCall, one_or_none, greatest, ascending}
use placement_assistant.Database.Sample.{anna}
use placement_assistant.EligibilityService.Snapshot.{
  Context, prepare, with_drive, with_policy, build_snapshot, get_active_policy, drive_of,
  with_snapshot,
}
use placement_assistant.EligibilityService.{
  evaluate, decide_anew, persist, violates, policy_rules_of, criteria_of, key_of, decision_of,
}
use placement_assistant.Agent.Memory.{
  ChatMessage, add_message, get_messages, get_or_create_session, session_of, owned_session,
  owned_student, owns, append_message,
}
use placement_assistant.Agent.Budget.{unset, new_budget, increment_step, record_tool_call}
use placement_assistant.Agent.Authority.{
  EligibilityDecisionResponse, M8AgentResponse, is_result, authority_message,
}
use placement_assistant.Agent.Turn.{World, Tool, Reply, answered, intercept, accept_decision}
use placement_assistant.Agent.Orchestrator.{
  Ended, execute, loop, round, react, begin, opening, run_from, start, after, ended, conclude,
  call_tools, handle_calls, handle_call, forget, outcome, run_tool, caught, answer, remember,
}
use placement_assistant.Agent.Tools.{evaluation_tool, evaluate_m5, active_requirement, response_of}

abbrev number_of : ℕ → Value
number_of n = int (pos n)

-- A response as a dict, and back.
abbrev dump : EligibilityDecisionResponse → Value
dump d = dict (
    field "id" (number_of d.id) (
      field "student_id" (number_of d.student_id) (
        field "opportunity_id" (number_of d.opportunity_id) (
          field "policy_version_id" (number_of d.policy_version_id) (
            field "requirement_version_id" (number_of d.requirement_version_id) (
              field "engine_version" (str d.engine_version) (
                field "result" (str d.result)
                  (field "evaluation_key" (str d.evaluation_key) end))))))))

number_in : Value → ℕ
number_in (int (pos n)) = n
number_in _ = 0

text_in : Value → String
text_in (str s) = s
text_in _ = ""

at_key : Fields → String → Value
at_key d key = elim (get d key) [ none ↦ null | some v ↦ v ]

model_validate : Value → Result EligibilityDecisionResponse
unfolding number_in text_in at_key
model_validate (dict d) = ok (record {
  id = number_in (at_key d "id");
  student_id = number_in (at_key d "student_id");
  opportunity_id = number_in (at_key d "opportunity_id");
  policy_version_id = number_in (at_key d "policy_version_id");
  requirement_version_id = number_in (at_key d "requirement_version_id");
  engine_version = text_in (at_key d "engine_version");
  result = text_in (at_key d "result");
  evaluation_key = text_in (at_key d "evaluation_key");
})
model_validate _ = err validation_error

abbrev context : Context
context = record { str_id = λ n. "id"; dumps = λ fs. "{}"; sha256 = λ s. s; now = 20; new_id = 8 }

abbrev engine_tool : Tool
engine_tool = evaluation_tool (λ v. some 3) dump (λ db. context) (λ before db. db) anna

abbrev question : ToolCall
question = record { id = "c1"; name = "evaluate_eligibility"; arguments = "{}" }

-- The model asks for one evaluation and then ends.
abbrev client : ℕ → List ChatMessage → Reply
client n messages = if n == 1 then answered (question ∷ []) else answered []

abbrev world : World
world = record {
  client = client;
  loads = λ s. some (dict end);
  dumps = λ v. "{}";
  normalize = λ v. "{}";
  model_validate = model_validate;
  explain = λ e. "";
  registry = λ name. if str_eq name "evaluate_eligibility" then some engine_tool else none;
  system_prompt = "You explain.";
  environment = record { agent_max_tool_calls = unset; agent_max_steps = unset };
  now = 5;
}

-- A run with everything that it calls open.
run : String → Db → Option Ended
unfolding execute run_from begin opening start loop round react after ended conclude call_tools
    handle_calls handle_call forget outcome run_tool caught answer remember intercept
    accept_decision new_budget increment_step record_tool_call add_message get_messages
    get_or_create_session session_of owned_session owned_student owns append_message find any keep
    last one_or_none greatest ascending is_result authority_message evaluation_tool evaluate_m5
    active_requirement response_of model_validate evaluate decide_anew persist violates prepare
    with_drive with_policy with_snapshot drive_of get_active_policy build_snapshot policy_rules_of
    criteria_of key_of decision_of evaluate_snapshot evaluate_criteria evaluate_policy evaluate_rule
    evaluate_operator compare_by eq lt le contained truthy number number_order get
    resolve_field_path split_dots aggregate_results combine applies field_path_of
run = execute world anna 7 2

abbrev told : EligibilityDecisionResponse
told = record {
  id = 8;
  student_id = 101;
  opportunity_id = 3;
  policy_version_id = 4;
  requirement_version_id = 7;
  engine_version = "v1.0";
  result = "ELIGIBLE";
  evaluation_key = "{}|id|id|v1.0";
}

abbrev answer_given : M8AgentResponse
answer_given = record {
  message = "You are eligible for the evaluated opportunity.";
  decision = "ELIGIBLE";
  decision_source = some "M5_ENGINE";
  evidence = [];
  authoritative_decision = some told;
}
