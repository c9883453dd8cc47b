-- ===== src/Agent/Turn.antt =====
-- The variables of one run of the agent, what it is given, and the interception of tool results:
-- apps/api/app/agent/orchestrator.py.
pub mod Decision
use placement_assistant.Prelude.{
  ℕ, String, Bool, true, false, not, ◌&&◌, Option, none, some, List, [], ◌∷◌, ◌++◌, Error, Result,
  ok, err, validation_error, value_error, runtime_error, Action, ◌>>=◌, ◌>>◌, pure, raise, lift,
  str_eq, if◌then◌else◌,
}
use placement_assistant.Value.{Value, dict, list, str, null, Fields, Items, nil, cons, get, truthy}
use placement_assistant.Database.{Db, ToolCall}
use placement_assistant.Agent.Memory.{ChatMessage}
use placement_assistant.Agent.Budget.{Environment, ExecutionBudget}
use placement_assistant.Agent.Authority.{EligibilityDecisionResponse, EvidenceReference, is_result}

-- What the model's API answers: an exception of the client, or a message with its tool calls.
pub data Reply : Type 0 where
  unavailable : Reply
  answered : List ToolCall → Reply

-- A registered tool: the arguments are validated and the handler runs on the request's database.
abbrev pub Tool : Type 0
Tool = Value → Action Db Value

-- What a run is given: the model's API, which may answer anything at each step; the JSON and
-- pydantic libraries; the registry; the prompts; and the process environment.
pub record World : Type 0 where
  pub client : ℕ → List ChatMessage → Reply
  pub loads : String → Option Value
  pub dumps : Value → String
  pub normalize : Value → String
  pub model_validate : Value → Result EligibilityDecisionResponse
  pub explain : Error → String
  pub registry : String → Option Tool
  pub system_prompt : String
  pub environment : Environment
  pub now : ℕ

-- The variables of `execute`.
pub record Turn : Type 0 where
  pub db : Db
  pub budget : ExecutionBudget
  pub messages : List ChatMessage
  pub decision : Option EligibilityDecisionResponse
  pub evidence : List EvidenceReference

abbrev pub on_db : {A : Type 0} → Action Db A → Action Turn A
on_db m t = let (r, db) = m t.db in (r, record t { db = db })

abbrev pub on_budget : {A : Type 0} → Action ExecutionBudget A → Action Turn A
on_budget m t = let (r, b) = m t.budget in (r, record t { budget = b })

abbrev pub set_decision : Option EligibilityDecisionResponse → Action Turn Unit
set_decision d t = (ok tt, record t { decision = d })

abbrev pub say : ChatMessage → Action Turn Unit
say m t = (ok tt, record t { messages = t.messages ++ m ∷ [] })

abbrev add_evidence : EvidenceReference → Action Turn Unit
add_evidence e t = (ok tt, record t { evidence = t.evidence ++ e ∷ [] })

abbrev pub is_evaluation : String → Bool
is_evaluation name = str_eq name "evaluate_eligibility"

-- d.get(key, default), where the pydantic model wants a text
text_or : String → Option Value → Result String
text_or default none = ok default
text_or default (some (str s)) = ok s
text_or default (some v) = err validation_error

optional_text : Option Value → Result (Option String)
optional_text none = ok none
optional_text (some null) = ok none
optional_text (some (str s)) = ok (some s)
optional_text (some v) = err validation_error

evidence_of : String → String → String → Fields → Action Turn Unit
unfolding text_or optional_text
evidence_of version_key default_version text_key d = do
  document_id ← lift (text_or "" (get d "document_id"))
  version ← lift (text_or default_version (get d version_key))
  content ← lift (text_or "" (get d text_key))
  source_hash ← lift (optional_text (get d "source_hash"))
  add_evidence (record {
    document_id = document_id;
    policy_version = version;
    content = content;
    source_hash = source_hash;
  })

collect_one : Bool → Value → Action Turn Unit
collect_one abstained (dict ev) =
    if abstained then pure tt else evidence_of "policy_version_id" "" "text" ev
collect_one abstained v = pure tt

collect : Bool → Items → Action Turn Unit
collect abstained nil = pure tt
collect abstained (cons v vs) = do collect_one abstained v; collect abstained vs

-- The loop over `result.get("evidence", [])`: texts and dicts hold no dicts, and what is no
-- sequence is a TypeError.
collect_evidence : Bool → Option Value → Action Turn Unit
unfolding collect collect_one
collect_evidence abstained none = pure tt
collect_evidence abstained (some (list vs)) = collect abstained vs
collect_evidence abstained (some (str s)) = pure tt
collect_evidence abstained (some (dict d)) = pure tt
collect_evidence abstained (some v) = raise runtime_error

is_abstained : Option Value → Bool
is_abstained none = false
is_abstained (some v) = truthy v

-- The decision is taken over, and dropped again if its result is none of the engine's three.
take_over : EligibilityDecisionResponse → Action Turn Unit
take_over d = do
  set_decision (some d)
  if is_result d.result then pure tt else do set_decision none; raise value_error

module _ (w : World) where
  unfoldable pub accept_decision : Value → Action Turn Unit
  unfolding take_over
  accept_decision result = do d ← lift (w.model_validate result); take_over d

  intercept_dict : String → Fields → Action Turn Unit
  unfolding collect_evidence is_abstained evidence_of
  intercept_dict name d =
      if is_evaluation name
      then accept_decision (dict d)
      else if str_eq name "get_policy_evidence"
      then evidence_of "policy_version" "1.0" "content" d
      else if str_eq name "search_policy"
      then collect_evidence (is_abstained (get d "abstained")) (get d "evidence")
      else pure tt

  unfoldable pub intercept : String → Value → Action Turn Unit
  unfolding intercept_dict
  intercept name (dict d) = intercept_dict name d
  intercept name v = pure tt
