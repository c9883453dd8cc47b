-- ===== src/Agent/Budget.antt =====
-- The limits of one run of the agent: apps/api/app/agent/limits.py.
pub mod Bounds
use placement_assistant.Prelude.{
  ℕ, ◌+◌, ℤ, pos, exceeds, at_most, is_zero, String, Bool, true, false, ◌&&◌, Option, none, some,
  List, [], ◌∷◌, ◌++◌, last, Result, ok, err, value_error, budget_exhausted, cycle_detected, Action,
  ◌>>=◌, ◌>>◌, raise_if, modify, gets, str_eq, if◌then◌else◌,
}

-- An environment variable that is read with `int(os.getenv(name, default))`.
pub data Setting : Type 0 where
  unset malformed : Setting
  set : ℤ → Setting

read_int : ℕ → Setting → Result ℤ
read_int default unset = ok (pos default)
read_int default malformed = err value_error
read_int default (set n) = ok n

-- `override or int(os.getenv(...))`: an override of 0 counts as none.
limit : Option ℤ → ℕ → Setting → Result ℤ
unfolding read_int
limit none default setting = read_int default setting
limit (some n) default setting = if is_zero n then read_int default setting else ok n

pub record Environment : Type 0 where
  pub agent_max_tool_calls : Setting
  pub agent_max_steps : Setting

-- A call's signature: the tool's name and its arguments, normalized.
abbrev pub Signature : Type 0
Signature = String × String

pub record ExecutionBudget : Type 0 where
  pub max_tool_calls : ℤ
  pub max_steps : ℤ
  pub current_tool_calls : ℕ
  pub current_steps : ℕ
  pub call_history : List Signature

abbrev fresh : Result ℤ → Result ℤ → Result ExecutionBudget
fresh (err e) steps = err e
fresh (ok calls) (err e) = err e
fresh (ok calls) (ok steps) = ok (record {
  max_tool_calls = at_most 10 calls;
  max_steps = at_most 20 steps;
  current_tool_calls = 0;
  current_steps = 0;
  call_history = [];
})

unfoldable pub new_budget : Environment → Option ℤ → Option ℤ → Result ExecutionBudget
unfolding limit
new_budget environment max_tool_calls max_steps =
    fresh (limit max_tool_calls 5 environment.agent_max_tool_calls)
      (limit max_steps 10 environment.agent_max_steps)

unfoldable pub increment_step : Action ExecutionBudget Unit
increment_step b =
    let b' : ExecutionBudget = record b { current_steps = b.current_steps + 1 } in
    raise_if (exceeds b'.current_steps b'.max_steps) budget_exhausted b'

same_signature : Signature → Option Signature → Bool
same_signature s none = false
same_signature s (some t) = str_eq t.0 s.0 && str_eq t.1 s.1

-- The arguments come normalized, as `json.dumps(args, sort_keys=True)`.
unfoldable pub record_tool_call : Signature → Action ExecutionBudget Unit
unfolding same_signature
record_tool_call signature b =
    let b' : ExecutionBudget = record b { current_tool_calls = b.current_tool_calls + 1 } in
    if exceeds b'.current_tool_calls b'.max_tool_calls
    then (err budget_exhausted, b')
    else if same_signature signature (last b'.call_history)
    then (err cycle_detected, b')
    else (ok tt, record b' { call_history = b'.call_history ++ signature ∷ [] })
