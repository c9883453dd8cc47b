-- ===== src/Agent/Budget/Bounds.antt =====
-- Whatever the settings say, a run makes at most 20 steps and 10 calls of a tool, and no call
-- twice in a row.
use placement_assistant.Prelude.{
  ℕ, ◌+◌, ◌≤◌, ◌≡◌, ◌≢◌, refl, ℤ, pos, negsuc, false, Option, some, List, [], ◌∷◌, ◌++◌, last,
  length, length-append, arith, Result, ok, err, eq_iff, inl, inr, Bool-cases, ap, exceeds, at_most,
}
use placement_assistant.Agent.Budget.{
  Environment, Signature, ExecutionBudget, new_budget, record_tool_call, same_signature,
  fresh as fresh_budget,
}

-- An integer limit that lies within the bound `k`.
abbrev pub Within : ℕ → ℤ → Type 0
Within k (pos n) = n ≤ k
Within k (negsuc n) = Unit

-- No signature stands twice in a row.
abbrev pub NoRepeat : List Signature → Type 0
NoRepeat [] = Unit
NoRepeat (s ∷ []) = Unit
NoRepeat (s ∷ t ∷ r) = (s ≢ t) × NoRepeat (t ∷ r)

pub record IsBounded (b : ExecutionBudget) : Type 0 where
  pub calls_within : Within 10 b.max_tool_calls
  pub steps_within : Within 20 b.max_steps
  pub counted : length b.call_history ≤ b.current_tool_calls
  pub recorded : length b.call_history ≤ 10
  pub no_repeat : NoRepeat b.call_history

NoRepeat-append :
    (h : List Signature) (s : Signature)
    → NoRepeat h
    → ((t : Signature) → last h ≡ some t → t ≢ s)
    → NoRepeat (h ++ s ∷ [])
unfolding last
NoRepeat-append [] s n differs = tt
NoRepeat-append (t ∷ []) s n differs = (differs t refl, tt)
NoRepeat-append (t ∷ u ∷ h) s n differs =
    (n.0, NoRepeat-append (u ∷ h) s n.1 (λ v e. differs v (ground (arith, e))))

same_signature-false : (s t : Signature) → same_signature s (some t) ≡ false → t ≢ s
unfolding same_signature
same_signature-false s t h e = ground (
  arith,
  (eq_iff t.0 s.0).1 (ap (λ (p : Signature). p.0) e),
  (eq_iff t.1 s.1).1 (ap (λ (p : Signature). p.1) e),
)

pub increment-IsBounded :
    (b : ExecutionBudget)
    → IsBounded b
    → IsBounded (record b { current_steps = b.current_steps + 1 })
increment-IsBounded b h = record {
  calls_within = h.calls_within;
  steps_within = h.steps_within;
  counted = h.counted;
  recorded = h.recorded;
  no_repeat = h.no_repeat;
}

Within-count : (n : ℕ) (m : ℤ) → exceeds n m ≡ false → Within 10 m → n ≤ 10
Within-count n (pos m) e h = ground arith
Within-count n (negsuc m) e h = cc

differs_from_last :
    (s : Signature) (h : List Signature)
    → same_signature s (last h) ≡ false
    → (t : Signature) → last h ≡ some t
    → t ≢ s
differs_from_last s h fresh t e = same_signature-false s t (rw e at fresh)

accepted-IsBounded :
    (s : Signature) (b : ExecutionBudget)
    → IsBounded b
    → exceeds (b.current_tool_calls + 1) b.max_tool_calls ≡ false
    → same_signature s (last b.call_history) ≡ false
    → IsBounded (record b {
      current_tool_calls = b.current_tool_calls + 1;
      call_history = b.call_history ++ s ∷ [];
    })
accepted-IsBounded s b h room fresh = record {
  calls_within = h.calls_within;
  steps_within = h.steps_within;
  counted = omega (arith, length-append b.call_history (s ∷ []), h.counted);
  recorded = omega (
    arith,
    length-append b.call_history (s ∷ []),
    h.counted,
    Within-count (b.current_tool_calls + 1) b.max_tool_calls room h.calls_within,
  );
  no_repeat =
      NoRepeat-append b.call_history s h.no_repeat (differs_from_last s b.call_history fresh);
}

counted-IsBounded :
    (b : ExecutionBudget)
    → IsBounded b
    → IsBounded (record b { current_tool_calls = b.current_tool_calls + 1 })
counted-IsBounded b h = record {
  calls_within = h.calls_within;
  steps_within = h.steps_within;
  counted = omega (arith, h.counted);
  recorded = h.recorded;
  no_repeat = h.no_repeat;
}

pub record_tool_call-IsBounded :
    (s : Signature) (b : ExecutionBudget) → IsBounded b → IsBounded (record_tool_call s b).1
unfolding record_tool_call
record_tool_call-IsBounded s b h =
    elim (Bool-cases (exceeds (b.current_tool_calls + 1) b.max_tool_calls)) [
      | inl over ↦ rw over (counted-IsBounded b h)
      | inr room ↦ rw room (elim (Bool-cases (same_signature s (last b.call_history))) [
        | inl again ↦ rw again (counted-IsBounded b h)
        | inr fresh ↦ rw fresh (accepted-IsBounded s b h room fresh)
      ])
    ]

-- A recorded call takes no step and moves no limit.
pub record_tool_call-steps :
    (s : Signature) (b : ExecutionBudget) → (record_tool_call s b).1.current_steps ≡ b.current_steps
unfolding record_tool_call
record_tool_call-steps s b = ground arith

pub record_tool_call-limit :
    (s : Signature) (b : ExecutionBudget) → (record_tool_call s b).1.max_steps ≡ b.max_steps
unfolding record_tool_call
record_tool_call-limit s b = ground arith

at_most-Within : (k : ℕ) (n : ℤ) → Within k (at_most k n)
at_most-Within k (pos n) = omega arith
at_most-Within k (negsuc n) = tt

fresh-IsBounded :
    (calls steps : Result ℤ) (b : ExecutionBudget)
    → fresh_budget calls steps ≡ ok b
    → IsBounded b × (b.current_steps ≡ 0)
fresh-IsBounded (err e) steps b h = cc
fresh-IsBounded (ok calls) (err e) b h = cc
fresh-IsBounded (ok calls) (ok steps) b h =
    ground (arith, at_most-Within 10 calls, at_most-Within 20 steps)

-- A new budget is within the bounds, whatever the environment and the overrides say.
pub new_budget-IsBounded :
    (environment : Environment) (calls steps : Option ℤ) (b : ExecutionBudget)
    → new_budget environment calls steps ≡ ok b
    → IsBounded b × (b.current_steps ≡ 0)
unfolding new_budget
new_budget-IsBounded environment calls steps b h = fresh-IsBounded _ _ b h
