-- ===== src/Agent/Orchestrator/Frame.antt =====
-- A relation that the parts of a round keep is kept by the round.
use placement_assistant.Prelude.{
  ℕ, String, none, List, [], ◌∷◌, runtime_error, gets, Respects, IsPreorder, Respects-pure,
  Respects-raise, Respects-gets, Respects-bind,
}
use placement_assistant.Database.{Principal, ToolCall}
use placement_assistant.Agent.Memory.{ChatMessage, Draft, add_message}
use placement_assistant.Agent.Turn.{World, Turn, Reply, unavailable, answered, on_db, say}
use placement_assistant.Agent.Orchestrator.{
  forget, outcome, remember, answer, handle_call, handle_calls, conclude, call_tools, react,
}

module _ (w : World) (p : Principal) (conversation_id : ℕ) {R : Turn → Turn → Type 0}
    (o : IsPreorder R)
    (writes : (draft : Draft) → Respects R (on_db (add_message p conversation_id w.now draft)))
    (says : (m : ChatMessage) → Respects R (say m))
    (forgets : (name : String) → Respects R (forget name))
    (answers : (tc : ToolCall) → Respects R (outcome w tc)) where
  remember-Respects : (draft : Draft) → Respects R (remember w p conversation_id draft)
  unfolding remember
  remember-Respects draft = Respects-bind o (on_db _) _ (writes draft) λ _. Respects-pure o tt

  answer-Respects :
      (tc : ToolCall) (text : String) → Respects R (answer w p conversation_id tc text)
  unfolding answer
  answer-Respects tc text =
      Respects-bind o (remember w p conversation_id _) _ (remember-Respects _) λ _. says _

  handle_call-Respects : (tc : ToolCall) → Respects R (handle_call w p conversation_id tc)
  unfolding handle_call
  handle_call-Respects tc =
      Respects-bind o (forget tc.name) _ (forgets tc.name)
        λ _. Respects-bind o (outcome w tc) _ (answers tc) λ text. answer-Respects tc text

  handle_calls-Respects : (tcs : List ToolCall) → Respects R (handle_calls w p conversation_id tcs)
  unfolding handle_calls
  handle_calls-Respects [] = Respects-pure o tt
  handle_calls-Respects (tc ∷ tcs) =
      Respects-bind o (handle_call w p conversation_id tc) _ (handle_call-Respects tc)
        λ _. handle_calls-Respects tcs

  pub react-Respects : (reply : Reply) → Respects R (react w p conversation_id reply)
  unfolding react conclude call_tools
  react-Respects unavailable = Respects-raise o runtime_error
  react-Respects (answered []) = Respects-bind o (gets (λ t. t.decision)) _ (Respects-gets o _) λ d.
      Respects-bind o (remember w p conversation_id _) _ (remember-Respects _)
        λ _. Respects-pure o _
  react-Respects (answered (tc ∷ tcs)) =
      Respects-bind o (remember w p conversation_id _) _ (remember-Respects _) λ _.
        Respects-bind o (say _) _ (says _) λ _.
          Respects-bind o (handle_calls w p conversation_id (tc ∷ tcs)) _
            (handle_calls-Respects (tc ∷ tcs)) λ _. Respects-pure o none
