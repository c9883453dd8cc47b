-- ===== src/Agent/Endpoints/Answer.antt =====
-- What `send_message` of apps/api/app/api/routers/copilot.py answers.
use placement_assistant.Prelude.{
  ℕ, String, ◌≡◌, refl, ap, sym, ◌∙◌, Option, none, some, [], map, Result, ok, err, Option-cases,
  inl, inr,
}
use placement_assistant.Database.{Db, Principal, ConversationSession}
use placement_assistant.Agent.Memory.{get_or_create_session}
use placement_assistant.Agent.Authority.{M8AgentResponse, authority_message}
use placement_assistant.Agent.Turn.{World}
use placement_assistant.Agent.Orchestrator.{Ended, execute}
use placement_assistant.Agent.Orchestrator.Limits.{execute-EndsWithin}
use placement_assistant.Agent.Orchestrator.Response.{
  IsAuthoritative, result_of, execute-IsAuthoritative,
}
use placement_assistant.Agent.Endpoints.{
  CopilotAgentResponse, evidence_view, forbidden, denied, decision_of, transformed,
  copilot_response, reply_of, run_for, send_message,
}

-- A response that says nothing of a decision, and brings no evidence.
pub record IsUndecided (a : CopilotAgentResponse) : Type 0 where
  pub message :
      a.message ≡ "Eligibility has not been verified. No authoritative decision is available."
  pub decision : a.decision ≡ none
  pub evidence : a.evidence ≡ []

-- An endpoint's result and the database after it: it ended, and what it returned is undecided.
abbrev pub EndsUndecided : Option (Result CopilotAgentResponse × Db) → Type 0
EndsUndecided o =
    (r : Result CopilotAgentResponse) × (db : Db) × (o ≡ some (r, db))
    × ((a : CopilotAgentResponse) → r ≡ ok a → IsUndecided a)

module _ (w : World) where
  transformed-Undecided :
      (r : M8AgentResponse) (a : CopilotAgentResponse)
      → IsAuthoritative w r
      → denied (transformed r (decision_of r.authoritative_decision)) ≡ ok a
      → IsUndecided a
  unfolding authority_message
  transformed-Undecided r a h returned = elim (Option-cases r.authoritative_decision) [
    | inr (d, e) ↦ absurd (cc (rw e at returned))
    | inl e ↦
        let same : (record {
          message = r.message;
          decision = none;
          evidence = map evidence_view r.evidence;
        })
            ≡ a =
          cc (rw e at returned) in
        record {
          message = ap (λ x. x.message) (sym same) ∙ h.message ∙ ap authority_message e;
          decision = ap (λ x. x.decision) (sym same);
          evidence = ap (λ x. x.evidence) (sym same) ∙ ap (map evidence_view) h.no_evidence;
        }
  ]

  copilot_response-Undecided :
      (r : Result M8AgentResponse) (a : CopilotAgentResponse)
      → ((m : M8AgentResponse) → r ≡ ok m → IsAuthoritative w m)
      → denied (copilot_response r) ≡ ok a
      → IsUndecided a
  copilot_response-Undecided (err e) a h returned = absurd (cc returned)
  copilot_response-Undecided (ok m) a h returned = transformed-Undecided m a (h m refl) returned

  module _ (p : Principal) (conversation_id : ℕ) (query : String) where
    execute-Authoritative :
        (db : Db) (e : Ended) (m : M8AgentResponse)
        → execute w p conversation_id 21 query db ≡ some e
        → e.result ≡ ok m
        → IsAuthoritative w m
    execute-Authoritative db e m ended returned =
        execute-IsAuthoritative w p conversation_id 21 query db m
          (ap result_of ended ∙ ap some returned)

    run_for-Undecided :
        (opened : Result ConversationSession) (db : Db)
        → EndsUndecided (run_for copilot_response opened db (execute w p conversation_id 21 query))
    run_for-Undecided (err e) db = (err (forbidden e), db, refl, λ a h. absurd (cc h))
    run_for-Undecided (ok session) db =
        let (e, ended, _, _) = execute-EndsWithin w p conversation_id query db in
        (
          denied (copilot_response e.result),
          e.db,
          ap (reply_of copilot_response) ended,
          λ a returned.
              copilot_response-Undecided e.result a (λ m. execute-Authoritative db e m ended)
                returned,
        )

    -- With fuel for 21 rounds `send_message` always ends. It never returns a decision, nor evidence:
    -- what it returns has the message of a run without a decision.
    pub send_message-EndsUndecided :
        (db : Db) → EndsUndecided (send_message w p conversation_id 21 query db)
    unfolding send_message
    send_message-EndsUndecided db =
        run_for-Undecided (get_or_create_session p conversation_id w.now db).0
          (get_or_create_session p conversation_id w.now db).1
