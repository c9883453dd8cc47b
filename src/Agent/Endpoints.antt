-- ===== src/Agent/Endpoints.antt =====
-- The endpoints that run the agent: apps/api/app/api/routers/agent.py and copilot.py, on one session of
-- the database. The columns updated_at, and id and created_at of a message, are not in the rows.
pub mod Access
pub mod Answer
mod Tests
use placement_assistant.Prelude.{
  ℕ, String, Bool, true, false, ◌&&◌, Option, none, some, List, [], ◌∷◌, map, keep, is_some, Error,
  Result, ok, err, http, http_detail, permission, attribute_error, Action, ◌>>=◌, pure,
  if◌then◌else◌,
}
use placement_assistant.Database.{
  Db, Principal, ConversationSession, ConversationMessage, MessageRole,
}
use placement_assistant.Agent.Memory.{get_or_create_session, list_sessions, get_raw_messages}
use placement_assistant.Agent.Authority.{
  EligibilityDecisionResponse, EvidenceReference, M8AgentResponse,
}
use placement_assistant.Agent.Turn.{World}
use placement_assistant.Agent.Orchestrator.{Ended, execute}

pub record CopilotConversationSession : Type 0 where
  pub id : ℕ
  pub created_at : ℕ

pub record CopilotMessage : Type 0 where
  pub sequence_number : ℕ
  pub role : MessageRole
  pub content : Option String

pub record CopilotDecision : Type 0 where
  pub status : String
  pub reason : Option String
  pub evaluation_reference : Option ℕ

-- `source_hash` is what `source_metadata` has under "hash".
pub record CopilotEvidence : Type 0 where
  pub policy_reference : String
  pub version_reference : String
  pub excerpts : List String
  pub source_hash : Option String

pub record CopilotAgentResponse : Type 0 where
  pub message : String
  pub decision : Option CopilotDecision
  pub evidence : List CopilotEvidence

abbrev pub forbidden : Error → Error
forbidden permission = http_detail 403 "FORBIDDEN"
forbidden e = e

-- `except PermissionError: raise HTTPException(status_code=403, detail="FORBIDDEN")`
abbrev pub denied : {A : Type 0} → Result A → Result A
denied (ok a) = ok a
denied (err e) = err (forbidden e)

unfoldable pub guarded : {A : Type 0} → Action Db A → Action Db A
guarded m db = (denied (m db).0, (m db).1)

abbrev session_view : ConversationSession → CopilotConversationSession
session_view s = record { id = s.id; created_at = s.created_at }

abbrev message_view : ConversationMessage → CopilotMessage
message_view m = record { sequence_number = m.sequence_number; role = m.role; content = m.content }

abbrev pub is_shown : ConversationMessage → Bool
is_shown m =
    elim m.role [ MessageRole.user ↦ true | MessageRole.assistant ↦ true | _ ↦ false ]
    && is_some m.content

unfoldable pub list_conversations : Principal → Action Db (List CopilotConversationSession)
list_conversations p = guarded do sessions ← list_sessions p; pure (map session_view sessions)

unfoldable pub create_conversation : Principal → ℕ → ℕ → Action Db CopilotConversationSession
create_conversation p new_id now =
    guarded do s ← get_or_create_session p new_id now; pure (session_view s)

unfoldable pub get_conversation_history : Principal → ℕ → ℕ → Action Db (List CopilotMessage)
get_conversation_history p conversation_id now = guarded do
  raw_msgs ← get_raw_messages p conversation_id now
  pure (map message_view (keep is_shown raw_msgs))

-- Nothing is evaluated past a read of `reason`: the class EligibilityDecisionResponse has no such
-- attribute.
abbrev pub decision_of : Option EligibilityDecisionResponse → Result (Option CopilotDecision)
decision_of none = ok none
decision_of (some d) = err attribute_error

abbrev pub evidence_view : EvidenceReference → CopilotEvidence
evidence_view e = record {
  policy_reference = e.document_id;
  version_reference = e.policy_version;
  excerpts = e.content ∷ [];
  source_hash = e.source_hash;
}

abbrev pub transformed :
    M8AgentResponse → Result (Option CopilotDecision) → Result CopilotAgentResponse
transformed r (err e) = err e
transformed r (ok decision) =
    ok record { message = r.message; decision = decision; evidence = map evidence_view r.evidence }

abbrev pub copilot_response : Result M8AgentResponse → Result CopilotAgentResponse
copilot_response (err e) = err e
copilot_response (ok r) = transformed r (decision_of r.authoritative_decision)

module _ {A : Type 0} (view : Result M8AgentResponse → Result A) where
  abbrev pub reply_of : Option Ended → Option (Result A × Db)
  reply_of none = none
  reply_of (some e) = some (denied (view e.result), e.db)

  abbrev pub run_for :
      Result ConversationSession → Db → (Db → Option Ended) → Option (Result A × Db)
  run_for (err e) db run = some (err (forbidden e), db)
  run_for (ok session) db run = reply_of (run db)

module _ (w : World) (p : Principal) (conversation_id fuel : ℕ) (query : String) (db : Db) where
  -- `none` when the fuel of the agent's loop runs out.
  unfoldable pub chat_with_agent : Option (Result M8AgentResponse × Db)
  chat_with_agent =
      run_for (λ r. r) (get_or_create_session p conversation_id w.now db).0
        (get_or_create_session p conversation_id w.now db).1
        (execute w p conversation_id fuel query)

  unfoldable pub send_message : Option (Result CopilotAgentResponse × Db)
  send_message =
      run_for copilot_response (get_or_create_session p conversation_id w.now db).0
        (get_or_create_session p conversation_id w.now db).1
        (execute w p conversation_id fuel query)
