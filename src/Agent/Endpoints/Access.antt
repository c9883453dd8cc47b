-- ===== src/Agent/Endpoints/Access.antt =====
-- Who gets an answer from apps/api/app/api/routers/agent.py and copilot.py.
use placement_assistant.Prelude.{ℕ, String, ◌≡◌, refl, some, err, http_detail}
use placement_assistant.Database.{Db, Principal, ConversationSession}
use placement_assistant.Agent.Memory.Ownership.{
  IsSession, IsOwner, get_or_create_session-denied, get_raw_messages-denied,
}
use placement_assistant.Agent.Turn.{World}
use placement_assistant.Agent.Endpoints.{
  guarded, get_conversation_history, chat_with_agent, send_message,
}

-- A caller who is not the owner of a conversation gets 403 from each endpoint that names it, whatever
-- the model would answer, and the database stays as it was.
pub endpoints_denied :
    (w : World) (p : Principal) (c fuel : ℕ) (query : String) (db : Db) (t : ConversationSession)
    → IsSession db c t
    → ¬ IsOwner p db t
    → (chat_with_agent w p c fuel query db ≡ some (err (http_detail 403 "FORBIDDEN"), db))
      × (send_message w p c fuel query db ≡ some (err (http_detail 403 "FORBIDDEN"), db))
      × (get_conversation_history p c w.now db ≡ (err (http_detail 403 "FORBIDDEN"), db))
unfolding chat_with_agent send_message get_conversation_history guarded
endpoints_denied w p c fuel query db t h other =
    let no_session = get_or_create_session-denied p c w.now db t h other in
    (
      rw no_session refl,
      rw no_session refl,
      rw (get_raw_messages-denied p c w.now db t h other) refl,
    )
