-- ===== src/Database/Conversation.antt =====
-- apps/api/app/infrastructure/models/conversation.py.
use placement_assistant.Prelude.{ℕ, String, Option, List}

-- A tool call of the model, as the OpenAI API serializes it.
pub record ToolCall : Type 0 where
  pub id : String
  pub name : String
  pub arguments : String

pub data MessageRole : Type 0 where
  system user assistant tool : MessageRole

pub record ConversationSession : Type 0 where
  pub id : ℕ
  pub institution_id : ℕ
  pub student_id : ℕ
  pub created_at : ℕ

-- The metadata is NULL or a dict with the one key "tool_calls".
pub record ConversationMessage : Type 0 where
  pub session_id : ℕ
  pub sequence_number : ℕ
  pub role : MessageRole
  pub content : Option String
  pub tool_name : Option String
  pub tool_call_id : Option String
  pub tool_calls : Option (List ToolCall)
