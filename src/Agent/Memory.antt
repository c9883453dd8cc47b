-- ===== src/Agent/Memory.antt =====
-- The conversation memory: apps/api/app/agent/memory.py, and the student behind a principal, from
-- apps/api/app/agent/m8_authority.py. A call commits what it writes.
pub mod Ownership
pub mod Numbering
pub mod History
mod Tests
use placement_assistant.Prelude.{
  ℕ, ◌+◌, String, Bool, true, false, not, ◌&&◌, Option, none, some, List, [], ◌∷◌, ◌++◌, map, keep,
  find, any, is_some, ◌==◌, opt_eq, Result, ok, err, permission, Action, ◌>>=◌, ◌>>◌, pure, raise,
  gets, lift, or_raise, raise_if, modify, if◌then◌else◌,
}
use placement_assistant.Database.{
  Db, Principal, Role, student, User, UserStatus, active, Student, ConversationSession,
  ConversationMessage, MessageRole, ToolCall, one_or_none, greatest, ascending, descending,
  column_or_zero,
}

pub is_student : Role → Bool
is_student student = true
is_student _ = false

is_active : UserStatus → Bool
is_active active = true
is_active UserStatus.disabled = false

-- The join of a student with the user of its `user_id`, under the query's conditions.
unfoldable pub owns : Principal → Db → Student → Bool
unfolding is_active
owns p db s =
    s.institution_id == p.institution_id
    && opt_eq s.user_id (some p.sub)
    && any
        (λ u.
          opt_eq s.user_id (some u.id)
          && u.institution_id == p.institution_id
          && is_active u.status)
        db.users

-- M8EligibilityRepository.owned_student
unfoldable pub owned_student : Principal → Action Db ℕ
unfolding is_student
owned_student p = do
  raise_if (not (is_student p.role)) permission
  found ← gets (λ db. find (owns p db) db.students)
  owned ← or_raise permission found
  pure owned.id

abbrev pub has_id : ℕ → ConversationSession → Bool
has_id conversation_id s = s.id == conversation_id

unfoldable pub owned_session : ℕ → ℕ → ℕ → ConversationSession → Bool
owned_session conversation_id institution_id student_id s =
    s.id == conversation_id && s.institution_id == institution_id && s.student_id == student_id

abbrev pub new_session : Principal → ℕ → ℕ → ℕ → ConversationSession
new_session p student_id conversation_id now = record {
  id = conversation_id;
  institution_id = p.institution_id;
  student_id = student_id;
  created_at = now;
}

create_session : Principal → ℕ → ℕ → ℕ → Action Db ConversationSession
create_session p student_id conversation_id now = do
  existing ← (λ db. (one_or_none (keep (has_id conversation_id) db.sessions), db))
  raise_if (is_some existing) permission
  modify (λ db. record db {
    sessions = db.sessions ++ new_session p student_id conversation_id now ∷ [];
  })
  pure (new_session p student_id conversation_id now)

or_create : Principal → ℕ → ℕ → ℕ → Option ConversationSession → Action Db ConversationSession
or_create p student_id conversation_id now (some s) = pure s
or_create p student_id conversation_id now none = create_session p student_id conversation_id now

unfoldable pub session_of : Principal → ℕ → ℕ → ℕ → Action Db ConversationSession
unfolding or_create create_session
session_of p conversation_id now student_id = do
  found ← (λ db. (
    one_or_none (keep (owned_session conversation_id p.institution_id student_id) db.sessions),
    db,
  ))
  or_create p student_id conversation_id now found

unfoldable pub get_or_create_session : Principal → ℕ → ℕ → Action Db ConversationSession
get_or_create_session p conversation_id now = do
  student_id ← owned_student p
  session_of p conversation_id now student_id

-- What `add_message` is given besides the conversation.
pub record Draft : Type 0 where
  pub role : MessageRole
  pub content : Option String
  pub tool_name : Option String
  pub tool_call_id : Option String
  pub tool_calls : Option (List ToolCall)

abbrev pub in_session : ℕ → ConversationMessage → Bool
in_session id m = m.session_id == id

abbrev pub number : ConversationMessage → ℕ
number m = m.sequence_number

abbrev pub message : ℕ → ℕ → Draft → ConversationMessage
message session_id sequence_number d = record {
  session_id = session_id;
  sequence_number = sequence_number;
  role = d.role;
  content = d.content;
  tool_name = d.tool_name;
  tool_call_id = d.tool_call_id;
  tool_calls = d.tool_calls;
}

-- The next number is one past the greatest of the session.
unfoldable pub append_message : ℕ → Draft → Action Db ConversationMessage
append_message session_id draft db =
    let next_seq =
      column_or_zero number (greatest number (keep (in_session session_id) db.messages)) + 1 in
    (
      ok (message session_id next_seq draft),
      record db { messages = db.messages ++ message session_id next_seq draft ∷ [] },
    )

unfoldable pub add_message : Principal → ℕ → ℕ → Draft → Action Db ConversationMessage
add_message p conversation_id now draft = do
  session ← get_or_create_session p conversation_id now
  append_message session.id draft

-- Latest first.
unfoldable pub list_sessions : Principal → Action Db (List ConversationSession)
list_sessions p = do
  student_id ← owned_student p
  gets (λ db.
      descending (λ s. s.created_at)
        (keep (λ s. s.institution_id == p.institution_id && s.student_id == student_id)
          db.sessions))

unfoldable pub get_raw_messages : Principal → ℕ → ℕ → Action Db (List ConversationMessage)
get_raw_messages p conversation_id now = do
  session ← get_or_create_session p conversation_id now
  gets (λ db. ascending number (keep (in_session session.id) db.messages))

-- A message as the OpenAI API takes it: a key that is `none` is left out.
pub record ChatMessage : Type 0 where
  pub role : MessageRole
  pub content : Option String
  pub name : Option String
  pub tool_call_id : Option String
  pub tool_calls : Option (List ToolCall)

abbrev pub formatted : ConversationMessage → ChatMessage
formatted m = record {
  role = m.role;
  content = m.content;
  name = m.tool_name;
  tool_call_id = m.tool_call_id;
  tool_calls = m.tool_calls;
}

unfoldable pub get_messages : Principal → ℕ → ℕ → Action Db (List ChatMessage)
get_messages p conversation_id now = do
  session ← get_or_create_session p conversation_id now
  messages ← gets (λ db. ascending number (keep (in_session session.id) db.messages))
  pure (map formatted messages)
