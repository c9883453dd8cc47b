-- ===== src/Agent/Memory/Tests.antt =====
-- Witnesses of the conversation memory.
use placement_assistant.Prelude.{
  ℕ, ◌≡◌, refl, none, some, [], ◌∷◌, keep, find, any, Result, ok, arith,
}
use placement_assistant.Database.{Db, ConversationSession, user, one_or_none, greatest}
use placement_assistant.Database.Sample.{campus, anna, ben}
use placement_assistant.Agent.Memory.{
  Draft, get_or_create_session, add_message, session_of, owned_student, owned_session, owns,
  append_message,
}
use placement_assistant.Agent.Memory.Numbering.{IsNumbered, add_message-IsNumbered}
use placement_assistant.Agent.Memory.Ownership.{IsOwner}

abbrev talk : ConversationSession
talk = record { id = 7; institution_id = 1; student_id = 101; created_at = 50 }

abbrev talking : Db
talking = record campus { sessions = talk ∷ [] }

abbrev hello : Draft
hello = record {
  role = user;
  content = some "hello";
  tool_name = none;
  tool_call_id = none;
  tool_calls = none;
}

talking-IsNumbered : IsNumbered talking
unfolding keep
talking-IsNumbered id = tt

ben-not-IsOwner : ¬ IsOwner ben talking talk
unfolding owned_student owns find any
ben-not-IsOwner owner = absurd_id owner.1
  where
    absurd_id : ◌≡◌ {A = Result ℕ} (ok 102) (ok 101) → ⊥
    absurd_id e = ground arith

add_message-IsNumbered_example : IsNumbered (add_message anna 7 60 hello talking).1
add_message-IsNumbered_example = add_message-IsNumbered anna 7 60 hello talking talking-IsNumbered

-- A new conversation is opened for the student, and the next message is the second.
second_message :
    (add_message anna 9 70 hello (add_message anna 9 70 hello talking).1).0
    ≡ ok (record {
      session_id = 9;
      sequence_number = 2;
      role = user;
      content = some "hello";
      tool_name = none;
      tool_call_id = none;
      tool_calls = none;
    })
unfolding add_message get_or_create_session session_of owned_session owned_student owns
    append_message find any keep one_or_none greatest
second_message = refl
