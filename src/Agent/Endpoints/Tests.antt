-- ===== src/Agent/Endpoints/Tests.antt =====
-- A student's conversation, seen by its owner and by another student.
use placement_assistant.Prelude.{
  ℕ, ◌≡◌, ◌≢◌, refl, arith, none, [], ◌∷◌, keep, find, any, Result, ok, err, http,
}
use placement_assistant.Database.{Db, ConversationSession, one_or_none, insert_row, descending}
use placement_assistant.Database.Sample.{campus, anna, ben}
use placement_assistant.Agent.Memory.{
  get_or_create_session, session_of, owned_session, owned_student, owns, list_sessions,
}
use placement_assistant.Agent.Memory.Ownership.{IsSession, IsOwner}
use placement_assistant.Agent.Budget.{unset}
use placement_assistant.Agent.Turn.{World, answered}
use placement_assistant.Agent.Endpoints.{
  guarded, list_conversations, create_conversation, send_message,
}
use placement_assistant.Agent.Endpoints.Answer.{EndsUndecided, send_message-EndsUndecided}

abbrev talk : ConversationSession
talk = record { id = 7; institution_id = 1; student_id = 101; created_at = 50 }

abbrev talking : Db
talking = record campus { sessions = talk ∷ [] }

-- A model that ends at once.
abbrev quiet : World
quiet = record {
  client = λ n messages. answered [];
  loads = λ s. none;
  dumps = λ v. "{}";
  normalize = λ v. "{}";
  model_validate = λ v. err (http 500 "");
  explain = λ e. "";
  registry = λ name. none;
  system_prompt = "You explain.";
  environment = record { agent_max_tool_calls = unset; agent_max_steps = unset };
  now = 5;
}

-- Stands for all the definitions that a run computes with.
unfoldable everything : Unit {0}
unfolding get_or_create_session session_of owned_session owned_student owns find any keep
    one_or_none insert_row descending list_sessions guarded list_conversations create_conversation
everything = tt

run_listed : (list_conversations anna talking).0 ≡ ok (record { id = 7; created_at = 50 } ∷ [])
unfolding everything
run_listed = refl

run_created : (create_conversation anna 8 60 talking).0 ≡ ok record { id = 8; created_at = 60 }
unfolding everything
run_created = refl

talk-IsSession : IsSession talking 7 talk
unfolding keep
talk-IsSession = refl

ben-not-IsOwner : ¬ IsOwner ben talking talk
unfolding owned_student owns find any
ben-not-IsOwner owner = other_student owner.1
  where
    other_student : ◌≢◌ {A = Result ℕ} (ok 102) (ok 101)
    other_student e = ground arith

send_message-EndsUndecided_example : EndsUndecided (send_message quiet anna 7 21 "hi" talking)
send_message-EndsUndecided_example = send_message-EndsUndecided quiet anna 7 "hi" talking
