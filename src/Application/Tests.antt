-- ===== src/Application/Tests.antt =====
-- Requests with a good token, a bad one and none.
use placement_assistant.Prelude.{
  ℕ, String, true, false, Option, none, some, [], ◌∷◌, keep, ok, err, runtime_error, ◌≡◌, ◌⊎◌, refl,
  sym, arith, str_eq, find, any, if◌then◌else◌,
}
use placement_assistant.Value.{Fields, end, field, str, get}
use placement_assistant.Database.{Db, Principal, ConversationSession}
use placement_assistant.Database.Sample.{campus, ben}
use placement_assistant.Agent.Memory.{owned_student, owns}
use placement_assistant.Agent.Memory.Ownership.{IsSession, IsOwner}
use placement_assistant.Agent.Budget.{unset}
use placement_assistant.Agent.Turn.{World, answered}
use placement_assistant.Application.Security.{model_validate, current_principal}
use placement_assistant.Application.{
  Request, error, value, codes, http_error, exception_response, request_context, answer, authorized,
  serve, me,
}
use placement_assistant.Application.Routers.{
  chat_with_agent, send_message, get_conversation_history,
}
use placement_assistant.Application.Access.{IsRefused, IsVerified, serve-Verified}
use placement_assistant.Application.Failures.{IsClosed, conversation-IsClosed}

abbrev claims : Fields
claims =
    field "sub" (str "12") (field "institution_id" (str "1") (field "role" (str "STUDENT") end))

abbrev decode : String → Option Fields
decode token = if str_eq token "good" then some claims else none

abbrev uuid : String → Option ℕ
uuid s = if str_eq s "12" then some 12 else if str_eq s "1" then some 1 else none

abbrev from : Option String → Request
from token = record { request_id = "r1"; token = token; has_session = false }

-- Stands for all the definitions that a run computes with.
unfoldable everything : Unit {0}
unfolding model_validate current_principal codes http_error exception_response request_context
    answer authorized serve me get
everything = tt

run_me : (me decode uuid (from (some "good")) campus).0 ≡ record {
  status_code = 200;
  body = value ben;
  headers =
      ("X-Request-ID", "r1")
      ∷ ("X-Content-Type-Options", "nosniff")
      ∷ ("Cache-Control", "no-store")
      ∷ [];
}
unfolding everything
run_me = refl

run_bad_token : (me decode uuid (from (some "bad")) campus).0 ≡ record {
  status_code = 401;
  body = error "UNAUTHORIZED" "r1";
  headers =
      ("WWW-Authenticate", "Bearer")
      ∷ ("X-Request-ID", "r1")
      ∷ ("X-Content-Type-Options", "nosniff")
      ∷ ("Cache-Control", "no-store")
      ∷ [];
}
unfolding everything
run_bad_token = refl

serve-Verified_example :
    IsRefused decode uuid
      (from none)
      campus
      (serve decode uuid (from none) 200 (λ p db. (ok p, db)) campus)
    ⊎ ((p : Principal) × IsVerified decode uuid none p
        × (serve decode uuid (from none) 200 (λ p db. (ok p, db)) campus
            ≡ answer "r1" 200 (ok p, campus)))
serve-Verified_example = serve-Verified decode uuid (from none) 200 (λ p db. (ok p, db)) campus

abbrev asking : Request
asking = record { request_id = "r2"; token = some "good"; has_session = true }

abbrev talk : ConversationSession
talk = record { id = 7; institution_id = 1; student_id = 101; created_at = 50 }

abbrev talking : Db
talking = record campus { sessions = talk ∷ [] }

talk-IsSession : IsSession talking 7 talk
unfolding keep
talk-IsSession = refl

-- The good token is ben's, who does not own the conversation.
its_sub : (p : Principal) → IsVerified decode uuid (some "good") p → p.sub ≡ 12
unfolding get
its_sub p v =
    let bearer : "good" ≡ v.bearer = cc v.given in
    let same : claims ≡ v.claims = cc (rw (sym bearer) at v.accepted) in
    let text : "12" ≡ v.sub.text = cc (rw (sym same) at v.sub.claim) in
    sym (cc (rw (sym text) at v.sub.read))

nobody : (p : Principal) → IsVerified decode uuid (some "good") p → ¬ IsOwner p talking talk
unfolding owned_student owns find any
nobody p v owner = ground (arith, its_sub p v)

abbrev quiet : World
quiet = record {
  client = λ n messages. answered [];
  loads = λ s. none;
  dumps = λ v. "{}";
  normalize = λ v. "{}";
  model_validate = λ v. err runtime_error;
  explain = λ e. "";
  registry = λ name. none;
  system_prompt = "You explain.";
  environment = record { agent_max_tool_calls = unset; agent_max_steps = unset };
  now = 5;
}

conversation-IsClosed_example :
    IsClosed decode uuid
      (from (some "good"))
      talking
      (chat_with_agent decode uuid (from (some "good")) quiet 7 21 "hi" talking)
    × IsClosed decode uuid
        (from (some "good"))
        talking
        (send_message decode uuid (from (some "good")) quiet 7 21 "hi" talking)
    × IsClosed decode uuid
        (from (some "good"))
        talking
        (some (get_conversation_history decode uuid (from (some "good")) 7 5 talking))
conversation-IsClosed_example =
    conversation-IsClosed decode uuid (from (some "good")) quiet 7 21 "hi" talking talk
      talk-IsSession nobody
